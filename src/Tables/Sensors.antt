-- ===== src/Tables/Sensors.antt =====
-- `sensor` of sensor.h and the table of hashtable_sensors.c.
use can_monitor.Base.{ℕ, Bool, Bytes, Option, Outcome}
use can_monitor.Tables.Defs.{Slot, Node, Table, create, put, node_handler, get, delete, free_table}

-- Numbers are the bit patterns of their `uint32_t` or `uint64_t`.
pub record Sensor : Type 0 where
  pub id : Bytes
  pub name : Bytes
  pub type : Bytes
  pub can_id : ℕ
  pub init_bit : ℕ
  pub end_bit : ℕ
  pub sampling_rate : ℕ
  pub value : Bytes
  pub timestamp : ℕ

unfoldable pub hts_create : ℕ → Bool → Bool → Option (Table Sensor)
unfolding create
hts_create = create

unfoldable pub hts_put :
    Bool → Option (Table Sensor) → Bytes → Sensor → Outcome (ℕ × Option (Table Sensor))
unfolding put
hts_put = put

unfoldable pub node_handler_sensors : Table Sensor → Node Sensor → Outcome (Table Sensor)
unfolding node_handler
node_handler_sensors = node_handler

unfoldable pub hts_get : Option (Table Sensor) → Bytes → Option (Slot Sensor)
unfolding get
hts_get = get

unfoldable pub hts_delete :
    Option (Table Sensor) → Bytes → Option (Slot Sensor) × Option (Table Sensor)
unfolding delete
hts_delete = delete

unfoldable pub hts_free : Option (Table Sensor) → Outcome (Unit {0})
unfolding free_table
hts_free = free_table
