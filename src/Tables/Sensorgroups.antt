-- ===== src/Tables/Sensorgroups.antt =====
-- `sensorgroup` of sensorgroup.h and the table of hashtable_sensorgroups.c.
use can_monitor.Base.{ℕ, List, Bool, Bytes, Option, Outcome}
use can_monitor.Tables.Defs.{Slot, Node, Table, create, put, node_handler, get, delete, free_table}

-- `struct timeval`, before its overflow.
pub record Timeval : Type 0 where
  pub tv_sec : ℕ
  pub tv_usec : ℕ

-- `sensor_list` holds the identifiers of `sensorcount` sensors.
pub record Sensorgroup : Type 0 where
  pub id : Bytes
  pub publish_rate : ℕ
  pub sensorcount : ℕ
  pub sensor_list : List Bytes
  pub last_publish_time : Timeval

unfoldable pub htsg_create : ℕ → Bool → Bool → Option (Table Sensorgroup)
unfolding create
htsg_create = create

unfoldable pub htsg_put :
    Bool
    → Option (Table Sensorgroup)
    → Bytes
    → Sensorgroup
    → Outcome (ℕ × Option (Table Sensorgroup))
unfolding put
htsg_put = put

unfoldable pub node_handler_sensorgroups :
    Table Sensorgroup → Node Sensorgroup → Outcome (Table Sensorgroup)
unfolding node_handler
node_handler_sensorgroups = node_handler

unfoldable pub htsg_get : Option (Table Sensorgroup) → Bytes → Option (Slot Sensorgroup)
unfolding get
htsg_get = get

unfoldable pub htsg_delete :
    Option (Table Sensorgroup) → Bytes → Option (Slot Sensorgroup) × Option (Table Sensorgroup)
unfolding delete
htsg_delete = delete

unfoldable pub htsg_free : Option (Table Sensorgroup) → Outcome (Unit {0})
unfolding free_table
htsg_free = free_table
