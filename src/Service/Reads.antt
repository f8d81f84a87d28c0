-- ===== src/Service/Reads.antt =====
-- The handlers that report on the tables: `read_sensors_configuration` and
-- `read_sensor_measurements` of src/CanMonitor/implementation/sensor.c, and
-- `read_sensorgroups_subscription` of src/CanMonitor/implementation/sensorgroup.c.
pub mod Members
pub mod Listing
pub mod Known
pub mod Dangling
use can_monitor.Base.{
  ℕ, zero, suc, ◌+◌, List, [], ◌∷◌, Bytes, Option, none, some, codes, str_eq, get_elem?,
  if◌then◌else◌, Outcome, done, fault, ◌>>=◌,
}
use can_monitor.Libc.Decimal.{decimal, signed_decimal}
use can_monitor.Service.Json.{Json}
use can_monitor.Service.Sensors.{QueryPair}
use can_monitor.Service.State.{State, Response, Reply, send, create_error_message}
use can_monitor.Tables.Defs.{Slot, live, freed, Node, Table}
use can_monitor.Tables.Sensorgroups.{Sensorgroup}
use can_monitor.Tables.Sensors.{Sensor, hts_get}

-- Reading through a value pointer: undefined at NULL and after `free`.
unfoldable pub at_slot {ℓ} : {V : Type ℓ} → Option (Slot V) → Outcome V
at_slot none = fault
at_slot (some (live v)) = done v
at_slot (some freed) = fault

module _ (json : Json) where
  open json use {
    Value, Number, json_value_init_object, json_value_init_array, json_object_set_string,
    json_object_set_number, json_object_set_value, json_array_append_value,
    json_serialize_to_string, of_unsigned,
  }

  -- Every value of a chain adds its document to an array.
  unfoldable pub chain_documents {ℓ} :
      {V : Type ℓ} → (V → Outcome Value) → List (Node V) → Value → Outcome Value
  unfolding at_slot
  chain_documents document [] leaves = done leaves
  chain_documents document (n ∷ ns) leaves = at_slot (some n.slot) >>= λ v.
      document v >>= λ d. chain_documents document ns (json_array_append_value leaves d)

  unfoldable pub cell_documents {ℓ} :
      {V : Type ℓ} → (V → Outcome Value) → ℕ → List (List (Node V)) → Value → Outcome Value
  unfolding chain_documents
  cell_documents document zero cs leaves = done leaves
  cell_documents document (suc left) [] leaves = fault
  cell_documents document (suc left) (c ∷ cs) leaves =
      chain_documents document c leaves >>= cell_documents document left cs

  -- The loops over a table.
  unfoldable pub table_documents {ℓ} :
      {V : Type ℓ} → (V → Outcome Value) → Option (Table V) → Outcome Value
  unfolding cell_documents
  table_documents document none = fault
  table_documents document (some t) = cell_documents document t.size t.array json_value_init_array

  abbrev setting_document : Bytes → Bytes → Value
  setting_document key value =
      json_object_set_string (json_object_set_string json_value_init_object (codes "key") key)
        (codes "value") value

  abbrev three_settings : (ℕ → Bytes) → Sensor → Value
  three_settings print s =
      json_array_append_value
        (json_array_append_value
          (json_array_append_value json_value_init_array
            (setting_document (codes "can-id") (print s.can_id)))
          (setting_document (codes "init-bit") (print s.init_bit)))
        (setting_document (codes "end-bit") (print s.end_bit))

  -- The identifier, the name, the type, the settings and the rate; `print` is "%u" or "%d".
  unfoldable pub sensor_document : (ℕ → Bytes) → Sensor → Value
  sensor_document print s =
      json_object_set_number
        (json_object_set_value
          (json_object_set_string
            (json_object_set_string
              (json_object_set_string json_value_init_object (codes "sensor-id") s.id)
              (codes "sensor-name") s.name)
            (codes "sensor-type") s.type)
          (codes "sensor-settings") (three_settings print s))
        (codes "sampling-rate") (of_unsigned s.sampling_rate)

  -- The buffer of the text has room for the NUL here.
  unfoldable pub read_sensors_configuration : State → Outcome Reply
  unfolding table_documents sensor_document
  read_sensors_configuration st =
      table_documents (λ s. done (sensor_document decimal s)) st.sensors_table >>= λ leaves.
      done (record { response = Response.ok; text = json_serialize_to_string leaves; state = st })

  unfoldable pub measurement_document : Sensor → Value
  measurement_document s =
      let named = json_object_set_string json_value_init_object (codes "name") s.name in
      let typed = json_object_set_string named (codes "value-type") s.type in
      let valued = json_object_set_string typed (codes "value") s.value in
      let timed = json_object_set_number valued (codes "timestamp") (of_unsigned s.timestamp) in
      json_object_set_value (json_object_set_string json_value_init_object (codes "sensor-id") s.id)
        (codes "sensor-data") timed

  -- The measurement of one sensor.
  unfoldable pub read_one_measurement : Bytes → State → Outcome Reply
  unfolding hts_get measurement_document send create_error_message at_slot
  read_one_measurement id st = elim (hts_get st.sensors_table id) [
    | none ↦ done (create_error_message json (codes "There is no sensor with that id") st)
    | some slot ↦ at_slot (some slot) >>= λ s. done (
        send json Response.ok
          (json_array_append_value json_value_init_array (measurement_document s)) st)
  ]

  unfoldable pub read_sensor_measurements : List QueryPair → State → Outcome Reply
  unfolding read_one_measurement table_documents measurement_document send create_error_message
  read_sensor_measurements [] st =
      table_documents (λ s. done (measurement_document s)) st.sensors_table >>= λ leaves.
      done (send json Response.ok leaves st)
  read_sensor_measurements (q ∷ []) st =
      if str_eq q.name (codes "id")
      then read_one_measurement q.value st
      else done (create_error_message json (codes "Unsupported query") st)
  read_sensor_measurements (q ∷ r ∷ qs) st =
      done (create_error_message json (codes "Too many query variables in the request") st)

  -- The loop over the members of a group, `left` of them from `i` on: each adds its document.
  unfoldable pub member_documents :
      (Sensor → Value) → Option (Table Sensor) → ℕ → ℕ → List Bytes → Value → Outcome Value
  unfolding hts_get at_slot
  member_documents document sensors zero i ids leaves = done leaves
  member_documents document sensors (suc left) i ids leaves = elim (get_elem? ids i) [
    | none ↦ fault
    | some id ↦ at_slot (hts_get sensors id) >>= λ s.
        member_documents document sensors left (i + 1) ids
          (json_array_append_value leaves (document s))
  ]

  unfoldable pub group_document : Option (Table Sensor) → Sensorgroup → Outcome Value
  unfolding member_documents sensor_document
  group_document sensors sg =
      member_documents (sensor_document (signed_decimal 32)) sensors sg.sensorcount 0 sg.sensor_list
        json_value_init_array
      >>= λ list.
          let named =
            json_object_set_string json_value_init_object (codes "sensorgroup-id") sg.id in
          let rated =
            json_object_set_number named (codes "publish-rate") (of_unsigned sg.publish_rate) in
          done (json_object_set_value rated (codes "sensor-list") list)

  unfoldable pub read_sensorgroups_subscription : State → Outcome Reply
  unfolding table_documents group_document send
  read_sensorgroups_subscription st =
      table_documents (group_document st.sensors_table) st.sensorgroup_table >>= λ leaves.
      done (send json Response.ok leaves st)
