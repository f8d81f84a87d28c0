-- ===== src/Service/Sensors.antt =====
-- The handlers of src/CanMonitor/implementation/sensor.c that change the sensors.
pub mod Creation
pub mod Status
use can_monitor.Base.{
  ℕ, zero, suc, ◌+◌, ◌-◌, ◌%◌, ◌^◌, List, [], ◌∷◌, Bytes, Option, none, some, Bool, true, false,
  not, ◌&&◌, codes, str_eq, ◌==◌, ltb, get_elem?, length, take, if◌then◌else◌, Outcome, done, fault,
  ◌>>=◌, ◌++◌,
}
use can_monitor.Libc.Scan.{sscanf_u32}
use can_monitor.Service.Command.{is_running, set_status}
use can_monitor.Service.Connection.{Loop, next, stop}
use can_monitor.Service.Json.{Json, is_some, deref}
use can_monitor.Service.State.{
  State, MsStatus, Response, Reply, log_copy, create_error_message, succeed,
}
use can_monitor.Tables.Defs.{Slot, live, freed, Node, Table}
use can_monitor.Tables.Sensorgroups.{Sensorgroup}
use can_monitor.Tables.Sensors.{Sensor, hts_get, hts_put, hts_delete}

-- `query_pairs` of src/CanMonitor/common/rest-server.h, as the list of its nodes.
pub record QueryPair : Type 0 where
  pub name : Bytes
  pub value : Bytes

-- The local variables of the loop over the settings.
pub record Settings : Type 0 where
  pub can_id : ℕ
  pub init_bit : ℕ
  pub end_bit : ℕ
  pub flag : ℕ

-- `if (status != running) status = configured;`
abbrev pub configured_unless_running : State → State
configured_unless_running st =
    if is_running st.status then st else set_status MsStatus.configured st

module _ (json : Json) where
  open json use {
    Object, Array, Value, json_parse_string, json_value_get_object, json_object_get_value,
    json_object_get_string, json_object_get_number, json_object_get_array, json_array_get_count,
    json_array_get_value, to_int,
  }

  abbrev pub has : Option Object → Bytes → Bool
  has jobj key = is_some (json_object_get_value jobj key)

  abbrev read_u32 : Option Object → ℕ → Outcome ℕ
  read_u32 object old =
      deref (json_object_get_string object (codes "value")) >>= λ text. done (sscanf_u32 old text)

  -- One round of the loop over the settings.
  unfoldable pub sensor_setting : Option Value → Settings → Outcome (Loop Settings)
  sensor_setting setting s =
      let object = json_value_get_object setting in
      if has object (codes "key") && has object (codes "value")
      then (deref (json_object_get_string object (codes "key")) >>= λ key.
          if str_eq key (codes "can-id")
          then (read_u32 object s.can_id >>= λ v.
              done (next (record s { can_id = v; flag = (s.flag + 1) % 2 ^ 8 })))
          else if str_eq key (codes "init-bit")
          then (read_u32 object s.init_bit >>= λ v.
              done (next (record s { init_bit = v; flag = (s.flag + 1) % 2 ^ 8 })))
          else if str_eq key (codes "end-bit")
          then (read_u32 object s.end_bit >>= λ v.
              done (next (record s { end_bit = v; flag = (s.flag + 1) % 2 ^ 8 })))
          else done (stop s))
      else done (stop s)

  unfoldable pub sensor_settings : ℕ → ℕ → Option Array → Settings → Outcome (Loop Settings)
  unfolding sensor_setting
  sensor_settings zero i settings s = done (next s)
  sensor_settings (suc left) i settings s =
      sensor_setting (json_array_get_value settings i) s >>= λ r. elim r [
        | next s' ↦ sensor_settings left (i + 1) settings s'
        | stop s' ↦ done (stop s')
      ]

  abbrev invalid : State → Reply
  invalid st = create_error_message json (codes "The sensor information is not valid") st

  -- The new sensor goes into the table, and the status follows.
  unfoldable pub add_sensor : Sensor → State → Outcome Reply
  unfolding hts_put
  add_sensor sens st = hts_put true st.sensors_table sens.id sens >>= λ r.
      done (succeed (configured_unless_running (record st { sensors_table = r.1 })))

  -- What follows the loop over the settings.
  unfoldable pub finish_sensor :
      Option Object → Bytes → Bytes → Bytes → State → Loop Settings → Outcome Reply
  unfolding create_error_message add_sensor
  finish_sensor jobj id name type st (stop s) = done (invalid st)
  finish_sensor jobj id name type st (next s) =
      if not (s.flag == 3)
      then done (invalid st)
      else add_sensor
          (record {
            id = id;
            name = name;
            type = type;
            can_id = s.can_id;
            init_bit = s.init_bit;
            end_bit = s.end_bit;
            sampling_rate = to_int (json_object_get_number jobj (codes "sampling-rate"));
            value = codes "";
            timestamp = 0;
          })
          st

  abbrev pub no_settings : Settings
  no_settings = record { can_id = 0; init_bit = 0; end_bit = 0; flag = 0 }

  -- The part behind the test of the keys.
  unfoldable pub create_sensor : Option Object → State → Outcome Reply
  unfolding create_error_message sensor_settings finish_sensor hts_get
  create_sensor jobj st = deref (json_object_get_string jobj (codes "sensor-id")) >>= λ id.
      if is_some (hts_get st.sensors_table id)
      then done (create_error_message json (codes "A sensor with that id already exists") st)
      else (deref (json_object_get_string jobj (codes "sensor-name")) >>= λ name.
          deref (json_object_get_string jobj (codes "sensor-type")) >>= λ type.
          let settings = json_object_get_array jobj (codes "sensor-settings") in
          if json_array_get_count settings == 3
          then (sensor_settings 3 0 settings no_settings >>= finish_sensor jobj id name type st)
          else done (invalid st))

  unfoldable pub create_sensors_configuration : Bytes → State → Outcome Reply
  unfolding create_error_message create_sensor
  create_sensors_configuration values st =
      let jobj = json_value_get_object (json_parse_string values) in
      if has jobj (codes "sensor-id")
        && (has jobj (codes "sensor-name")
            && (has jobj (codes "sensor-type")
                && (has jobj (codes "sampling-rate") && has jobj (codes "sensor-settings"))))
      then create_sensor jobj st
      else done (invalid st)
