-- ===== src/Service/State.antt =====
-- The global variables of src/CanMonitor/CanMonitor.c, and what a handler returns.
pub mod Overruns
pub mod Ledger
use can_monitor.Base.{ℕ, ◌+◌, List, ◌++◌, Bytes, Option, Outcome, done, length, codes}
use can_monitor.Frame.Parse.{Overrun, overrun}
use can_monitor.Service.Json.{Json}
use can_monitor.Tables.Defs.{Table}
use can_monitor.Tables.Sensorgroups.{Sensorgroup}
use can_monitor.Tables.Sensors.{Sensor}

-- `ms_status`
pub data MsStatus : Type 0 where
  unconfigured configured running error exit_ms : MsStatus

-- `adeptness_rest_response`
pub data Response : Type 0 where
  ok resource_not_found incorrect_payload no_config_data error : Response

-- An `int` is its bit pattern. `overruns` is the ledger of the writes past the end of a buffer.
pub record State : Type 0 where
  pub status : MsStatus
  pub sensors_table : Option (Table Sensor)
  pub sensorgroup_table : Option (Table Sensorgroup)
  pub rest_server_port : ℕ
  pub mqtt_broker_host : Option Bytes
  pub mqtt_broker_port : ℕ
  pub mqtt_qos : ℕ
  pub mqtt_username : Option Bytes
  pub monitor_id : Option Bytes
  pub restart_mqtt : ℕ
  pub restart_http : ℕ
  pub can_up : ℕ
  pub can_conf_id : Option Bytes
  pub canport : Option Bytes
  pub bitrate : ℕ
  pub overruns : List Overrun

-- The result, the text that the out parameter points to, and the state.
pub record Reply : Type 0 where
  pub response : Response
  pub text : Bytes
  pub state : State

-- `strcpy` of a text and its NUL into a buffer of the given size.
abbrev pub log_copy : ℕ → Bytes → State → State
log_copy capacity text st = record st {
  overruns = overrun capacity (length text + 1) ++ st.overruns;
}

module _ (json : Json) where
  open json use {Value, json_value_init_object, json_object_set_string, json_serialize_to_string}

  -- A serialized document is copied into a buffer of its length, with no room for the NUL.
  unfoldable pub send : Response → Value → State → Reply
  send response document st =
      let text = json_serialize_to_string document in
      record { response = response; text = text; state = log_copy (length text) text st }

  unfoldable pub create_error_message : Bytes → State → Reply
  unfolding send
  create_error_message message st =
      send Response.error (json_object_set_string json_value_init_object (codes "message") message)
        st

-- `strcpy(*values, ""); return OK;`
abbrev pub succeed : State → Reply
succeed st = record { response = Response.ok; text = codes ""; state = st }
