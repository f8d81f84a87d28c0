-- ===== src/Monitor/Environment.antt =====
-- The configuration at the start: `get_info_from_environment_variables` and
-- `get_info_from_config_file` of src/CanMonitor/CanMonitor.c.
pub mod Startup
use can_monitor.Base.{
  ℕ, Bytes, Option, none, some, Bool, true, false, not, codes, if◌then◌else◌, Outcome, done, ◌>>=◌,
}
use can_monitor.Libc.Scan.{atoi}
use can_monitor.Service.Json.{Json, deref}
use can_monitor.Service.State.{State}

-- Whether the function succeeds (its result is 0), and the variables.
pub record Configured : Type 0 where
  pub success : Bool
  pub state : State

abbrev given : State → Configured
given st = record { success = true; state = st }

abbrev absent : State → Configured
absent st = record { success = false; state = st }

-- A variable that has to be set: where it is not, the function ends.
unfoldable pub require :
    Option Bytes → (Bytes → State → State) → State → (State → Configured) → Configured
require none assign st k = absent st
require (some s) assign st k = k (assign s st)

unfoldable pub get_info_from_environment_variables : (Bytes → Option Bytes) → State → Configured
unfolding require atoi
get_info_from_environment_variables getenv st =
    require (getenv (codes "REST_PORT")) (λ s v. record v { rest_server_port = atoi s }) st
      λ st₁.
        require (getenv (codes "MQTT_BROKER_IP")) (λ s v. record v { mqtt_broker_host = some s })
          st₁
          λ st₂.
            require (getenv (codes "MQTT_BROKER_PORT"))
              (λ s v. record v { mqtt_broker_port = atoi s }) st₂
              λ st₃.
                require (getenv (codes "MQTT_QOS")) (λ s v. record v { mqtt_qos = atoi s }) st₃
                  λ st₄.
                    require (getenv (codes "SVC_ID")) (λ s v. record v { monitor_id = some s }) st₄
                      λ st₅. given (record st₅ { mqtt_username = some (codes "adeptness") })

module _ (json : Json) where
  open json use {
    Value, json_value_get_object, json_object_get_string, json_object_get_number, to_int,
  }

  -- The flag says whether `access` finds the file; the document is what `json_parse_file` makes
  -- of it.
  unfoldable pub get_info_from_config_file : Bool → Option Value → State → Outcome Configured
  get_info_from_config_file exists config_json st =
      let object = json_value_get_object config_json in
      let rest_port = to_int (json_object_get_number object (codes "rest_server_port")) in
      let port = to_int (json_object_get_number object (codes "mqtt_broker_port")) in
      let qos = to_int (json_object_get_number object (codes "mqtt_qos")) in
      if not exists
      then done (absent st)
      else (deref (json_object_get_string object (codes "mqtt_broker_ip")) >>= λ host.
          deref (json_object_get_string object (codes "mqtt_id")) >>= λ id.
          deref (json_object_get_string object (codes "mqtt_username")) >>= λ username. done (
            given (record st {
              rest_server_port = rest_port;
              mqtt_broker_host = some host;
              mqtt_broker_port = port;
              mqtt_qos = qos;
              monitor_id = some id;
              mqtt_username = some username;
            })))
