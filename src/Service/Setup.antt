-- ===== src/Service/Setup.antt =====
-- `update_microservice_configuration` of src/CanMonitor/implementation/impl.c.
pub mod Status
use can_monitor.Base.{
  Bytes, Option, none, some, Bool, true, false, ◌&&◌, codes, str_eq, if◌then◌else◌, Outcome, done,
  ◌>>=◌,
}
use can_monitor.Service.Command.{is_running, set_status}
use can_monitor.Service.Json.{Json, is_some, deref}
use can_monitor.Service.State.{State, MsStatus, Reply, create_error_message, succeed}

module _ (json : Json) where
  open json use {
    Object, Value, json_parse_string, json_value_get_object, json_object_get_value,
    json_object_get_string, json_object_get_number, to_int,
  }

  abbrev has : Option Object → Bytes → Bool
  has jobj key = is_some (json_object_get_value jobj key)

  -- The endpoint "http": `jobj_config` is the object under "endpoint-config".
  unfoldable pub setup_http : Option Object → State → Reply
  unfolding create_error_message
  setup_http jobj_config st =
      if has jobj_config (codes "ip") && has jobj_config (codes "port")
      then succeed (record st {
        rest_server_port = to_int (json_object_get_number jobj_config (codes "port"));
        restart_http = 1;
      })
      else create_error_message json (codes "HTTP config is not correct") st

  -- `status` is set back while the parameters change, and restored.
  abbrev pause : State → State
  pause st = if is_running st.status then set_status MsStatus.configured st else st

  abbrev resume : MsStatus → State → State
  resume old_status st = if is_running old_status then set_status MsStatus.running st else st

  -- The endpoint "mqtt".
  unfoldable pub setup_mqtt : Option Object → State → Outcome Reply
  unfolding create_error_message
  setup_mqtt jobj_config st =
      if has jobj_config (codes "ip")
        && (has jobj_config (codes "port")
            && (has jobj_config (codes "qos") && has jobj_config (codes "base-topic")))
      then (deref (json_object_get_string jobj_config (codes "ip")) >>= λ host.
          let paused = pause st in
          let changed = record paused {
            mqtt_broker_host = some host;
            mqtt_broker_port = to_int (json_object_get_number jobj_config (codes "port"));
            mqtt_qos = to_int (json_object_get_number jobj_config (codes "qos"));
            restart_mqtt = 1;
          } in
          done (succeed (resume st.status changed)))
      else done (create_error_message json (codes "MQTT config is not correct") st)

  unfoldable pub update_microservice_configuration : Bytes → State → Outcome Reply
  unfolding create_error_message setup_http setup_mqtt
  update_microservice_configuration values st =
      let jobj = json_value_get_object (json_parse_string values) in
      if has jobj (codes "endpoint-type") && has jobj (codes "endpoint-config")
      then (deref (json_object_get_string jobj (codes "endpoint-type")) >>= λ endpoint_type.
          let jobj_config =
            json_value_get_object (json_object_get_value jobj (codes "endpoint-config")) in
          if str_eq endpoint_type (codes "http")
          then done (setup_http jobj_config st)
          else if str_eq endpoint_type (codes "mqtt")
          then setup_mqtt jobj_config st
          else done (create_error_message json (codes "No valid endpoint-type") st))
      else done (create_error_message json (codes "Configuration is not valid.") st)
