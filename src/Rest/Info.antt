-- ===== src/Rest/Info.antt =====
-- `adeptness_info_handler` of src/CanMonitor/common/adeptnessSvc.c, and the handlers with it.
pub mod Kept
use can_monitor.Base.{ℕ, List, Bytes, Option, some, true, codes, Outcome, done, ◌>>=◌}
use can_monitor.Monitor.Payload.{base_topic, endpoint, mqtt_endpoint}
use can_monitor.Rest.Metrics.{Usage, adeptness_handler_metrics}
use can_monitor.Rest.Server.{Handler, HttpReply, http_ok}
use can_monitor.Rest.Specific.{Callbacks, registered_handlers}
use can_monitor.Service.Json.{Json, deref}
use can_monitor.Service.Sensors.{QueryPair}
use can_monitor.Service.State.{State, log_copy}

module _ (json : Json) (address : Option Bytes) where
  open json use {
    json_value_init_object, json_value_init_array, json_object_set_string, json_object_set_number,
    json_object_set_value, json_array_append_value, json_serialize_to_string, of_int,
  }

  -- `address` is the text of the host's first address, `none` where `gethostbyname` fails. The
  -- endpoint "mqtt" is appended a second time, which the library refuses, since it has a parent.
  unfoldable pub adeptness_info_handler :
      Bytes → ℕ → List QueryPair → Option Bytes → State → Outcome (HttpReply × State)
  unfolding mqtt_endpoint
  adeptness_info_handler url method queries upload st = deref address >>= λ ip.
      deref st.monitor_id >>= λ id.
      let topic = base_topic id in
      let identified = json_object_set_string json_value_init_object (codes "id") id in
      let named = json_object_set_string identified (codes "name") (codes "string") in
      let typed =
        json_object_set_string named (codes "microservice-type") (codes "monitor-agent") in
      let located = json_object_set_string json_value_init_object (codes "ip") ip in
      let http =
        endpoint json (codes "http")
          (json_object_set_number located (codes "port") (of_int st.rest_server_port)) in
      let leaves =
        json_array_append_value (json_array_append_value json_value_init_array http)
          (mqtt_endpoint json topic st) in
      let document = json_object_set_value typed (codes "endpoints") leaves in
      done (
        record { status = http_ok; body = some (json_serialize_to_string document); json = true },
        log_copy 100 topic st,
      )

  -- The handlers of a service.
  unfoldable pub service_handlers : Usage json → Callbacks → Bytes → List (Handler State)
  unfolding registered_handlers adeptness_info_handler adeptness_handler_metrics
  service_handlers usage userfns version =
      registered_handlers json userfns version adeptness_info_handler
        (adeptness_handler_metrics json usage)
