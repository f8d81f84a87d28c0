-- ===== src/Monitor/Payload.antt =====
-- The payloads of src/CanMonitor/mqtt/mqtt_payload_helpers.c.
use can_monitor.Base.{◌++◌, Bytes, Option, none, some, codes, Outcome, done, ◌>>=◌}
use can_monitor.Service.Json.{Json, deref}
use can_monitor.Service.Reads.{member_documents}
use can_monitor.Service.State.{State, log_copy}
use can_monitor.Tables.Defs.{Table}
use can_monitor.Tables.Sensorgroups.{Sensorgroup}
use can_monitor.Tables.Sensors.{Sensor}

-- DATA_TOPIC_PREFIX and DISCOVERY_TOPIC of src/CanMonitor/CanMonitor.h.
abbrev pub data_topic_prefix : Bytes
data_topic_prefix = codes "adms/v2/monitor-agent"

abbrev pub discovery_topic : Bytes
discovery_topic = codes "adms/v2/discovery"

-- `char base_topic[100]`, and the monitor's name behind a slash.
abbrev pub base_topic : Bytes → Bytes
base_topic monitor_id = data_topic_prefix ++ (codes "/" ++ monitor_id)

module _ (json : Json) where
  open json use {
    Value, json_value_init_object, json_value_init_array, json_object_set_string,
    json_object_set_number, json_object_set_value, json_array_append_value,
    json_serialize_to_string, of_int, of_unsigned,
  }

  -- The library sets nothing for NULL.
  unfoldable pub set_text : Value → Bytes → Option Bytes → Value
  set_text object key none = object
  set_text object key (some s) = json_object_set_string object key s

  abbrev pub endpoint : Bytes → Value → Value
  endpoint type config =
      json_object_set_value
        (json_object_set_string json_value_init_object (codes "endpoint-type") type)
        (codes "endpoint-config") config

  -- The address of the broker, and the topic.
  unfoldable pub mqtt_endpoint : Bytes → State → Value
  unfolding set_text
  mqtt_endpoint topic st =
      let host = set_text json_value_init_object (codes "ip") st.mqtt_broker_host in
      let port = json_object_set_number host (codes "port") (of_int st.mqtt_broker_port) in
      let qos = json_object_set_number port (codes "qos") (of_int st.mqtt_qos) in
      endpoint (codes "mqtt") (json_object_set_string qos (codes "base-topic") topic)

  -- The text of the document, and the state with its ledger. `address` is what `inet_ntoa` makes
  -- of the host's first address, `none` where `gethostbyname` fails; it is overwritten.
  unfoldable pub create_discovery_payload : Option Bytes → State → Outcome (Bytes × State)
  unfolding mqtt_endpoint
  create_discovery_payload address st = deref st.monitor_id >>= λ id.
      let topic = base_topic id in
      deref address >>= λ ip.
      let named = json_object_set_string json_value_init_object (codes "id") id in
      let twice = json_object_set_string named (codes "name") id in
      let typed =
        json_object_set_string twice (codes "microservice-type") (codes "monitor-agent") in
      let first = json_object_set_string json_value_init_object (codes "ip") ip in
      let local = json_object_set_string first (codes "ip") (codes "127.0.0.1") in
      let http =
        endpoint (codes "http")
          (json_object_set_number local (codes "port") (of_int st.rest_server_port)) in
      let leaves =
        json_array_append_value
          (json_array_append_value json_value_init_array (mqtt_endpoint topic st)) http in
      done (
        json_serialize_to_string (json_object_set_value typed (codes "endpoints") leaves),
        log_copy 100 topic st,
      )

  -- The measurement of one sensor.
  abbrev pub sample_document : Sensor → Value
  sample_document s =
      let id = json_object_set_string json_value_init_object (codes "bn") s.id in
      let name = json_object_set_string id (codes "n") s.name in
      let value = json_object_set_string name (codes "v") s.value in
      json_object_set_number value (codes "bt") (of_unsigned s.timestamp)

  unfoldable pub create_data_payload : Option (Table Sensor) → Sensorgroup → Outcome Bytes
  unfolding member_documents
  create_data_payload sensors sg =
      member_documents json sample_document sensors sg.sensorcount 0 sg.sensor_list
        json_value_init_array
      >>= λ leaves. done (json_serialize_to_string leaves)
