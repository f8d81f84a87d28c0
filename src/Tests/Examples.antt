-- ===== src/Tests/Examples.antt =====
-- The data of the tests: a sensor, a group, a frame, a state, and requests.
use can_monitor.Base.{[], ◌∷◌, Bytes, none, some, codes}
use can_monitor.Frame.Mask.{CanFrame}
use can_monitor.Service.State.{State, MsStatus}
use can_monitor.Tables.Sensorgroups.{Sensorgroup}
use can_monitor.Tables.Sensors.{Sensor}
use can_monitor.Tests.Documents.{Document, text, double, object, array, member, item}

abbrev pub speed : Sensor
speed = record {
  id = codes "speed";
  name = codes "Speed";
  type = codes "Uint8";
  can_id = 291;
  init_bit = 8;
  end_bit = 15;
  sampling_rate = 5;
  value = codes "";
  timestamp = 0;
}

abbrev pub group : Sensorgroup
group = record {
  id = codes "motor";
  publish_rate = 1000;
  sensorcount = 2;
  sensor_list = codes "speed" ∷ codes "heat" ∷ [];
  last_publish_time = record { tv_sec = 0; tv_usec = 0 };
}

abbrev pub frame : CanFrame
frame = record { can_id = 291; can_dlc = 2; bytes = 1 ∷ 44 ∷ 0 ∷ 0 ∷ 0 ∷ 0 ∷ 0 ∷ 0 ∷ [] }

-- The state before the tables are made.
abbrev pub fresh : State
fresh = record {
  status = MsStatus.configured;
  sensors_table = none;
  sensorgroup_table = none;
  rest_server_port = 8080;
  mqtt_broker_host = none;
  mqtt_broker_port = 1883;
  mqtt_qos = 0;
  mqtt_username = some (codes "adeptness");
  monitor_id = some (codes "m1");
  restart_mqtt = 0;
  restart_http = 0;
  can_up = 1;
  can_conf_id = none;
  canport = some (codes "can0");
  bitrate = 500000;
  overruns = [];
}

abbrev pub setting : Bytes → Bytes → Document
setting key value = member (codes "key") (text key) (member (codes "value") (text value) object)

abbrev pub new_sensor : Document
new_sensor = member (codes "sensor-id") (text (codes "speed")) (
    member (codes "sensor-name") (text (codes "Speed")) (
      member (codes "sensor-type") (text (codes "Uint8")) (
        member (codes "sampling-rate") (double 5) (
          member (codes "sensor-settings")
            (item (setting (codes "can-id") (codes "291")) (
              item (setting (codes "init-bit") (codes "8"))
                (item (setting (codes "end-bit") (codes "15")) array)))
            object))))

-- Three settings of the same key.
abbrev pub same_settings : Document
same_settings = item (setting (codes "can-id") (codes "1")) (
    item (setting (codes "can-id") (codes "2")) (item (setting (codes "can-id") (codes "3")) array))

abbrev pub start_order : Document
start_order = member (codes "order") (text (codes "start")) object

abbrev pub http_setup : Document
http_setup = member (codes "endpoint-type") (text (codes "http")) (
    member (codes "endpoint-config")
      (member (codes "ip") (text (codes "h")) (member (codes "port") (double 80) object)) object)

abbrev pub connection : Document → Document
connection settings = member (codes "id") (text (codes "c")) (
    member (codes "monitor-agent-type") (text (codes "can"))
      (member (codes "connection-settings") settings object))

abbrev pub good_connection : Document
good_connection = connection (
    item (setting (codes "canport") (codes "can0")) (
      item
        (member (codes "key") (text (codes "bitrate"))
          (member (codes "value") (double 500000) object))
        array))

abbrev pub bad_connection : Document
bad_connection = connection (item object (item object array))

-- A group of a sensor that is there and of one that is given in full.
abbrev pub new_group : Document
new_group = member (codes "sensorgroup-id") (text (codes "all")) (
    member (codes "publish-rate") (double 1000) (
      member (codes "sensor-list")
        (item (member (codes "sensor-id") (text (codes "speed")) object) (
          item
            (member (codes "sensor-id") (text (codes "heat")) (
              member (codes "sensor-name") (text (codes "Heat")) (
                member (codes "sensor-type") (text (codes "Uint8")) (
                  member (codes "sampling-rate") (double 5) (
                    member (codes "sensor-settings")
                      (item (setting (codes "can-id") (codes "292")) (
                        item (setting (codes "init-bit") (codes "0"))
                          (item (setting (codes "end-bit") (codes "7")) array)))
                      object)))))
            array))
        object))
