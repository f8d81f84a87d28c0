-- ===== src/Rest/Callbacks.antt =====
-- The callbacks of src/CanMonitor/rest_server/rest_server_impl.c: which function of the service a
-- URL and a method call.
pub mod Reading
use can_monitor.Base.{List, [], ◌∷◌, Bytes, codes, str_eq, if◌then◌else◌, Outcome, done}
use can_monitor.Rest.Specific.{Callbacks}
use can_monitor.Service.Command.{cmd_execute_configuration, read_monitoring_agent_status}
use can_monitor.Service.Connection.{read_connection_configuration, update_connection_configuration}
use can_monitor.Service.GroupRemoval.{
  delete_sensorgroups_subscription, update_sensorgroups_subscription,
}
use can_monitor.Service.Groups.{create_sensorgroups_subscription}
use can_monitor.Service.Json.{Json}
use can_monitor.Service.Reads.{
  read_sensors_configuration, read_sensor_measurements, read_sensorgroups_subscription,
}
use can_monitor.Service.Removal.{delete_sensors_configuration, update_sensors_configuration}
use can_monitor.Service.Sensors.{QueryPair, create_sensors_configuration}
use can_monitor.Service.Setup.{update_microservice_configuration}
use can_monitor.Service.State.{State, Response, Reply}

-- The text is what the out parameter holds; on a read it is not set.
abbrev pub resource_not_found : Bytes → State → Outcome Reply
resource_not_found values st =
    done (record { response = Response.resource_not_found; text = values; state = st })

module _ (json : Json) where
  unfoldable pub get_handler : Bytes → List QueryPair → State → Outcome Reply
  get_handler url queries st =
      if str_eq url (codes "monitoring-agent/config/connection")
      then read_connection_configuration json st
      else if str_eq url (codes "monitoring-agent/config/sensors")
      then read_sensors_configuration json st
      else if str_eq url (codes "monitoring-agent/config/sensorgroups")
      then read_sensorgroups_subscription json st
      else if str_eq url (codes "monitoring-agent/monitoring-agent-status")
      then done (read_monitoring_agent_status json st)
      else if str_eq url (codes "monitoring-agent/sensors")
      then read_sensor_measurements json queries st
      else resource_not_found (codes "") st

  unfoldable pub put_handler : Bytes → Bytes → List QueryPair → State → Outcome Reply
  put_handler url values queries st =
      if str_eq url (codes "setup")
      then update_microservice_configuration json values st
      else if str_eq url (codes "monitoring-agent/config/connection")
      then update_connection_configuration json values st
      else if str_eq url (codes "monitoring-agent/config/sensors")
      then update_sensors_configuration json values queries st
      else if str_eq url (codes "monitoring-agent/config/sensorgroups")
      then update_sensorgroups_subscription json values queries st
      else if str_eq url (codes "monitoring-agent/cmd-execute")
      then cmd_execute_configuration json values st
      else resource_not_found values st

  unfoldable pub post_handler : Bytes → Bytes → List QueryPair → State → Outcome Reply
  post_handler url values queries st =
      if str_eq url (codes "monitoring-agent/config/sensors")
      then create_sensors_configuration json values st
      else if str_eq url (codes "monitoring-agent/config/sensorgroups")
      then create_sensorgroups_subscription json values st
      else resource_not_found values st

  unfoldable pub delete_handler : Bytes → List QueryPair → State → Outcome Reply
  delete_handler url queries st =
      if str_eq url (codes "monitoring-agent/config/sensors")
      then delete_sensors_configuration json (codes "") queries st
      else if str_eq url (codes "monitoring-agent/config/sensorgroups")
      then done (delete_sensorgroups_subscription json (codes "") queries st)
      else resource_not_found (codes "") st

  abbrev pub callbacks : Callbacks
  callbacks = record {
    gethandler = get_handler;
    puthandler = put_handler;
    posthandler = post_handler;
    deletehandler = delete_handler;
  }
