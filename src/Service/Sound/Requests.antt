-- ===== src/Service/Sound/Requests.antt =====
-- Every request keeps the invariant.
use can_monitor.Base.{Safe-weaken, List, Bytes, codes, str_eq, Safe, Safe-done, Safe-if, ◌≡◌, ap}
use can_monitor.Rest.Callbacks.{get_handler, put_handler, post_handler, delete_handler}
use can_monitor.Rest.Callbacks.Reading.{get_handler-OnlyLedger}
use can_monitor.Service.Command.Transitions.{cmd_execute_configuration-Executed}
use can_monitor.Service.Command.{cmd_execute_configuration}
use can_monitor.Service.Connection.{update_connection_configuration}
use can_monitor.Service.Connection.Untouched.{update_connection_configuration-Untouched}
use can_monitor.Service.Json.{Json}
use can_monitor.Service.Sensors.{QueryPair}
use can_monitor.Service.Setup.Status.{update_microservice_configuration-Undisturbed}
use can_monitor.Service.Setup.{update_microservice_configuration}
use can_monitor.Service.Sound.GroupRemoval.{
  delete_sensorgroups_subscription-IsSound, update_sensorgroups_subscription-IsSound,
}
use can_monitor.Service.Sound.Groups.{create_sensorgroups_subscription-IsSound}
use can_monitor.Service.Sound.Sensors.{
  IsSoundReply, create_sensors_configuration-IsSound, delete_sensors_configuration-IsSound,
  update_sensors_configuration-IsSound,
}
use can_monitor.Service.Sound.{IsSound, SameTables, SameTables-IsSound}
use can_monitor.Service.State.{State}

tables :
    {st st' : State}
    → st'.sensors_table ≡ st.sensors_table
    → st'.sensorgroup_table ≡ st.sensorgroup_table
    → SameTables st st'
tables e e' = record { same_sensors = e; same_groups = e' }

module _ (json : Json) where
  update_connection_configuration-IsSound :
      {st : State}
      → IsSound st
      → (values : Bytes) → Safe IsSoundReply (update_connection_configuration json values st)
  update_connection_configuration-IsSound {st} s values =
      Safe-weaken _ (update_connection_configuration-Untouched json values st)
        λ r same. SameTables-IsSound s (tables same.sensors_table same.sensorgroup_table)

  cmd_execute_configuration-IsSound :
      {st : State}
      → IsSound st
      → (values : Bytes) → Safe IsSoundReply (cmd_execute_configuration json values st)
  cmd_execute_configuration-IsSound {st} s values = record {
    holds = λ r e.
        let same = (cmd_execute_configuration-Executed json values st r e).1 in
        SameTables-IsSound s (
          tables (ap (λ (v : State). v.sensors_table) same)
            (ap (λ (v : State). v.sensorgroup_table) same));
  }

  update_microservice_configuration-IsSound :
      {st : State}
      → IsSound st
      → (values : Bytes) → Safe IsSoundReply (update_microservice_configuration json values st)
  update_microservice_configuration-IsSound {st} s values = record {
    holds = λ r e.
        let same = update_microservice_configuration-Undisturbed json values st r e in
        SameTables-IsSound s (tables same.sensors_table same.sensorgroup_table);
  }

  pub get_handler-IsSound :
      {st : State}
      → IsSound st
      → (url : Bytes) (queries : List QueryPair)
      → Safe IsSoundReply (get_handler json url queries st)
  get_handler-IsSound {st} s url queries = record {
    holds = λ r e.
        let same = get_handler-OnlyLedger json st r url queries e in
        SameTables-IsSound s (
          tables (ap (λ (v : State). v.sensors_table) same)
            (ap (λ (v : State). v.sensorgroup_table) same));
  }

  pub put_handler-IsSound :
      {st : State}
      → IsSound st
      → (url values : Bytes) (queries : List QueryPair)
      → Safe IsSoundReply (put_handler json url values queries st)
  unfolding put_handler
  put_handler-IsSound s url values queries =
      Safe-if (str_eq url (codes "setup")) (λ _. update_microservice_configuration-IsSound s values)
        λ _.
          Safe-if (str_eq url (codes "monitoring-agent/config/connection"))
            (λ _. update_connection_configuration-IsSound s values)
            λ _.
              Safe-if (str_eq url (codes "monitoring-agent/config/sensors"))
                (λ _. update_sensors_configuration-IsSound json s values queries)
                λ _.
                  Safe-if (str_eq url (codes "monitoring-agent/config/sensorgroups"))
                    (λ _. update_sensorgroups_subscription-IsSound json s values queries)
                    λ _.
                      Safe-if (str_eq url (codes "monitoring-agent/cmd-execute"))
                        (λ _. cmd_execute_configuration-IsSound s values) λ _. Safe-done s

  pub post_handler-IsSound :
      {st : State}
      → IsSound st
      → (url values : Bytes) (queries : List QueryPair)
      → Safe IsSoundReply (post_handler json url values queries st)
  unfolding post_handler
  post_handler-IsSound s url values queries =
      Safe-if (str_eq url (codes "monitoring-agent/config/sensors"))
        (λ _. create_sensors_configuration-IsSound json s values)
        λ _.
          Safe-if (str_eq url (codes "monitoring-agent/config/sensorgroups"))
            (λ _. create_sensorgroups_subscription-IsSound json s values) λ _. Safe-done s

  pub delete_handler-IsSound :
      {st : State}
      → IsSound st
      → (url : Bytes) (queries : List QueryPair)
      → Safe IsSoundReply (delete_handler json url queries st)
  unfolding delete_handler
  delete_handler-IsSound s url queries =
      Safe-if (str_eq url (codes "monitoring-agent/config/sensors"))
        (λ _. delete_sensors_configuration-IsSound json s (codes "") queries)
        λ _.
          Safe-if (str_eq url (codes "monitoring-agent/config/sensorgroups"))
            (λ _. Safe-done (delete_sensorgroups_subscription-IsSound json s (codes "") queries))
            λ _. Safe-done s
