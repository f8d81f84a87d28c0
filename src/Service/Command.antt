-- ===== src/Service/Command.antt =====
-- `cmd_execute_configuration` and `read_monitoring_agent_status` of
-- src/CanMonitor/implementation/impl.c, and the signal handler of src/CanMonitor/CanMonitor.c.
pub mod Transitions
use can_monitor.Base.{
  Bytes, Option, none, some, Bool, true, false, codes, str_eq, if◌then◌else◌, Outcome, done, ◌>>=◌,
}
use can_monitor.Service.Json.{Json, is_some, deref}
use can_monitor.Service.State.{
  State, MsStatus, Response, Reply, send, create_error_message, succeed,
}

-- `status == s`
abbrev pub is_configured : MsStatus → Bool
is_configured MsStatus.configured = true
is_configured _ = false

abbrev pub is_running : MsStatus → Bool
is_running MsStatus.running = true
is_running _ = false

abbrev pub set_status : MsStatus → State → State
set_status s st = record st { status = s }

unfoldable pub int_handler : State → State
int_handler st = set_status MsStatus.exit_ms st

module _ (json : Json) where
  open json use {
    json_parse_string, json_value_get_object, json_object_get_value, json_object_get_string,
    json_value_init_object, json_object_set_string,
  }

  unfoldable pub execute_order : Bytes → State → Reply
  unfolding create_error_message
  execute_order cmd st =
      if str_eq cmd (codes "start")
      then if is_configured st.status
        then succeed (set_status MsStatus.running st)
        else create_error_message json (codes "Status was not configured.") st
      else if str_eq cmd (codes "stop")
      then if is_running st.status
        then succeed (set_status MsStatus.configured st)
        else create_error_message json (codes "Status was not running.") st
      else create_error_message json (codes "Unknown order.") st

  unfoldable pub cmd_execute_configuration : Bytes → State → Outcome Reply
  unfolding execute_order
  cmd_execute_configuration values st =
      let jobj = json_value_get_object (json_parse_string values) in
      if is_some (json_object_get_value jobj (codes "order"))
      then (deref (json_object_get_string jobj (codes "order")) >>= λ cmd.
          done (execute_order cmd st))
      else done (create_error_message json (codes "There is no order key in the payload json.") st)

  abbrev field : Bytes → Bytes → Json.Value json
  field key text = json_object_set_string json_value_init_object key text

  -- The `switch`, on the status.
  unfoldable pub report_status : State → MsStatus → Reply
  unfolding send
  report_status st MsStatus.running =
      send json Response.ok (field (codes "status") (codes "executing")) st
  report_status st MsStatus.configured =
      send json Response.ok (field (codes "status") (codes "configured")) st
  report_status st MsStatus.unconfigured =
      send json Response.ok (field (codes "status") (codes "unconfigured")) st
  report_status st MsStatus.error =
      send json Response.ok (field (codes "status") (codes "error")) st
  report_status st MsStatus.exit_ms =
      send json Response.error (field (codes "message") (codes "Exiting microservice")) st

  unfoldable pub read_monitoring_agent_status : State → Reply
  unfolding report_status
  read_monitoring_agent_status st = report_status st st.status
