-- ===== src/Service/Connection.antt =====
-- `update_connection_configuration` and `read_connection_configuration` of
-- src/CanMonitor/implementation/impl.c.
pub mod Laws
pub mod Untouched
use can_monitor.Service.State.{log_copy, State, Response, Reply, send, create_error_message}
use can_monitor.Libc.Decimal.{signed_decimal}
use can_monitor.Base.{
  ℕ, zero, suc, ◌+◌, Bytes, Option, none, some, Bool, true, false, not, ◌&&◌, ◌||◌, codes, str_eq,
  ◌==◌, ◌++◌, length, if◌then◌else◌, Outcome, done, ◌>>=◌,
}
use can_monitor.Service.Json.{Json, is_some, deref}

-- A loop that may end its function with an error.
pub data Loop {ℓ} (A : Type ℓ) : Type ℓ where
  next : A → Loop A
  stop : A → Loop A

module _ (json : Json) where
  open json use {
    Object, Array, Value, json_parse_string, json_value_get_object, json_object_get_value,
    json_object_get_string, json_object_get_number, json_object_get_array, json_array_get_count,
    json_array_get_value, json_value_init_object, json_value_init_array, json_object_set_string,
    json_object_set_number, json_object_set_value, json_array_append_value, to_int, of_int,
  }

  -- One round of the loop: `stop` where it ends the function with "not valid".
  unfoldable pub connection_setting : Option Value → State → Outcome (Loop State)
  connection_setting setting st =
      let object = json_value_get_object setting in
      if is_some (json_object_get_value object (codes "key"))
        && is_some (json_object_get_value object (codes "value"))
      then (deref (json_object_get_string object (codes "key")) >>= λ key.
          if str_eq key (codes "canport")
          then (deref (json_object_get_string object (codes "value")) >>= λ port.
              done (next (record st { canport = some port })))
          else if str_eq key (codes "bitrate")
          then done (
              next (record st { bitrate = to_int (json_object_get_number object (codes "value")) }))
          else done (stop st))
      else done (stop st)

  -- `left` rounds from the index `i`.
  unfoldable pub connection_settings : ℕ → ℕ → Option Array → State → Outcome (Loop State)
  unfolding connection_setting
  connection_settings zero i settings st = done (next st)
  connection_settings (suc left) i settings st =
      connection_setting (json_array_get_value settings i) st >>= λ r. elim r [
        | next st' ↦ connection_settings left (i + 1) settings st'
        | stop st' ↦ done (stop st')
      ]

  -- The command that would bring the interface down is written to `char command[80]` and
  -- printed. `%s` of NULL is undefined.
  unfoldable pub take_down : State → Outcome State
  take_down st =
      if st.can_up == 1
      then (deref st.canport >>= λ port.
          done (log_copy 80 (codes "ip link set " ++ (port ++ codes " down type can")) st))
      else done st

  abbrev pub up_command : Bytes → ℕ → Bytes
  up_command port rate =
      codes "sudo ip link set "
      ++ (port
          ++ (codes " up type can bitrate " ++ (signed_decimal 32 rate ++ codes " loopback off")))

  -- What follows the loop: the check of both parameters, and the command to bring it up.
  unfoldable pub connection_done : Bytes → Loop State → Reply
  unfolding create_error_message
  connection_done values (stop st) =
      create_error_message json (codes "The CAN configuration is not valid") st
  connection_done values (next st) = elim st.canport [
    | none ↦ create_error_message json (codes "The CAN configuration is not valid") st
    | some port ↦
        if st.bitrate == 0
        then create_error_message json (codes "The CAN configuration is not valid") st
        else record {
          response = Response.ok;
          text = values;
          state = record (log_copy 80 (up_command port st.bitrate) st) { can_up = 1 };
        }
  ]

  unfoldable pub configure_connection : Bytes → State → Outcome Reply
  unfolding create_error_message
  configure_connection values st =
      let jobj = json_value_get_object (json_parse_string values) in
      if is_some (json_object_get_value jobj (codes "id"))
        && (is_some (json_object_get_value jobj (codes "monitor-agent-type"))
            && is_some (json_object_get_value jobj (codes "connection-settings")))
      then (deref (json_object_get_string jobj (codes "id")) >>= λ id.
          let named = record st { can_conf_id = some id } in
          deref (json_object_get_string jobj (codes "monitor-agent-type")) >>= λ agent_type.
          let settings = json_object_get_array jobj (codes "connection-settings") in
          if not (str_eq agent_type (codes "can"))
          then done (
              create_error_message json (codes "The configuration is not a CAN configuration")
                named)
          else if not (json_array_get_count settings == 2)
          then done (create_error_message json (codes "The CAN configuration is not valid") named)
          else (connection_settings 2 0 settings (record named { canport = none; bitrate = 0 })
              >>= λ r. done (connection_done values r)))
      else done (create_error_message json (codes "The configuration is not valid") st)

  unfoldable pub update_connection_configuration : Bytes → State → Outcome Reply
  update_connection_configuration values st = do st' ← take_down st; configure_connection values st'

  abbrev setting_of : Bytes → Value
  setting_of key = json_object_set_string json_value_init_object (codes "key") key

  unfoldable pub read_connection_configuration : State → Outcome Reply
  unfolding create_error_message send
  read_connection_configuration st = elim st.can_conf_id [
    | none ↦ done (create_error_message json (codes "There is no valid CAN configuration") st)
    | some conf_id ↦ deref st.canport >>= λ port.
        let port_leaf =
          json_object_set_string (setting_of (codes "canport")) (codes "value") port in
        let rate_leaf =
          json_object_set_number (setting_of (codes "bitrate")) (codes "value")
            (of_int st.bitrate) in
        let leaves =
          json_array_append_value (json_array_append_value json_value_init_array port_leaf)
            rate_leaf in
        let named = json_object_set_string json_value_init_object (codes "id") conf_id in
        let typed = json_object_set_string named (codes "monitor-agent-type") (codes "can") in
        done (
          send json Response.ok (json_object_set_value typed (codes "connection-settings") leaves)
            st)
  ]
