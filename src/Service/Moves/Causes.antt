-- ===== src/Service/Moves/Causes.antt =====
-- Which request takes which step of the status: the URL behind the service's prefix, the method
-- and the data of the request with the orders of src/CanMonitor/implementation/impl.c.
use can_monitor.Base.{
  ℕ, Bytes, Option, none, some, codes, str_eq, str_eq_iff, Bool-cases, done, done-injective,
  >>=-eq-done, ◌≡◌, ◌≢◌, ◌⊎◌, inl, inr, refl,
}
use can_monitor.Rest.Server.{method_post, method_put}
use can_monitor.Service.Command.Transitions.{running_of, configured_of}
use can_monitor.Service.Command.{
  is_configured, is_running, execute_order, cmd_execute_configuration,
}
use can_monitor.Service.Json.{Json, is_some, deref}
use can_monitor.Service.Moves.{Move, kept, configures, error-SameStatus}
use can_monitor.Service.State.{State, MsStatus, Reply}
use mathlib.Core.Path.{subst}

abbrev pub sensors_path : Bytes
sensors_path = codes "monitoring-agent/config/sensors"

abbrev pub sensorgroups_path : Bytes
sensorgroups_path = codes "monitoring-agent/config/sensorgroups"

abbrev pub command_path : Bytes
command_path = codes "monitoring-agent/cmd-execute"

-- The step of an order.
abbrev pub OrderStep : Bytes → MsStatus → MsStatus → Type 0
OrderStep cmd s t =
    ((cmd ≡ codes "start") × (s ≡ MsStatus.configured) × (t ≡ MsStatus.running))
    ⊎ ((cmd ≡ codes "stop") × (s ≡ MsStatus.running) × (t ≡ MsStatus.configured))

module _ (json : Json) where
  -- The text of the order in a payload.
  abbrev pub order_of : Bytes → Option Bytes
  order_of values =
      json.json_object_get_string (json.json_value_get_object (json.json_parse_string values))
        (codes "order")

  -- The status is kept; or a POST or PUT of sensors or groups configures a monitor that does not
  -- run; or a PUT of a command carries the order for the step.
  pub data Cause (path : Bytes) (method : ℕ) (upload : Option Bytes) (s t : MsStatus) : Type 0 where
    stays : t ≡ s → Cause path method upload s t
    configured_by :
        (method ≡ method_post) ⊎ (method ≡ method_put)
        → (path ≡ sensors_path) ⊎ (path ≡ sensorgroups_path)
        → s ≢ MsStatus.running
        → t ≡ MsStatus.configured
        → Cause path method upload s t
    ordered_by :
        (values cmd : Bytes)
        → method ≡ method_put
        → path ≡ command_path
        → upload ≡ some values
        → order_of values ≡ some cmd
        → OrderStep cmd s t
        → Cause path method upload s t

  pub Move-Cause :
      (path : Bytes) (method : ℕ) (upload : Option Bytes) (s t : MsStatus)
      → (method ≡ method_post) ⊎ (method ≡ method_put)
      → (path ≡ sensors_path) ⊎ (path ≡ sensorgroups_path)
      → Move s t
      → Cause path method upload s t
  Move-Cause path method upload s t m p (kept e) = stays e
  Move-Cause path method upload s t m p (configures idle set) = configured_by m p idle set

  abbrev Stepped : Bytes → State → Reply → Type 0
  Stepped cmd st r = (r.state.status ≡ st.status) ⊎ OrderStep cmd st.status r.state.status

  execute_order-Stepped : (cmd : Bytes) (st : State) → Stepped cmd st (execute_order json cmd st)
  unfolding execute_order
  execute_order-Stepped cmd st = elim (Bool-cases (str_eq cmd (codes "start"))) [
    | inl to_start ↦ rw to_start (elim (Bool-cases (is_configured st.status)) [
      | inl is_so ↦ rw is_so (
          inr (
            inl ((str_eq_iff cmd (codes "start")).0 to_start, configured_of st.status is_so, refl)))
      | inr is_not ↦
          rw is_not (inl (error-SameStatus json st st refl (codes "Status was not configured.")))
    ])
    | inr not_start ↦ rw not_start (elim (Bool-cases (str_eq cmd (codes "stop"))) [
      | inl to_stop ↦ rw to_stop (elim (Bool-cases (is_running st.status)) [
        | inl is_so ↦ rw is_so (
            inr (inr ((str_eq_iff cmd (codes "stop")).0 to_stop, running_of st.status is_so, refl)))
        | inr is_not ↦
            rw is_not (inl (error-SameStatus json st st refl (codes "Status was not running.")))
      ])
      | inr unknown ↦ rw unknown (inl (error-SameStatus json st st refl (codes "Unknown order.")))
    ])
  ]

  order_text : (o : Option Bytes) (cmd : Bytes) → deref o ≡ done cmd → o ≡ some cmd
  order_text none cmd e = cc
  order_text (some text) cmd e = cc

  pub cmd_execute_configuration-Cause :
      (values : Bytes) (st : State) (r : Reply)
      → cmd_execute_configuration json values st ≡ done r
      → Cause command_path method_put (some values) st.status r.state.status
  unfolding cmd_execute_configuration
  cmd_execute_configuration-Cause values st r h =
      let jobj = json.json_value_get_object (json.json_parse_string values) in
      elim (Bool-cases (is_some (json.json_object_get_value jobj (codes "order")))) [
        | inr no_order ↦
            let e = done-injective (rw (no_order, cmd_execute_configuration) at h) in
            stays (
              subst (λ (v : Reply). v.state.status ≡ st.status) e
                (error-SameStatus json st st refl
                  (codes "There is no order key in the payload json.")))
        | inl order ↦
            let (cmd, e, e') =
              >>=-eq-done (deref (json.json_object_get_string jobj (codes "order")))
                (λ cmd. done (execute_order json cmd st))
                (rw (order, cmd_execute_configuration) at h) in
            let stepped : Stepped cmd st r =
              subst (Stepped cmd st) (done-injective e') (execute_order-Stepped cmd st) in
            elim stepped [
              | inl same ↦ stays same
              | inr step ↦
                  ordered_by values cmd refl refl refl (order_text (order_of values) cmd e) step
            ]
      ]
