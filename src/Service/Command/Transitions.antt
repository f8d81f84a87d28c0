-- ===== src/Service/Command/Transitions.antt =====
-- The status as a state machine: which steps the orders and the signal make.
use mathlib.Core.Path.{subst}
use can_monitor.Base.{
  done-injective, ◌↔◌, Bytes, some, true, codes, str_eq, str_eq_iff, done, ◌≡◌, ◌⊎◌, inl, inr, refl,
  arith, Bool-cases, >>=-eq-done,
}
use can_monitor.Service.Command.{
  is_configured, is_running, execute_order, cmd_execute_configuration,
}
use can_monitor.Service.Json.{Json, is_some, deref}
use can_monitor.Service.State.{State, MsStatus, Response, Reply, create_error_message}

-- The steps of the status that an order may make.
pub data Order : MsStatus → MsStatus → Type 0 where
  start : {s t : MsStatus} → s ≡ MsStatus.configured → t ≡ MsStatus.running → Order s t
  halt : {s t : MsStatus} → s ≡ MsStatus.running → t ≡ MsStatus.configured → Order s t

-- All fields but the status and the ledger are as they were.
abbrev pub SameData : State → State → Type 0
SameData st st' = st' ≡ record st { status = st'.status; overruns = st'.overruns }

pub configured_of : (s : MsStatus) → is_configured s ≡ true → s ≡ MsStatus.configured
configured_of s h = ground arith

pub running_of : (s : MsStatus) → is_running s ≡ true → s ≡ MsStatus.running
running_of s h = ground arith

module _ (json : Json) where
  -- What `cmd_execute_configuration` returned: OK and a step, or ERROR and no change of status.
  abbrev pub Executed : State → Reply → Type 0
  Executed st r =
      (((r.response ≡ Response.ok) × Order st.status r.state.status)
        ⊎ ((r.response ≡ Response.error) × (r.state.status ≡ st.status)))
      × SameData st r.state

  error-Executed : (m : Bytes) (st : State) → Executed st (create_error_message json m st)
  unfolding create_error_message
  error-Executed m st = (inr (refl, refl), refl)

  execute_order-Executed : (cmd : Bytes) (st : State) → Executed st (execute_order json cmd st)
  unfolding execute_order
  execute_order-Executed cmd st = elim (Bool-cases (str_eq cmd (codes "start"))) [
    | inl to_start ↦ rw to_start (elim (Bool-cases (is_configured st.status)) [
      | inl yes_configured ↦
          rw yes_configured (inl (refl, start (configured_of st.status yes_configured) refl), refl)
      | inr not_configured ↦
          rw not_configured (error-Executed (codes "Status was not configured.") st)
    ])
    | inr not_start ↦ rw not_start (elim (Bool-cases (str_eq cmd (codes "stop"))) [
      | inl to_stop ↦ rw to_stop (elim (Bool-cases (is_running st.status)) [
        | inl is_on ↦ rw is_on (inl (refl, halt (running_of st.status is_on) refl), refl)
        | inr is_off ↦ rw is_off (error-Executed (codes "Status was not running.") st)
      ])
      | inr unknown ↦ rw unknown (error-Executed (codes "Unknown order.") st)
    ])
  ]

  -- A command that returns either says OK and takes the status from configured to running or back,
  -- or says ERROR and leaves the status; all other data but the ledger of overruns is as it was.
  pub cmd_execute_configuration-Executed :
      (values : Bytes) (st : State) (r : Reply)
      → cmd_execute_configuration json values st ≡ done r
      → Executed st r
  unfolding cmd_execute_configuration
  cmd_execute_configuration-Executed values st r h =
      let jobj = json.json_value_get_object (json.json_parse_string values) in
      elim (Bool-cases (is_some (json.json_object_get_value jobj (codes "order")))) [
        | inr no_order ↦
            subst (Executed st) (done-injective (rw (no_order, cmd_execute_configuration) at h))
              (error-Executed (codes "There is no order key in the payload json.") st)
        | inl order ↦
            let (cmd, e, e') =
              >>=-eq-done (deref (json.json_object_get_string jobj (codes "order")))
                (λ cmd. done (execute_order json cmd st))
                (rw (order, cmd_execute_configuration) at h) in
            subst (Executed st) (done-injective e') (execute_order-Executed cmd st)
      ]

  execute_order_iff :
      (cmd : Bytes) (st : State)
      → ((execute_order json cmd st).response ≡ Response.ok) ↔ (
          ((cmd ≡ codes "start") × (st.status ≡ MsStatus.configured))
          ⊎ ((cmd ≡ codes "stop") × (st.status ≡ MsStatus.running)))
  unfolding execute_order
  execute_order_iff cmd st = ground (
    arith,
    str_eq_iff cmd (codes "start"),
    str_eq_iff cmd (codes "stop"),
    configured_of st.status,
    running_of st.status,
  )

  -- A request with a text as its order returns, and is answered OK exactly when the order is
  -- "start" in the status configured or "stop" in the status running.
  pub cmd_execute_configuration_iff :
      (values cmd : Bytes) (st : State)
      → (let jobj = json.json_value_get_object (json.json_parse_string values) in
          (is_some (json.json_object_get_value jobj (codes "order")) ≡ true)
          × (json.json_object_get_string jobj (codes "order") ≡ some cmd))
      → (r : Reply) × (cmd_execute_configuration json values st ≡ done r)
        × ((r.response ≡ Response.ok) ↔ (
            ((cmd ≡ codes "start") × (st.status ≡ MsStatus.configured))
            ⊎ ((cmd ≡ codes "stop") × (st.status ≡ MsStatus.running))))
  unfolding cmd_execute_configuration
  cmd_execute_configuration_iff values cmd st h =
      (execute_order json cmd st, rw (h.0, h.1), execute_order_iff cmd st)
