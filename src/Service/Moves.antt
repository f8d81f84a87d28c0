-- ===== src/Service/Moves.antt =====
-- The status of the monitor as a state machine: the steps that the requests take.
pub mod Sensors
pub mod Groups
pub mod Causes
pub mod Requests
use can_monitor.Base.{
  false, Bytes, Option, ◌≡◌, ◌≢◌, ◌⊎◌, inl, inr, refl, Bool-cases, Safe, Safe-done, done,
}
use can_monitor.Service.Command.{is_running}
use can_monitor.Service.Json.{Json}
use can_monitor.Service.Sensors.{configured_unless_running}
use can_monitor.Service.State.{State, MsStatus, Reply, create_error_message}

-- An edge of a request that is no order: the status is kept, or a monitor that does not run is
-- configured.
pub data Move : MsStatus → MsStatus → Type 0 where
  kept : {s t : MsStatus} → t ≡ s → Move s t
  configures : {s t : MsStatus} → s ≢ MsStatus.running → t ≡ MsStatus.configured → Move s t

abbrev pub MoveReply : State → Reply → Type 0
MoveReply st r = Move st.status r.state.status

not_running : (s : MsStatus) → is_running s ≡ false → s ≢ MsStatus.running
not_running s h e = cc

pub configured-Move :
    (s : MsStatus) (st : State) → st.status ≡ s → Move s (configured_unless_running st).status
configured-Move s st e = elim (Bool-cases (is_running st.status)) [
  | inl on ↦ rw on (kept e)
  | inr off ↦ rw off (configures (not_running s (rw e at off)) refl)
]

-- The status of the reply is that of the state.
abbrev pub SameStatus : State → State → Type 0
SameStatus st st' = st'.status ≡ st.status

module _ (json : Json) (st st' : State) (e : SameStatus st st') where
  pub error-SameStatus : (m : Bytes) → SameStatus st (create_error_message json m st').state
  unfolding create_error_message
  error-SameStatus m = e

  -- A request that is refused.
  pub refused-Move : (m : Bytes) → Safe (MoveReply st) (done (create_error_message json m st'))
  refused-Move m = Safe-done (kept (error-SameStatus m))
