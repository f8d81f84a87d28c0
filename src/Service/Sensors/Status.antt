-- ===== src/Service/Sensors/Status.antt =====
-- The status after a request that changes the sensors or the groups, src/CanMonitor/implementation.
use can_monitor.Base.{◌≡◌, ◌≢◌, true, false, inl, inr, refl, Bool-cases, arith}
use can_monitor.Service.Command.{is_running}
use can_monitor.Service.Sensors.{configured_unless_running}
use can_monitor.Service.State.{State, MsStatus}

-- The status stays where it is running, and is otherwise configured.
abbrev pub ConfiguredUnlessRunning : MsStatus → MsStatus → Type 0
ConfiguredUnlessRunning s t =
    (s ≡ MsStatus.running → t ≡ MsStatus.running) × (s ≢ MsStatus.running → t ≡ MsStatus.configured)

running_of : (s : MsStatus) → is_running s ≡ true → s ≡ MsStatus.running
running_of s h = ground arith

not_running : (s : MsStatus) → is_running s ≡ false → s ≢ MsStatus.running
not_running s h e = cc

-- The whole state, and which status it has.
pub configured_unless_running-Status :
    (st : State)
    → (status : MsStatus) × (configured_unless_running st ≡ record st { status = status })
      × ConfiguredUnlessRunning st.status status
configured_unless_running-Status st = elim (Bool-cases (is_running st.status)) [
  | inl on ↦
      let e : st.status ≡ MsStatus.running = running_of st.status on in
      (st.status, rw on refl, ((λ h. h), λ h. absurd (h e)))
  | inr off ↦
      let ne : st.status ≢ MsStatus.running = not_running st.status off in
      (MsStatus.configured, rw off refl, ((λ h. absurd (ne h)), λ h. refl))
]
