-- ===== src/Monitor/Loop/Edges.antt =====
-- The status over the life of the program.
use can_monitor.Base.{ℕ, List, Bytes, ◌≡◌}
use can_monitor.Monitor.Loop.Reach.{Step, called, interrupted, disconnected, went_round, Reach}
use can_monitor.Monitor.Loop.Start
use can_monitor.Monitor.Arguments.{Arguments}
use can_monitor.Monitor.Loop.{Main, Went, on, returned}
use can_monitor.Rest.Served.{CalledBy}
use can_monitor.Rest.Server.{Handler}
use can_monitor.Service.Json.{Json}
use can_monitor.Service.Moves.{SameStatus}
use can_monitor.Service.State.{State, MsStatus}

-- The program goes on with the same status, or has returned.
abbrev SameStatusWent : State → Went → Type 0
SameStatusWent st (on m messages) = SameStatus st m.state
SameStatusWent st (returned code) = Unit

module _ (json : Json) (print_double : ℕ → Bytes) (handlers : List (Handler State)) where
  -- What each kind of step may do to the status.
  abbrev pub Allowed : {m m' : Main} → Step json print_double handlers m m' → Type 0
  Allowed {m} (called address usage url methodname pairs context piece reply context' st e) =
      CalledBy json url methodname context m.state.status st.status
  Allowed {m} {m'} interrupted = m'.state.status ≡ MsStatus.exit_ms
  Allowed {m} {m'} disconnected = m'.state.status ≡ m.state.status
  Allowed {m} {m'} (went_round w messages e) = m'.state.status ≡ m.state.status

  abbrev Begins : Went → Type 0
  Begins (on m messages) = m.state.status ≡ MsStatus.unconfigured
  Begins (returned code) = Unit
