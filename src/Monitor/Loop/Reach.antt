-- ===== src/Monitor/Loop/Reach.antt =====
-- The life of the program behind its start, as steps: a call of the HTTP library, a signal, a lost
-- connection, a round of the loop of src/CanMonitor/CanMonitor.c.
use can_monitor.Base.{ℕ, List, Bytes, Option, done, ◌≡◌}
use can_monitor.Monitor.Loop.{World, Main, on, round}
use can_monitor.Monitor.Mqtt.{Message, connlost}
use can_monitor.Rest.Metrics.{Usage}
use can_monitor.Rest.Served.{program_handlers}
use can_monitor.Rest.Server.{Handler, HttpReply}
use can_monitor.Rest.Upload.{Context, http_handler}
use can_monitor.Service.Command.{int_handler}
use can_monitor.Service.Json.{Json}
use can_monitor.Service.State.{State}

module _ (json : Json) (print_double : ℕ → Bytes) (handlers : List (Handler State)) where
  -- A call of `http_handler` may have any context, so that the calls for the requests of several
  -- connections interleave.
  pub data Step : Main → Main → Type 0 where
    called :
        {m : Main} (address : Option Bytes) (usage : Usage json) (url methodname : Bytes)
        (pairs : List (Bytes × Option Bytes)) (context : Option Context) (piece : Bytes)
        (reply : Option HttpReply) (context' : Option Context) (st : State)
        → http_handler
            (program_handlers json address usage)
            url
            methodname
            pairs
            context
            piece
            m.state
          ≡ done (reply, context', st)
        → Step m (record m { state = st })
    interrupted : {m : Main} → Step m (record m { state = int_handler m.state })
    disconnected : {m : Main} → Step m (record m { state = connlost m.state })
    went_round :
        {m m' : Main} (w : World) (messages : List Message)
        → round json print_double handlers w m ≡ done (on m' messages)
        → Step m m'

  -- Any number of steps.
  pub data Reach : Main → Main → Type 0 where
    here : {m : Main} → Reach m m
    then_step : {m m' m'' : Main} → Reach m m' → Step m' m'' → Reach m m''
