-- ===== src/Monitor/Loop.antt =====
-- The loop of `main`, src/CanMonitor/CanMonitor.c, and `can_read` of
-- src/CanMonitor/implementation/impl.c.
pub mod Restart
pub mod Start
pub mod Reach
pub mod Sound
pub mod Lifetime
pub mod Edges
pub mod Round
pub mod Parts
pub mod Ledger
pub mod Total
use can_monitor.Base.{
  ℕ, zero, suc, ◌+◌, ◌%◌, ◌/◌, ◌^◌, List, [], ◌∷◌, ◌++◌, Bytes, Option, none, some, Bool, true,
  false, ◌||◌, codes, ◌==◌, if◌then◌else◌, Outcome, done, fault, ◌>>=◌,
}
use can_monitor.Frame.Mask.{CanFrame}
use can_monitor.Frame.Parse.{parse_can_frame}
use can_monitor.Monitor.Mqtt.{Message, publish, initialize_mqtt}
use can_monitor.Monitor.Payload.{create_discovery_payload, discovery_topic}
use can_monitor.Monitor.Publish.{publish_groups}
use can_monitor.Rest.Daemon.{
  AdeptnessError, Daemon, Service, adeptness_service_new, adeptness_service_start,
  adeptness_service_stop,
}
use can_monitor.Rest.Server.{Handler}
use can_monitor.Service.Command.{is_configured, is_running}
use can_monitor.Service.Json.{Json}
use can_monitor.Service.State.{State, MsStatus}
use can_monitor.Tables.Sensorgroups.{Timeval, htsg_free}
use can_monitor.Tables.Sensors.{hts_free}

-- What `can_read` returns; `none` is a read of no bytes.
abbrev pub can_eff_flag : ℕ
can_eff_flag = 2 ^ 31

unfoldable pub can_read : Option CanFrame → ℕ
can_read none = 0
can_read (some frame) = if frame.can_id / can_eff_flag % 2 == 1 then 2 else 1

-- What the world says in one round: whether the client connects, the host's address, whether the
-- HTTP server starts, the frame that is there, the second (`tv_sec`) of the frame, and the clock of
-- the pass.
pub record World : Type 0 where
  pub connected : Bool
  pub address : Option Bytes
  pub started : Bool
  pub received : Option CanFrame
  pub time : ℕ
  pub clock : Bytes → Timeval

-- The variables of `main`: the global ones, and the service that it made first.
pub record Main : Type 0 where
  pub state : State
  pub service : Service State
  pub svcname : Bytes

-- A step goes on, or the program returns a code.
pub data Went : Type 0 where
  on : Main → List Message → Went
  returned : ℕ → Went

module _ (json : Json) (print_double : ℕ → Bytes) (handlers : List (Handler State)) where
  -- MQTT is connected anew, and the monitor announces itself.
  unfoldable pub announce : Bool → Option Bytes → State → Outcome (State × List Message)
  unfolding initialize_mqtt create_discovery_payload
  announce connected address st = initialize_mqtt connected st >>= λ st₁.
      create_discovery_payload json address st₁ >>= λ p.
      done (p.1, publish p.1 discovery_topic p.0 ∷ [])

  unfoldable pub round_mqtt : World → State → Outcome (State × List Message)
  unfolding announce
  round_mqtt w st =
      if st.restart_mqtt == 0 then done (st, []) else announce w.connected w.address st

  -- The service that `main` made is stopped; another is made and started, and only a variable of
  -- the block refers to it.
  unfoldable pub round_http : World → Main → Outcome Went
  unfolding adeptness_service_new adeptness_service_start adeptness_service_stop
  round_http w m =
      if m.state.restart_http == 0
      then done (on m [])
      else (adeptness_service_stop m.service >>= λ stopped.
          let stopped_main = record m { service = stopped.1 } in
          let (err, made) =
            adeptness_service_new {S = State} (some m.svcname) (some (codes "1.0")) true
              m.state.rest_server_port in
          elim made [
            | none ↦ done (returned err.code)
            | some service ↦
                let (err', _) = adeptness_service_start w.started handlers service err in
                if err'.code == 0
                then done
                    (on (record stopped_main { state = record m.state { restart_http = 0 } }) [])
                else done (returned err'.code)
          ])

  -- CAN_EFF_MASK and CAN_SFF_MASK.
  abbrev masked : ℕ → CanFrame → CanFrame
  masked flag frame = record frame {
    can_id = frame.can_id % (if flag == 2 then 2 ^ 29 else 2 ^ 11);
  }

  unfoldable pub round_frame : World → State → Outcome State
  unfolding can_read parse_can_frame
  round_frame w st =
      if is_configured st.status || is_running st.status
      then elim w.received [
        | none ↦ done st
        | some frame ↦
            parse_can_frame print_double (masked (can_read (some frame)) frame) (w.time % 2 ^ 32)
              st.sensors_table
            >>= λ r. done (record st { sensors_table = r.0; overruns = r.1 ++ st.overruns })
      ]
      else done st

  unfoldable pub round_publish : World → State → Outcome (List Message × State)
  unfolding publish_groups
  round_publish w st =
      if is_running st.status then publish_groups json w.clock st else done ([], st)

  -- One round of the loop, behind its test.
  unfoldable pub round : World → Main → Outcome Went
  unfolding round_mqtt round_http round_frame round_publish
  round w m = round_mqtt w m.state >>= λ announced.
      round_http w (record m { state = announced.0 }) >>= λ went. elim went [
        | returned code ↦ done (returned code)
        | on m' _ ↦ round_frame w m'.state >>= λ st.
            round_publish w st >>= λ p. done (on (record m' { state = p.1 }) (announced.1 ++ p.0))
      ]

  -- What follows the loop; the result of `main` is 0, since stopping sets no error.
  unfoldable pub shutdown : Main → Outcome ℕ
  unfolding hts_free htsg_free adeptness_service_stop
  shutdown m = hts_free m.state.sensors_table >>= λ _. htsg_free m.state.sensorgroup_table >>= λ _.
      adeptness_service_stop m.service >>= λ stopped. done stopped.0.code
