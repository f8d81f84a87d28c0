-- ===== src/Monitor/Loop/Sound.antt =====
-- The invariant of the service holds from the start of the program on.
use can_monitor.Base.{◌%◌, ◌^◌}
use can_monitor.Base.{
  ◌++◌, ℕ, List, Bytes, Option, none, some, Bool, true, codes, ◌==◌, ◌||◌, Bool-cases, Option-cases,
  done, ◌>>=◌, Safe, Safe-done, Safe-bind, Safe-any, Safe-if, inl, inr, refl,
}
use can_monitor.Frame.InPlace.{parse_can_frame-Reparsed}
use can_monitor.Frame.Mask.{CanFrame}
use can_monitor.Frame.Parse.{parse_can_frame}
use can_monitor.Monitor.Loop.Reach.{
  Step, called, interrupted, disconnected, went_round, Reach, here, then_step,
}
use can_monitor.Monitor.Loop.{
  World, Main, Went, on, returned, can_read, masked, announce, round_mqtt, round_http, round_frame,
  round_publish, round,
}
use can_monitor.Monitor.Mqtt.{Message, initialize_mqtt, connlost}
use can_monitor.Monitor.Payload.{create_discovery_payload}
use can_monitor.Monitor.Publish.InPlace.{SameGroup, publish_cells-Rewritten}
use can_monitor.Monitor.Publish.{publish_cells, publish_table, publish_groups}
use can_monitor.Rest.Daemon.{adeptness_service_new, adeptness_service_start, adeptness_service_stop}
use can_monitor.Rest.Served.{http_handler-IsSound}
use can_monitor.Rest.Server.{Handler}
use can_monitor.Service.Command.{is_configured, is_running, int_handler}
use can_monitor.Service.Json.{Json, deref}
use can_monitor.Service.Removal.Deletion.{IsRoomy}
use can_monitor.Service.Sound.{IsSound}
use can_monitor.Service.State.{State}
use can_monitor.Tables.Rewriting.{rewritten_map, rewriting-Represents, rewriting-related}
use can_monitor.Tables.Sensorgroups.{Sensorgroup}

-- The program goes on with sound tables, or has returned.
abbrev pub IsSoundWent : Went → Type 0
IsSoundWent (on m messages) = IsSound m.state
IsSoundWent (returned code) = Unit

module _ (json : Json) (print_double : ℕ → Bytes) (handlers : List (Handler State)) where
  initialize_mqtt-IsSound :
      {st : State} → IsSound st → (connected : Bool) → Safe IsSound (initialize_mqtt connected st)
  unfolding initialize_mqtt
  initialize_mqtt-IsSound {st} s connected = Safe-any (deref st.mqtt_broker_host) _ λ host.
      elim (Bool-cases connected) [
        | inl connects ↦ rw connects (Safe-done (record { sensors = s.sensors; groups = s.groups }))
        | inr fails ↦ rw fails (Safe-done (record { sensors = s.sensors; groups = s.groups }))
      ]

  create_discovery_payload-IsSound :
      {st : State}
      → IsSound st
      → (address : Option Bytes)
      → Safe (λ p. IsSound p.1) (create_discovery_payload json address st)
  unfolding create_discovery_payload
  create_discovery_payload-IsSound {st} s address = Safe-any (deref st.monitor_id) _ λ id.
      Safe-any (deref address) _ λ ip. Safe-done (record { sensors = s.sensors; groups = s.groups })

  pub announce-IsSound :
      {st : State}
      → IsSound st
      → (connected : Bool) (address : Option Bytes)
      → Safe (λ p. IsSound p.0) (announce json print_double handlers connected address st)
  unfolding announce
  announce-IsSound {st} s connected address =
      Safe-bind (initialize_mqtt connected st) _ (initialize_mqtt-IsSound s connected) λ st₁ s₁.
        Safe-bind (create_discovery_payload json address st₁) _
          (create_discovery_payload-IsSound s₁ address) λ p sound. Safe-done sound

  round_mqtt-IsSound :
      (w : World) {st : State}
      → IsSound st
      → Safe (λ p. IsSound p.0) (round_mqtt json print_double handlers w st)
  unfolding round_mqtt
  round_mqtt-IsSound w {st} s =
      Safe-if (st.restart_mqtt == 0) (λ _. Safe-done s)
        λ _. announce-IsSound s w.connected w.address

  round_http-IsSound :
      (w : World) (m : Main)
      → IsSound m.state
      → Safe IsSoundWent (round_http json print_double handlers w m)
  unfolding round_http
  round_http-IsSound w m s =
      let offered =
        adeptness_service_new {S = State} (some m.svcname) (some (codes "1.0")) true
          m.state.rest_server_port in
      Safe-if (m.state.restart_http == 0) (λ _. Safe-done s)
        λ _. Safe-any (adeptness_service_stop m.service) _ λ stopped.
          elim (Option-cases offered.1) [
            | inl refused ↦ rw refused (Safe-done tt)
            | inr (service, made) ↦ rw made (
                Safe-if ((adeptness_service_start w.started handlers service offered.0).0.code == 0)
                  (λ _. Safe-done (record { sensors = s.sensors; groups = s.groups }))
                  λ _. Safe-done tt)
          ]

  round_frame-IsSound :
      (w : World) {st : State}
      → IsSound st
      → Safe IsSound (round_frame json print_double handlers w st)
  unfolding round_frame
  round_frame-IsSound w {st} s =
      Safe-if (is_configured st.status || is_running st.status) (λ _. by_frame w.received)
        λ _. Safe-done s
    where
      by_frame :
          (received : Option CanFrame)
          → Safe IsSound (elim received [
            | none ↦ done st
            | some frame ↦
                parse_can_frame print_double
                  (masked json print_double handlers (can_read (some frame)) frame)
                  (w.time % 2 ^ 32)
                  st.sensors_table
                >>= λ r. done (record st { sensors_table = r.0; overruns = r.1 ++ st.overruns })
          ])
      by_frame none = Safe-done s
      by_frame (some frame) =
          let f = masked json print_double handlers (can_read (some frame)) frame in
          rw (s.sensors.at) (
            Safe-bind (parse_can_frame print_double f (w.time % 2 ^ 32) (some s.sensors.t)) _
              (parse_can_frame-Reparsed print_double f (w.time % 2 ^ 32) s.sensors.represents)
              λ r h. Safe-done (record {
                sensors = record { t = h.t; f = h.f; at = h.at; represents = h.represents };
                groups = s.groups;
              }))

  SameGroup-IsRoomy : (sg sg' : Sensorgroup) → SameGroup sg sg' → IsRoomy sg → IsRoomy sg'
  SameGroup-IsRoomy sg sg' same room = rw same room

  round_publish-IsSound :
      (w : World) {st : State}
      → IsSound st
      → Safe (λ p. IsSound p.1) (round_publish json print_double handlers w st)
  unfolding round_publish publish_groups publish_table
  round_publish-IsSound w {st} s =
      Safe-if (is_running st.status)
        (λ _. rw (s.groups.at) (
          Safe-bind (publish_cells json w.clock st s.groups.u.size s.groups.u.array) _
            (publish_cells-Rewritten json w.clock st s.groups.u.size s.groups.u.array
              s.groups.represents.valid.sized)
            λ r h. Safe-done (record {
              sensors = s.sensors;
              groups = record {
                u = record s.groups.u { array = r.0 };
                g = rewritten_map SameGroup (record s.groups.u { array = r.0 });
                at = refl;
                represents = rewriting-Represents SameGroup s.groups.represents r.0 h;
                roomy = λ q sg' there.
                    let (sg, before, same) =
                      rewriting-related SameGroup s.groups.represents r.0 h q sg' there in
                    SameGroup-IsRoomy sg sg' same (s.groups.roomy q sg before);
              };
            })))
        λ _. Safe-done s

  pub round-IsSound :
      (w : World) (m : Main)
      → IsSound m.state
      → Safe IsSoundWent (round json print_double handlers w m)
  unfolding round
  round-IsSound w m s =
      Safe-bind (round_mqtt json print_double handlers w m.state) _ (round_mqtt-IsSound w s)
        λ announced s₁.
          Safe-bind (round_http json print_double handlers w (record m { state = announced.0 })) _
            (round_http-IsSound w (record m { state = announced.0 }) s₁) (by_went announced.1)
    where
      by_went :
          (before : List Message) (went : Went)
          → IsSoundWent went
          → Safe IsSoundWent (elim went [
            | returned code ↦ done (returned code)
            | on m' _ ↦ round_frame json print_double handlers w m'.state >>= λ st.
                round_publish json print_double handlers w st >>= λ p.
                done (on (record m' { state = p.1 }) (before ++ p.0))
          ])
      by_went before (returned code) s₁ = Safe-done tt
      by_went before (on m' messages) s₁ =
          Safe-bind (round_frame json print_double handlers w m'.state) _ (round_frame-IsSound w s₁)
            λ st s₂.
              Safe-bind (round_publish json print_double handlers w st) _
                (round_publish-IsSound w s₂) λ p s₃. Safe-done s₃

  Step-IsSound :
      {m m' : Main} → Step json print_double handlers m m' → IsSound m.state → IsSound m'.state
  unfolding int_handler connlost
  Step-IsSound (called {m} address usage url methodname pairs context piece reply context' st e) s =
      (http_handler-IsSound json address usage url methodname pairs context piece m.state).holds
        (reply, context', st) e s
  Step-IsSound interrupted s = record { sensors = s.sensors; groups = s.groups }
  Step-IsSound disconnected s = record { sensors = s.sensors; groups = s.groups }
  Step-IsSound (went_round {m} {m'} w messages e) s = (round-IsSound w m s).holds (on m' messages) e

  -- No step leads out of the invariant.
  pub Reach-IsSound :
      {m m' : Main} → Reach json print_double handlers m m' → IsSound m.state → IsSound m'.state
  Reach-IsSound here s = s
  Reach-IsSound (then_step r step) s = Step-IsSound step (Reach-IsSound r s)
