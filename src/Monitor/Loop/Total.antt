-- ===== src/Monitor/Loop/Total.antt =====
-- When a round of the loop returns.
use can_monitor.Monitor.Loop.Ledger.{round-Grown}
use can_monitor.Service.State.Ledger.{Grown}
use can_monitor.Base.{◌%◌, ◌^◌}
use can_monitor.Base.{
  done_of_ne_fault, ◌++◌, ℕ, List, [], Bytes, Option, none, some, true, done, ◌>>=◌, ◌≡◌, ◌≢◌, refl,
  sym, ◌∙◌,
}
use can_monitor.Frame.Extract.{IsFrame}
use can_monitor.Frame.Mask.{CanFrame}
use can_monitor.Frame.Sampling.{Readable}
use can_monitor.Monitor.Loop.Round.{framed, Listens}
use can_monitor.Monitor.Loop.{World, Main, Went, on, returned, round_frame, round_publish, round}
use can_monitor.Monitor.Mqtt.{Message}
use can_monitor.Monitor.Publish.Pass.{IsReady}
use can_monitor.Rest.Daemon.{destroyed}
use can_monitor.Rest.Server.{Handler}
use can_monitor.Service.Command.Transitions.{running_of}
use can_monitor.Service.Json.{Json}
use can_monitor.Service.Removal.Members.{members}
use can_monitor.Service.State.{State, MsStatus}
use can_monitor.Tables.Defs.{Table}
use can_monitor.Tables.Map.{Represents}
use can_monitor.Tables.Sensorgroups.{Sensorgroup}
use can_monitor.Tables.Sensors.{Sensor}
use can_monitor.Monitor.Loop.Parts.{
  Kept, WentOn, round_mqtt-Kept, round_mqtt-ne-fault, round_http-ne-fault, round_http-WentOn,
  round_frame-Read, round_publish-returns,
}

module _ (json : Json) (print_double : ℕ → Bytes) (handlers : List (Handler State)) where
  round-goes_on :
      (w : World) (m : Main) (f : Bytes → Option Sensor) (g : Bytes → Option Sensorgroup)
      {t : Table Sensor} {u : Table Sensorgroup}
      → m.state.sensors_table ≡ some t
      → Represents t f
      → m.state.sensorgroup_table ≡ some u
      → Represents u g
      → (m.state.restart_mqtt ≢ 0
          → (m.state.mqtt_broker_host ≢ none) × (m.state.monitor_id ≢ none) × (w.address ≢ none))
      → (m.state.restart_http ≢ 0
          → (m.service.daemon ≢ some destroyed) × (m.svcname ≢ []) × (w.started ≡ true))
      → ((frame : CanFrame)
          → w.received ≡ some frame
          → Listens json print_double handlers m.state
          → IsFrame (framed json print_double handlers frame)
            × ((q : Bytes) (s : Sensor)
                → f q ≡ some s
                → Readable print_double
                    (framed json print_double handlers frame)
                    (w.time % 2 ^ 32)
                    s))
      → (m.state.status ≡ MsStatus.running
          → (m.state.monitor_id ≢ none)
            × ((q : Bytes) (sg : Sensorgroup) → g q ≡ some sg → IsReady json w.clock f sg))
      → (m' : Main) × (messages : List Message) × (round json print_double handlers w m
          ≡ done (on m' messages))
  unfolding round
  round-goes_on w m f g at r groups_at ru mqtt http fits ready =
      let (announced, e₁) =
        done_of_ne_fault _ (round_mqtt-ne-fault json print_double handlers w m.state mqtt) in
      let (kept₁, flag) =
        (round_mqtt-Kept json print_double handlers w m.state).holds announced e₁ in
      let m₁ : Main = record m { state = announced.0 } in
      let (went, e₂) = done_of_ne_fault _ (
        round_http-ne-fault json print_double handlers w m₁
          (λ wanted. (http (λ none_wanted. wanted (flag ∙ none_wanted))).0)) in
      rw (e₁, e₂)
        (after_http announced.1 m₁.state kept₁ went (
          round_http-WentOn json print_double handlers w m₁ went
            (λ wanted.
              let given = http (λ none_wanted. wanted (flag ∙ none_wanted)) in (given.1, given.2))
            e₂))
    where
      after_http :
          (before : List Message) (st : State)
          → Kept m.state st
          → (went : Went) → WentOn json print_double handlers st went
          → (m' : Main) × (messages : List Message) × ((elim went [
            | returned code ↦ done (returned code)
            | on m' _ ↦ round_frame json print_double handlers w m'.state >>= λ st.
                round_publish json print_double handlers w st >>= λ p.
                done (on (record m' { state = p.1 }) (before ++ p.0))
          ])
              ≡ done (on m' messages))
      after_http before st kept₁ (on m₂ _) kept₂ =
          let same_status = kept₂.status ∙ kept₁.status in
          let (st₃, e₃, read) =
            round_frame-Read json print_double handlers w m₂.state
              (kept₂.sensors ∙ kept₁.sensors ∙ at) r
              (λ frame received active. fits frame received (rw same_status at active)) in
          let (p, e₄) =
            round_publish-returns json print_double handlers w st₃ read.at read.represents
              (read.groups ∙ kept₂.groups ∙ kept₁.groups ∙ groups_at) ru
              (λ runs.
                let (named, due) =
                  ready (running_of m.state.status (rw (read.status ∙ same_status) at runs)) in
                (
                  λ nameless. named (sym (read.name ∙ kept₂.name ∙ kept₁.name) ∙ nameless),
                  λ q sg there late.
                      ((due q sg there late).0, read.known (members sg) (due q sg there late).1),
                )) in
          (record m₂ { state = p.1 }, before ++ p.0, rw (e₃, e₄) refl)
      after_http before st kept₁ (returned _) kept₂ = elim kept₂ [ ]

  -- When the tables represent maps, a round of the loop of the model returns and the program goes
  -- on, with a ledger that has the entries of the round, if any, in front of those before, since a
  -- write past the end of a buffer, which C leaves undefined, is entered there and is not
  -- excluded; this holds provided that a wanted restart of MQTT finds a host, a name and an
  -- address, a wanted restart of HTTP finds a server that is not destroyed, a name of the service
  -- and success, in the statuses configured and running a frame has at most 8 data bytes and
  -- concerns only sensors that lie inside it, are narrower than 64 bits and are not of the type
  -- "string", and in the status running the monitor has a name and every group that is due has
  -- room for its members and only sensors for members.
  pub round-returns :
      (w : World) (m : Main) (f : Bytes → Option Sensor) (g : Bytes → Option Sensorgroup)
      {t : Table Sensor} {u : Table Sensorgroup}
      → m.state.sensors_table ≡ some t
      → Represents t f
      → m.state.sensorgroup_table ≡ some u
      → Represents u g
      → (m.state.restart_mqtt ≢ 0
          → (m.state.mqtt_broker_host ≢ none) × (m.state.monitor_id ≢ none) × (w.address ≢ none))
      → (m.state.restart_http ≢ 0
          → (m.service.daemon ≢ some destroyed) × (m.svcname ≢ []) × (w.started ≡ true))
      → ((frame : CanFrame)
          → w.received ≡ some frame
          → Listens json print_double handlers m.state
          → IsFrame (framed json print_double handlers frame)
            × ((q : Bytes) (s : Sensor)
                → f q ≡ some s
                → Readable print_double
                    (framed json print_double handlers frame)
                    (w.time % 2 ^ 32)
                    s))
      → (m.state.status ≡ MsStatus.running
          → (m.state.monitor_id ≢ none)
            × ((q : Bytes) (sg : Sensorgroup) → g q ≡ some sg → IsReady json w.clock f sg))
      → (m' : Main) × (messages : List Message) × (round json print_double handlers w m
          ≡ done (on m' messages))
        × Grown m.state m'.state
  round-returns w m f g at r groups_at ru mqtt http fits ready =
      let (m', messages, e) = round-goes_on w m f g at r groups_at ru mqtt http fits ready in
      (m', messages, e, (round-Grown json print_double handlers w m).holds (on m' messages) e)
