-- ===== src/Monitor/Loop/Ledger.antt =====
-- What a round of the loop enters into the ledger of the writes past a buffer.
use can_monitor.Frame.Mask.{CanFrame}
use can_monitor.Base.{Bool, true, false}
use can_monitor.Base.{
  ◌%◌, ◌^◌, ℕ, List, [], Bytes, Option, none, some, ◌++◌, ◌==◌, ◌||◌, done, ◌>>=◌, Safe, Safe-done,
  Safe-bind, Safe-any, Safe-if, ◌≡◌, refl, arith, length, ◌+◌, codes,
}
use can_monitor.Frame.Parse.{parse_can_frame, overrun}
use can_monitor.Libc.Decimal.{signed_decimal}
use can_monitor.Monitor.Loop.{
  World, Main, Went, on, returned, announce, round_mqtt, round_http, round_frame, round_publish,
  round, masked, can_read,
}
use can_monitor.Monitor.Mqtt.{Message, initialize_mqtt}
use can_monitor.Monitor.Payload.{base_topic, create_discovery_payload}
use can_monitor.Monitor.Publish.{publish_cells, publish_table, publish_groups}
use can_monitor.Rest.Server.{Handler}
use can_monitor.Service.Command.{is_configured, is_running}
use can_monitor.Service.Json.{Json, deref}
use can_monitor.Service.State.Ledger.{Grown, Grown-trans}
use can_monitor.Service.State.{State}
use can_monitor.Tables.Defs.{Table}
use can_monitor.Tables.Sensorgroups.{Sensorgroup}

-- The ledger of the program that goes on has entries in front of the earlier ones.
abbrev pub GrownWent : State → Went → Type 0
GrownWent st (on m messages) = Grown st m.state
GrownWent st (returned code) = Unit

same_ledger : (st st' : State) → st'.overruns ≡ st.overruns → Grown st st'
same_ledger st st' e = ([], e)

module _ (json : Json) (print_double : ℕ → Bytes) (handlers : List (Handler State)) where
  initialize_mqtt-Grown :
      (connected : Bool) (st : State) → Safe (Grown st) (initialize_mqtt connected st)
  unfolding initialize_mqtt
  initialize_mqtt-Grown true st = Safe-any (deref st.mqtt_broker_host) _ λ host.
      let address =
        codes "tcp://" ++ (host ++ (codes ":" ++ signed_decimal 32 st.mqtt_broker_port)) in
      Safe-done (overrun 100 (length address + 1), refl)
  initialize_mqtt-Grown false st = Safe-any (deref st.mqtt_broker_host) _ λ host.
      let address =
        codes "tcp://" ++ (host ++ (codes ":" ++ signed_decimal 32 st.mqtt_broker_port)) in
      Safe-done (overrun 100 (length address + 1), refl)

  create_discovery_payload-Grown :
      (address : Option Bytes) (st : State)
      → Safe (λ p. Grown st p.1) (create_discovery_payload json address st)
  unfolding create_discovery_payload
  create_discovery_payload-Grown address st = Safe-any (deref st.monitor_id) _ λ id.
      Safe-any (deref address) _ λ ip. Safe-done (overrun 100 (length (base_topic id) + 1), refl)

  round_mqtt-Grown :
      (w : World) (st : State)
      → Safe (λ p. Grown st p.0) (round_mqtt json print_double handlers w st)
  unfolding round_mqtt announce
  round_mqtt-Grown w st =
      Safe-if (st.restart_mqtt == 0) (λ _. Safe-done (same_ledger st st refl))
        λ _.
          Safe-bind (initialize_mqtt w.connected st) _ (initialize_mqtt-Grown w.connected st)
            λ st₁ g₁.
              Safe-bind (create_discovery_payload json w.address st₁) _
                (create_discovery_payload-Grown w.address st₁)
                λ p g₂. Safe-done (Grown-trans st st₁ p.1 g₁ g₂)

  round_http-Grown :
      (w : World) (m : Main) → Safe (GrownWent m.state) (round_http json print_double handlers w m)
  unfolding round_http
  round_http-Grown w m = record { holds = λ p h. by_went p h }
    where
      by_went :
          (went : Went)
          → round_http json print_double handlers w m ≡ done went
          → GrownWent m.state went
      by_went (on m' messages) h = same_ledger m.state m'.state (ground arith)
      by_went (returned code) h = tt

  round_frame-Grown :
      (w : World) (st : State) → Safe (Grown st) (round_frame json print_double handlers w st)
  unfolding round_frame
  round_frame-Grown w st =
      Safe-if (is_configured st.status || is_running st.status) (λ _. by_frame w.received)
        λ _. Safe-done (same_ledger st st refl)
    where
      by_frame :
          (received : Option CanFrame)
          → Safe (Grown st) (elim received [
            | none ↦ done st
            | some frame ↦
                parse_can_frame print_double
                  (masked json print_double handlers (can_read (some frame)) frame)
                  (w.time % 2 ^ 32)
                  st.sensors_table
                >>= λ r. done (record st { sensors_table = r.0; overruns = r.1 ++ st.overruns })
          ])
      by_frame none = Safe-done (same_ledger st st refl)
      by_frame (some frame) =
          Safe-any
            (parse_can_frame print_double
              (masked json print_double handlers (can_read (some frame)) frame) (w.time % 2 ^ 32)
              st.sensors_table)
            _ λ r. Safe-done (r.1, refl)

  publish_table-Grown :
      (w : World) (st : State) (t : Option (Table Sensorgroup))
      → Safe (λ p. Grown st p.1) (publish_table json w.clock st t)
  unfolding publish_table
  publish_table-Grown w st none = record { holds = λ p h. cc }
  publish_table-Grown w st (some t) =
      Safe-any (publish_cells json w.clock st t.size t.array) _ λ r. Safe-done (r.1.over, refl)

  round_publish-Grown :
      (w : World) (st : State)
      → Safe (λ p. Grown st p.1) (round_publish json print_double handlers w st)
  unfolding round_publish publish_groups
  round_publish-Grown w st =
      Safe-if (is_running st.status) (λ _. publish_table-Grown w st st.sensorgroup_table)
        λ _. Safe-done (same_ledger st st refl)

  pub round-Grown :
      (w : World) (m : Main) → Safe (GrownWent m.state) (round json print_double handlers w m)
  unfolding round
  round-Grown w m =
      Safe-bind (round_mqtt json print_double handlers w m.state) _ (round_mqtt-Grown w m.state)
        λ announced g.
          Safe-bind (round_http json print_double handlers w (record m { state = announced.0 })) _
            (round_http-Grown w (record m { state = announced.0 }))
            (by_went announced.1 announced.0 g)
    where
      by_went :
          (before : List Message) (st : State)
          → Grown m.state st
          → (went : Went) → GrownWent st went
          → Safe (GrownWent m.state) (elim went [
            | returned code ↦ done (returned code)
            | on m' _ ↦ round_frame json print_double handlers w m'.state >>= λ st.
                round_publish json print_double handlers w st >>= λ p.
                done (on (record m' { state = p.1 }) (before ++ p.0))
          ])
      by_went before st g (returned code) g' = Safe-done tt
      by_went before st g (on m' messages) g' =
          Safe-bind (round_frame json print_double handlers w m'.state) _
            (round_frame-Grown w m'.state)
            λ st₁ g₁.
              Safe-bind (round_publish json print_double handlers w st₁) _
                (round_publish-Grown w st₁)
                λ p g₂. Safe-done (
                  Grown-trans m.state st p.1 g
                    (Grown-trans st m'.state p.1 g' (Grown-trans m'.state st₁ p.1 g₁ g₂)))
