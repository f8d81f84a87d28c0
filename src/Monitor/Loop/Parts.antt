-- ===== src/Monitor/Loop/Parts.antt =====
-- When the four parts of a round return, and what they leave.
use can_monitor.Base.{◌%◌, ◌^◌}
use can_monitor.Base.{
  str_eq, str_eq_iff, ℕ, List, [], Bytes, Option, none, some, true, ◌||◌, Bool-cases, Option-cases,
  done, fault, Safe, ◌≡◌, ◌≢◌, ◌⊎◌, inl, inr, refl, ◌∙◌, arith,
}
use can_monitor.Frame.Extract.{IsFrame}
use can_monitor.Frame.Mask.{CanFrame}
use can_monitor.Frame.Sampling.{Readable}
use can_monitor.Monitor.Loop.Round.{
  framed, Listens, round_frame-Represents, round_publish-running, map-AllKnown,
}
use can_monitor.Monitor.Loop.{
  World, Main, Went, on, returned, announce, round_mqtt, round_http, round_frame, round_publish,
}
use can_monitor.Monitor.Mqtt.{Message, initialize_mqtt}
use can_monitor.Monitor.Payload.{create_discovery_payload}
use can_monitor.Monitor.Publish.Pass.{IsReady, publish_groups-Represents}
use can_monitor.Rest.Daemon.{
  Daemon, serving, destroyed, adeptness_service_new, adeptness_service_start,
  adeptness_service_stop, named_service, service_of, adeptness_rest_server_create, start_configured,
  adeptness_rest_server_destroy,
}
use can_monitor.Rest.Server.{Handler}
use can_monitor.Service.Command.{is_configured, is_running}
use can_monitor.Service.Json.{Json}
use can_monitor.Service.Removal.Deletion.{AllKnown}
use can_monitor.Service.State.{State}
use can_monitor.Tables.Defs.{Table}
use can_monitor.Tables.Map.{Represents}
use can_monitor.Tables.Sensorgroups.{Sensorgroup}
use can_monitor.Tables.Sensors.{Sensor}

-- What the restarts leave of the state: the tables, the status, the name.
pub record Kept (st st' : State) : Type 0 where
  pub status : st'.status ≡ st.status
  pub sensors : st'.sensors_table ≡ st.sensors_table
  pub groups : st'.sensorgroup_table ≡ st.sensorgroup_table
  pub name : st'.monitor_id ≡ st.monitor_id

unchanged : {st : State} → Kept st st
unchanged = record { status = refl; sensors = refl; groups = refl; name = refl }

-- What reading a frame leaves: a table of sensors that knows those that it knew.
pub record Read (f : Bytes → Option Sensor) (st st' : State) : Type 0 where
  pub status : st'.status ≡ st.status
  pub groups : st'.sensorgroup_table ≡ st.sensorgroup_table
  pub name : st'.monitor_id ≡ st.monitor_id
  pub t : Table Sensor
  pub f' : Bytes → Option Sensor
  pub at : st'.sensors_table ≡ some t
  pub represents : Represents t f'
  pub known : (ids : List Bytes) → AllKnown f ids → AllKnown f' ids

daemon_cases : (d : Option (Daemon State)) → (d ≡ some destroyed) ⊎ (d ≢ some destroyed)
daemon_cases none = inr cc
daemon_cases (some destroyed) = inl refl
daemon_cases (some (serving server)) = inr cc

module _ (json : Json) (print_double : ℕ → Bytes) (handlers : List (Handler State)) where
  pub round_mqtt-Kept :
      (w : World) (st : State)
      → Safe
          (λ p. Kept st p.0 × (p.0.restart_http ≡ st.restart_http))
          (round_mqtt json print_double handlers w st)
  unfolding round_mqtt announce initialize_mqtt create_discovery_payload
  round_mqtt-Kept w st = record {
    holds = λ p h. (
      record {
        status = ground arith;
        sensors = ground arith;
        groups = ground arith;
        name = ground arith;
      },
      ground arith,
    );
  }

  pub round_mqtt-ne-fault :
      (w : World) (st : State)
      → (st.restart_mqtt ≢ 0
          → (st.mqtt_broker_host ≢ none) × (st.monitor_id ≢ none) × (w.address ≢ none))
      → round_mqtt json print_double handlers w st ≢ fault
  unfolding round_mqtt announce initialize_mqtt create_discovery_payload
  round_mqtt-ne-fault w st h e = ground (arith, h)

  pub round_http-ne-fault :
      (w : World) (m : Main)
      → (m.state.restart_http ≢ 0 → m.service.daemon ≢ some destroyed)
      → round_http json print_double handlers w m ≢ fault
  unfolding round_http adeptness_service_stop adeptness_rest_server_destroy
  round_http-ne-fault w m h e = elim (daemon_cases m.service.daemon) [
    | inl gone ↦ ground (arith, h)
    | inr stands ↦ ground (arith, h)
  ]

  abbrev pub WentOn : State → Went → Type 0
  WentOn st (on m messages) = Kept st m.state
  WentOn st (returned code) = ⊥

  pub round_http-WentOn :
      (w : World) (m : Main) (went : Went)
      → (m.state.restart_http ≢ 0 → (m.svcname ≢ []) × (w.started ≡ true))
      → round_http json print_double handlers w m ≡ done went
      → WentOn m.state went
  unfolding round_http adeptness_service_new adeptness_service_start named_service service_of str_eq
      adeptness_rest_server_create start_configured
  round_http-WentOn w m (on m' messages) h e = record {
    status = ground arith;
    sensors = ground arith;
    groups = ground arith;
    name = ground arith;
  }
  round_http-WentOn w m (returned code) h e = ground (arith, h, str_eq_iff m.svcname [])

  pub round_frame-Read :
      (w : World) (st : State) {t : Table Sensor} {f : Bytes → Option Sensor}
      → st.sensors_table ≡ some t
      → Represents t f
      → ((frame : CanFrame)
          → w.received ≡ some frame
          → Listens json print_double handlers st
          → IsFrame (framed json print_double handlers frame)
            × ((q : Bytes) (s : Sensor)
                → f q ≡ some s
                → Readable print_double
                    (framed json print_double handlers frame)
                    (w.time % 2 ^ 32)
                    s))
      → (st' : State) × (round_frame json print_double handlers w st ≡ done st') × Read f st st'
  unfolding round_frame
  round_frame-Read w st {t} {f} at r fits =
      let as_before : Read f st st = record {
        status = refl;
        groups = refl;
        name = refl;
        t = t;
        f' = f;
        at = at;
        represents = r;
        known = λ ids k. k;
      } in
      elim (Bool-cases (is_configured st.status || is_running st.status)) [
        | inr idle ↦ (st, rw idle refl, as_before)
        | inl active ↦ elim (Option-cases w.received) [
          | inl nothing ↦ (st, ground (arith, active, nothing), as_before)
          | inr (frame, received) ↦
              let (ok, readable) = fits frame received active in
              let (over, e, r') =
                round_frame-Represents json print_double handlers w frame st active received at r ok
                  readable in
              (
                _,
                e,
                record {
                  status = refl;
                  groups = refl;
                  name = refl;
                  t = _;
                  f' = _;
                  at = refl;
                  represents = r';
                  known = map-AllKnown _ f;
                },
              )
        ]
      ]

  pub round_publish-returns :
      (w : World) (st : State) {t : Table Sensor} {f : Bytes → Option Sensor}
      {u : Table Sensorgroup} {g : Bytes → Option Sensorgroup}
      → st.sensors_table ≡ some t
      → Represents t f
      → st.sensorgroup_table ≡ some u
      → Represents u g
      → (is_running st.status ≡ true
          → (st.monitor_id ≢ none)
            × ((q : Bytes) (sg : Sensorgroup) → g q ≡ some sg → IsReady json w.clock f sg))
      → (p : List Message × State) × (round_publish json print_double handlers w st ≡ done p)
  unfolding round_publish
  round_publish-returns w st at r groups_at ru ready = elim (Bool-cases (is_running st.status)) [
    | inr idle ↦ (([], st), rw idle refl)
    | inl runs ↦ elim (Option-cases st.monitor_id) [
      | inl nameless ↦ absurd ((ready runs).0 nameless)
      | inr (id, name) ↦
          let (over, e, ru') =
            publish_groups-Represents json w.clock st r at id name groups_at ru (ready runs).1 in
          (_, round_publish-running json print_double handlers w st runs ∙ e)
    ]
  ]
