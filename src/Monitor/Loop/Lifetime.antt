-- ===== src/Monitor/Loop/Lifetime.antt =====
-- The program from its start to its end: the tables hold no freed memory at any time.
use can_monitor.Monitor.Loop.{returned, Main, on, announce}
use can_monitor.Base.{
  ℕ, ◌==◌, List, Bytes, none, some, true, codes, Option-cases, if◌then◌else◌, done, ◌>>=◌, Safe,
  Safe-done, Safe-bind, Safe-any, Safe-if, ◌≡◌, inl, inr, ◌∙◌, ap, arith,
}
use can_monitor.Monitor.Arguments.{Arguments, left, chosen}
use can_monitor.Monitor.Loop.Reach.{Reach}
use can_monitor.Monitor.Loop.Sound.{IsSoundWent, Reach-IsSound}
use can_monitor.Monitor.Loop.Start.{Host, parsed, configuration, prepare, serve, start}
use can_monitor.Monitor.Mqtt.{Message}
use can_monitor.Rest.Daemon.{adeptness_service_new, adeptness_service_start}
use can_monitor.Rest.Server.{Handler}
use can_monitor.Service.Json.{Json}
use can_monitor.Service.Sound.{HasSensors, HasGroups, IsSound}
use can_monitor.Service.State.{State}
use can_monitor.Tables.Defs.{free_table}
use can_monitor.Tables.Entries.{free_table-done}
use can_monitor.Tables.Map.{create-Represents}
use can_monitor.Tables.Sensorgroups.{Sensorgroup, htsg_create, htsg_free}
use can_monitor.Tables.Sensors.{Sensor, hts_create, hts_free}

new_sensors : HasSensors (hts_create 10 true true)
unfolding hts_create
new_sensors =
    let (t, e, r) = create-Represents {V = Sensor} 10 (omega arith) in
    record { t = t; f = λ q. none; at = e; represents = r }

new_groups : HasGroups (htsg_create 10 true true)
unfolding htsg_create
new_groups =
    let (u, e, r) = create-Represents {V = Sensorgroup} 10 (omega arith) in
    record { u = u; g = λ q. none; at = e; represents = r; roomy = λ q sg there. cc }

module _ (json : Json) (print_double : ℕ → Bytes) (handlers : List (Handler State))
    (host : Host json) (sensors_made : host.sensors_memory ≡ (true, true))
    (groups_made : host.groups_memory ≡ (true, true)) where
  prepare-IsSound :
      (st : State) → Safe (λ p. IsSound p.0) (prepare json print_double handlers host st)
  unfolding prepare
  prepare-IsSound st =
      rw (sensors_made, groups_made)
        (Safe-any (announce json print_double handlers host.connected host.address _) _
          λ r. Safe-done (record { sensors = new_sensors; groups = new_groups }))

  serve-IsSound :
      (svcname : Bytes) (st : State)
      → Safe IsSoundWent (serve json print_double handlers host svcname st)
  unfolding serve
  serve-IsSound svcname st =
      let offered =
        adeptness_service_new {S = State} (some svcname) (some (codes "1.0")) true
          st.rest_server_port in
      elim (Option-cases offered.1) [
        | inl refused ↦ rw (serve, refused) (Safe-done tt)
        | inr (service, made) ↦
            rw (serve, made)
              (Safe-if
                ((adeptness_service_start host.started handlers service offered.0).0.code == 0)
                (λ _.
                  Safe-bind (prepare json print_double handlers host st) _ (prepare-IsSound st)
                    λ r s. Safe-done s)
                λ _. Safe-done tt)
      ]

  start-IsSound :
      (args : List Bytes) → Safe IsSoundWent (start json print_double handlers host args)
  unfolding start
  start-IsSound args = by_arguments (parsed args)
    where
      by_arguments :
          (a : Arguments)
          → Safe IsSoundWent (elim a [
            | left ↦ done (returned 0)
            | chosen svcname config_file ↦ configuration json host config_file >>= λ c.
                if c.success
                then serve json print_double handlers host svcname c.state
                else done (returned 0)
          ])
      by_arguments left = Safe-done tt
      by_arguments (chosen svcname config_file) =
          Safe-any (configuration json host config_file) _
            λ c. Safe-if c.success (λ _. serve-IsSound svcname c.state) λ _. Safe-done tt

  -- When the program starts up to its loop and there is memory for both tables, then after any
  -- sequence of calls of http_handler, each with any context, signals, lost connections and rounds
  -- of the loop the two tables are finite maps without freed memory, every group has room for its
  -- members, and freeing each table at the end frees nothing twice.
  pub start-Reach-IsSound :
      (args : List Bytes) (m m' : Main) (messages : List Message)
      → start json print_double handlers host args ≡ done (on m messages)
      → Reach json print_double handlers m m'
      → IsSound m'.state
        × (hts_free m'.state.sensors_table ≡ done tt)
        × (htsg_free m'.state.sensorgroup_table ≡ done tt)
  unfolding hts_free htsg_free
  start-Reach-IsSound args m m' messages begun steps =
      let s =
        Reach-IsSound json print_double handlers steps
          ((start-IsSound args).holds (on m messages) begun) in
      (
        s,
        ap free_table (s.sensors.at) ∙ free_table-done s.sensors.represents,
        ap free_table (s.groups.at) ∙ free_table-done s.groups.represents,
      )
