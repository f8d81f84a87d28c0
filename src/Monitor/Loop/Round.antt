-- ===== src/Monitor/Loop/Round.antt =====
-- One round of the loop while the monitor runs: the frame that it reads is in the messages that it
-- sends.
use can_monitor.Base.{◌%◌, ◌^◌}
use can_monitor.Base.{
  ◌++◌, ℕ, List, [], ◌∷◌, Bytes, Option, none, some, true, ◌||◌, done, ◌≡◌, ◌≢◌, refl, arith,
}
use can_monitor.Frame.Extract.{IsFrame}
use can_monitor.Frame.Mask.{CanFrame}
use can_monitor.Frame.Parse.{Overrun}
use can_monitor.Frame.Sampling.{sampled, Readable, parse_can_frame-Represents}
use can_monitor.Monitor.Loop.{
  World, Main, on, can_read, masked, round_mqtt, round_http, round_frame, round_publish,
}
use can_monitor.Monitor.Publish.{publish_groups}
use can_monitor.Rest.Server.{Handler}
use can_monitor.Service.Command.{is_configured, is_running}
use can_monitor.Service.Json.{Json}
use can_monitor.Service.Removal.Deletion.{AllKnown}
use can_monitor.Service.State.{State}
use can_monitor.Tables.Defs.{Table}
use can_monitor.Tables.Map.{Represents}
use can_monitor.Tables.Sensors.{Sensor}
use can_monitor.Tables.Values.{map_table}
use mathlib.Core.Option

pub map-AllKnown :
    (h : Sensor → Sensor) (f : Bytes → Option Sensor) (ids : List Bytes)
    → AllKnown f ids
    → AllKnown (λ q. Option.map h (f q)) ids
map-AllKnown h f [] known = tt
map-AllKnown h f (id ∷ ids) known = (mapped (f id) known.0, map-AllKnown h f ids known.1)
  where
    mapped : (o : Option Sensor) → o ≢ none → Option.map h o ≢ none
    mapped none there e = there refl
    mapped (some s) there e = cc

module _ (json : Json) (print_double : ℕ → Bytes) (handlers : List (Handler State)) where
  -- The frame with its identifier masked, as `parse_can_frame` gets it.
  abbrev pub framed : CanFrame → CanFrame
  framed frame = masked json print_double handlers (can_read (some frame)) frame

  abbrev pub Listens : State → Type 0
  Listens st = (is_configured st.status || is_running st.status) ≡ true

  pub round_frame-Represents :
      (w : World) (frame : CanFrame) (st : State) {t : Table Sensor} {f : Bytes → Option Sensor}
      → Listens st
      → w.received ≡ some frame
      → st.sensors_table ≡ some t
      → Represents t f
      → IsFrame (framed frame)
      → ((q : Bytes) (s : Sensor)
          → f q ≡ some s
          → Readable print_double (framed frame) (w.time % 2 ^ 32) s)
      → (over : List Overrun) × (round_frame json print_double handlers w st
          ≡ done (record st {
            sensors_table =
                some (map_table (sampled print_double (framed frame) (w.time % 2 ^ 32)) t);
            overruns = over;
          }))
        × Represents
            (map_table (sampled print_double (framed frame) (w.time % 2 ^ 32)) t)
            (λ q. Option.map (sampled print_double (framed frame) (w.time % 2 ^ 32)) (f q))
  unfolding round_frame
  round_frame-Represents w frame st active received at r ok readable =
      let (over, e, r') =
        parse_can_frame-Represents print_double (framed frame) (w.time % 2 ^ 32) ok r readable in
      (over ++ st.overruns, rw (active, received, at, e) refl, r')

  pub round_mqtt-still :
      (w : World) (st : State)
      → st.restart_mqtt ≡ 0
      → round_mqtt json print_double handlers w st ≡ done (st, [])
  unfolding round_mqtt
  round_mqtt-still w st e = ground (arith, e)

  pub round_http-still :
      (w : World) (m : Main)
      → m.state.restart_http ≡ 0
      → round_http json print_double handlers w m ≡ done (on m [])
  unfolding round_http
  round_http-still w m e = ground (arith, e)

  pub round_publish-running :
      (w : World) (st : State)
      → is_running st.status ≡ true
      → round_publish json print_double handlers w st ≡ publish_groups json w.clock st
  unfolding round_publish
  round_publish-running w st e = ground (arith, e)
