-- ===== src/Monitor/Publish/Delivery.antt =====
-- Every group that is due is published.
use can_monitor.Base.{
  List, [], ◌∷◌, ◌++◌, Bytes, Option, some, true, str_eq, Bool-cases, done, ◌≡◌, inl, inr, refl,
  ◌∙◌, ap, arith,
}
use can_monitor.Monitor.Mqtt.{Message}
use can_monitor.Monitor.Publish.Pass.{
  stamped, message_of, outbox, mailed, IsReady, publish_groups-Represents,
}
use can_monitor.Monitor.Publish.{is_due, publish_groups}
use can_monitor.Service.Json.{Json}
use can_monitor.Service.State.{State}
use can_monitor.Tables.Defs.{live, Node, Table, find, get}
use can_monitor.Tables.Entries.{entries, entries-get}
use can_monitor.Tables.Map.{Represents}
use can_monitor.Tables.Sensorgroups.{Sensorgroup, Timeval}
use can_monitor.Tables.Sensors.{Sensor}
use mathlib.Core.List.{Memᴰ}
use mathlib.Core.Option

Memᴰ-append {ℓ} : {A : Type ℓ} (x : A) (a b : List A) → Memᴰ x b → Memᴰ x (a ++ b)
Memᴰ-append x [] b m = m
Memᴰ-append x (y ∷ a) b m = Memᴰ.tail (Memᴰ-append x a b m)

module _ (json : Json) (clock : Bytes → Timeval) (st : State) (monitor_id : Bytes)
    (f : Bytes → Option Sensor) where
  outbox-find :
      (q : Bytes) (sg : Sensorgroup) (c : List (Node Sensorgroup))
      → find q c ≡ some (live sg)
      → is_due (clock sg.id) sg ≡ true
      → Memᴰ (message_of json clock st monitor_id f sg) (outbox json clock st monitor_id f c)
  unfolding find
  outbox-find q sg [] e late = cc
  outbox-find q sg (n ∷ ns) e late = elim (Bool-cases (str_eq n.key q)) [
    | inl same ↦ let here : n.slot ≡ live sg = ground arith in rw (here, late) (Memᴰ.head refl)
    | inr differs ↦
        Memᴰ-append _ (mailed json clock st monitor_id f n.slot) _
          (outbox-find q sg ns (rw (differs, find) at e) late)
  ]

  -- When the monitor has a name, the tables represent maps, and every group that is due has room
  -- for its members and only sensors for members, each group that is due has its message sent in
  -- the pass, and is in the table with the time of the pass afterwards.
  pub publish_groups-sends :
      {t : Table Sensor} {u : Table Sensorgroup} {g : Bytes → Option Sensorgroup}
      → Represents t f
      → st.sensors_table ≡ some t
      → st.monitor_id ≡ some monitor_id
      → st.sensorgroup_table ≡ some u
      → Represents u g
      → ((q : Bytes) (sg : Sensorgroup) → g q ≡ some sg → IsReady json clock f sg)
      → (q : Bytes) (sg : Sensorgroup) → g q ≡ some sg
      → is_due (clock sg.id) sg ≡ true
      → (messages : List Message) × (st' : State) × (u' : Table Sensorgroup) × (publish_groups json
            clock st
          ≡ done (messages, st'))
        × Memᴰ (message_of json clock st monitor_id f sg) messages
        × (st'.sensorgroup_table ≡ some u')
        × (get (some u') q ≡ some (live (record sg { last_publish_time = clock sg.id })))
  publish_groups-sends {t} {u} {g} rt at name groups_at ru ready q sg there late =
      let (over, e, ru') =
        publish_groups-Represents json clock st rt at monitor_id name groups_at ru ready in
      let found = (entries-get ru.valid q).0 ∙ ru.reads q ∙ ap (Option.map live) there in
      let now : stamped json clock sg ≡ record sg { last_publish_time = clock sg.id } = rw late in
      (
        _,
        _,
        _,
        e,
        outbox-find q sg (entries u) found late,
        refl,
        ru'.reads q
            ∙ ap (λ o. Option.map live (Option.map (stamped json clock) o)) there
            ∙ ap (λ v. some (live v)) now,
      )
