-- ===== src/Monitor/Publish/Pass.antt =====
-- A pass over the groups: which are published, and what the table holds then.
use can_monitor.Monitor.Publish.{
  publish_table, is_due, publish_group, publish_chain, publish_cells, publish_groups,
}
use mathlib.Core.List.{append_assoc}
use can_monitor.Base.{
  ℕ, zero, suc, ◌+◌, List, [], ◌∷◌, ◌++◌, flatten, Bytes, Option, some, true, codes, length,
  if◌then◌else◌, Bool-cases, done, ◌≡◌, inl, inr, refl, sym, ◌∙◌, ap, arith,
}
use can_monitor.Frame.Parse.{Overrun, overrun}
use can_monitor.Monitor.Mqtt.{Message, publish}
use can_monitor.Monitor.Payload.{base_topic, sample_document, create_data_payload}
use can_monitor.Service.Json.{Json}
use can_monitor.Service.Reads.Members.{documents_of, member_documents-members}
use can_monitor.Service.Removal.Deletion.{AllKnown, IsRoomy}
use can_monitor.Service.Removal.Members.{members}
use can_monitor.Service.State.{State}
use can_monitor.Tables.Defs.{Slot, live, freed, Node, Table}
use can_monitor.Tables.Entries.{entries, AllHold, AllHold-append, entries-AllHold}
use can_monitor.Tables.Map.{Represents}
use can_monitor.Tables.Sensorgroups.{Sensorgroup, Timeval}
use can_monitor.Tables.Sensors.{Sensor}
use can_monitor.Tables.Values.{map_chain, map_chains, map_table, map_table-Represents}
use mathlib.Core.Option

module _ (json : Json) (clock : Bytes → Timeval) where
  -- A group that is due carries the time of the pass.
  abbrev pub stamped : Sensorgroup → Sensorgroup
  stamped sg = if is_due (clock sg.id) sg then record sg { last_publish_time = clock sg.id } else sg

  -- The message of a group: the values of its members, under its topic.
  abbrev pub message_of : State → Bytes → (Bytes → Option Sensor) → Sensorgroup → Message
  message_of st monitor_id f sg = publish st (base_topic monitor_id ++ (codes "/" ++ sg.id)) (
      json.json_serialize_to_string
        (documents_of json (sample_document json) f (members sg) json.json_value_init_array))

  abbrev pub mailed : State → Bytes → (Bytes → Option Sensor) → Slot Sensorgroup → List Message
  mailed st monitor_id f freed = []
  mailed st monitor_id f (live sg) =
      if is_due (clock sg.id) sg then message_of st monitor_id f sg ∷ [] else []

  -- The messages of the groups that are due, in the order of the nodes.
  abbrev pub outbox :
      State → Bytes → (Bytes → Option Sensor) → List (Node Sensorgroup) → List Message
  outbox st monitor_id f [] = []
  outbox st monitor_id f (n ∷ ns) =
      (elim n.slot [
        | freed ↦ []
        | live sg ↦ if is_due (clock sg.id) sg then message_of st monitor_id f sg ∷ [] else []
      ])
      ++ outbox st monitor_id f ns

  -- A group that is due has room for its members, and they are sensors.
  abbrev pub IsReady : (Bytes → Option Sensor) → Sensorgroup → Type 0
  IsReady f sg = is_due (clock sg.id) sg ≡ true → IsRoomy sg × AllKnown f (members sg)

  module _ (st : State) {t : Table Sensor} {f : Bytes → Option Sensor} (r : Represents t f)
      (at : st.sensors_table ≡ some t) (monitor_id : Bytes)
      (name : st.monitor_id ≡ some monitor_id) where
    create_data_payload-members :
        (sg : Sensorgroup)
        → IsRoomy sg
        → AllKnown f (members sg)
        → create_data_payload json (some t) sg
          ≡ done (
              json.json_serialize_to_string (
                documents_of json (sample_document json) f (members sg) json.json_value_init_array))
    unfolding create_data_payload
    create_data_payload-members sg room known = rw (
        member_documents-members json (sample_document json) r sg json.json_value_init_array room
          known)

    publish_group-stamped :
        (sg : Sensorgroup)
        → IsReady f sg
        → (over : List Overrun) × (publish_group json clock st sg
            ≡ done (
              stamped sg,
              record {
                messages =
                    if is_due (clock sg.id) sg then message_of st monitor_id f sg ∷ [] else [];
                over = over;
              },
            ))
    unfolding publish_group
    publish_group-stamped sg ready = elim (Bool-cases (is_due (clock sg.id) sg)) [
      | inr early ↦ ([], rw early)
      | inl late ↦
          let (room, known) = ready late in
          (
            overrun 200 (length (base_topic monitor_id ++ (codes "/" ++ sg.id)) + 1),
            rw (late, name, at, create_data_payload-members sg room known),
          )
    ]

    publish_chain-stamped :
        (c : List (Node Sensorgroup))
        → AllHold (IsReady f) c
        → (over : List Overrun) × (publish_chain json clock st c
            ≡ done
                (map_chain stamped c, record { messages = outbox st monitor_id f c; over = over }))
    unfolding publish_chain
    publish_chain-stamped [] h = ([], refl)
    publish_chain-stamped (n ∷ ns) h =
        let (sg, here, ready) = h.0 in
        let (o, e) = publish_group-stamped sg ready in
        let (rest, e') = publish_chain-stamped ns h.1 in (o ++ rest, rw (here, e, e'))

    outbox-append :
        (a b : List (Node Sensorgroup))
        → outbox st monitor_id f (a ++ b) ≡ outbox st monitor_id f a ++ outbox st monitor_id f b
    outbox-append [] b = refl
    outbox-append (n ∷ a) b =
        ap (λ l. mailed st monitor_id f n.slot ++ l) (outbox-append a b)
        ∙ sym (
            append_assoc (mailed st monitor_id f n.slot) (outbox st monitor_id f a)
              (outbox st monitor_id f b))

    publish_cells-stamped :
        (left : ℕ) (cs : List (List (Node Sensorgroup)))
        → length cs ≡ left
        → AllHold (IsReady f) (flatten cs)
        → (over : List Overrun) × (publish_cells json clock st left cs
            ≡ done (
              map_chains stamped cs,
              record { messages = outbox st monitor_id f (flatten cs); over = over },
            ))
    unfolding publish_cells flatten
    publish_cells-stamped zero [] e h = ([], refl)
    publish_cells-stamped zero (c ∷ cs) e h = absurd (omega arith)
    publish_cells-stamped (suc left) [] e h = absurd (omega arith)
    publish_cells-stamped (suc left) (c ∷ cs) e h =
        let (here, there) = AllHold-append (IsReady f) c (flatten cs) h in
        let (o, p) = publish_chain-stamped c here in
        let (rest, p') = publish_cells-stamped left cs (omega arith) there in
        (o ++ rest, rw (p, p', outbox-append c (flatten cs)))

    pub publish_groups-Represents :
        {u : Table Sensorgroup} {g : Bytes → Option Sensorgroup}
        → st.sensorgroup_table ≡ some u
        → Represents u g
        → ((q : Bytes) (sg : Sensorgroup) → g q ≡ some sg → IsReady f sg)
        → (over : List Overrun) × (publish_groups json clock st
            ≡ done (
              outbox st monitor_id f (entries u),
              record st {
                sensorgroup_table = some (map_table stamped u);
                overruns = over ++ st.overruns;
              },
            ))
          × Represents (map_table stamped u) (λ q. Option.map stamped (g q))
    unfolding publish_groups
    publish_groups-Represents {u} {g} groups_at ru ready =
        let (over, e) =
          publish_cells-stamped u.size u.array ru.valid.sized
            (entries-AllHold (IsReady f) ru ready) in
        (over, ap (publish_table json clock st) groups_at ∙ rw e, map_table-Represents stamped ru)
