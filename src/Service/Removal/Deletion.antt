-- ===== src/Service/Removal/Deletion.antt =====
-- Deleting a sensor by its identifier: the two tables afterwards.
use can_monitor.Base.{
  some_inj, Option-cases, ℕ, zero, suc, ◌+◌, ◌≤◌, List, [], ◌∷◌, flatten, Bytes, Option, none, some,
  codes, str_eq, str_eq_iff, str_eq_refl, length, if◌then◌else◌, Bool-cases, Outcome, done, fault,
  ◌≡◌, ◌≢◌, inl, inr, refl, ◌∙◌, ap, arith,
}
use can_monitor.Service.Json.{Json}
use can_monitor.Service.Removal.Members.{members, remove_first, leave_group-members}
use can_monitor.Service.Removal.{
  leave_group, leave_chain, leave_cells, leave_groups, delete_sensors_configuration,
}
use can_monitor.Service.Sensors.{QueryPair}
use can_monitor.Service.State.{State, Response}
use can_monitor.Tables.Defs.{live, Node, Table}
use can_monitor.Tables.Entries.{AllHold, AllHold-append, entries-AllHold}
use can_monitor.Tables.Map.{Represents, without_key, delete-Represents}
use can_monitor.Tables.Sensorgroups.{Sensorgroup}
use can_monitor.Tables.Sensors.{Sensor, hts_delete}
use can_monitor.Tables.Values.{map_chain, map_chains, map_table, map_table-Represents}
use mathlib.Core.Option
use mathlib.Core.Path.{subst}

-- The array of a group has room for the members that it counts.
abbrev pub IsRoomy : Sensorgroup → Type 0
IsRoomy sg = sg.sensorcount ≤ length sg.sensor_list

-- The group that the loop leaves behind.
result_or : Sensorgroup → Outcome Sensorgroup → Sensorgroup
result_or d (done sg) = sg
result_or d fault = d

pub without_member : Bytes → Sensorgroup → Sensorgroup
without_member id sg = result_or sg (leave_group id sg)

leave_group-done :
    (id : Bytes) (sg : Sensorgroup) → IsRoomy sg → leave_group id sg ≡ done (without_member id sg)
unfolding without_member result_or
leave_group-done id sg h = let (sg', e, _, _, _) = leave_group-members id sg h in e ∙ ap done (rw e)

-- It has lost the first occurrence of the identifier, and nothing else.
pub members-without_member :
    (id : Bytes) (sg : Sensorgroup)
    → IsRoomy sg
    → (members (without_member id sg) ≡ remove_first id (members sg))
      × IsRoomy (without_member id sg)
unfolding without_member result_or
members-without_member id sg h =
    let (sg', e, m, room, _) = leave_group-members id sg h in rw e (m, room)

pub without_member-removes :
    (id : Bytes) (sg : Sensorgroup)
    → IsRoomy sg
    → (members (without_member id sg) ≡ remove_first id (members sg))
      × (without_member id sg ≡ record sg {
        sensorcount = (without_member id sg).sensorcount;
        sensor_list = (without_member id sg).sensor_list;
      })
unfolding without_member result_or
without_member-removes id sg h =
    let (sg', e, m, _, same) = leave_group-members id sg h in rw e (m, same)

-- All groups keep room for their members.
pub without_member-IsRoomy :
    (id : Bytes) (g : Bytes → Option Sensorgroup)
    → ((q : Bytes) (sg : Sensorgroup) → g q ≡ some sg → IsRoomy sg)
    → (q : Bytes) (sg : Sensorgroup) → Option.map (without_member id) (g q) ≡ some sg
    → IsRoomy sg
without_member-IsRoomy id g room q sg there = elim (Option-cases (g q)) [
  | inl absent ↦ let wrong : none ≡ some sg = rw absent at there in cc
  | inr (old, before) ↦
      let same : without_member id old ≡ sg = some_inj (rw before at there) in
      subst IsRoomy same (members-without_member id old (room q old before)).1
]

module _ (id : Bytes) where
  leave_chain-map :
      (c : List (Node Sensorgroup))
      → AllHold IsRoomy c
      → leave_chain id c ≡ done (map_chain (without_member id) c)
  unfolding leave_chain
  leave_chain-map [] h = refl
  leave_chain-map (n ∷ ns) h =
      let (sg, at, room) = h.0 in rw (at, leave_group-done id sg room, leave_chain-map ns h.1)

  leave_cells-map :
      (left : ℕ) (cs : List (List (Node Sensorgroup)))
      → length cs ≡ left
      → AllHold IsRoomy (flatten cs)
      → leave_cells id left cs ≡ done (map_chains (without_member id) cs)
  unfolding leave_cells flatten
  leave_cells-map zero [] e h = refl
  leave_cells-map zero (c ∷ cs) e h = absurd (omega arith)
  leave_cells-map (suc left) [] e h = absurd (omega arith)
  leave_cells-map (suc left) (c ∷ cs) e h =
      let (here, there) = AllHold-append IsRoomy c (flatten cs) h in
      rw (leave_chain-map c here, leave_cells-map left cs (omega arith) there)

  pub leave_groups-map :
      {t : Table Sensorgroup} {g : Bytes → Option Sensorgroup}
      → Represents t g
      → ((q : Bytes) (sg : Sensorgroup) → g q ≡ some sg → IsRoomy sg)
      → leave_groups id (some t) ≡ done (some (map_table (without_member id) t))
  unfolding leave_groups
  leave_groups-map {t} r room =
      rw (leave_cells-map t.size t.array r.valid.sized (entries-AllHold IsRoomy r room))

abbrev pub by_id : Bytes → List QueryPair
by_id id = record { name = codes "id"; value = id } ∷ []

module _ (json : Json) (values id : Bytes) (st : State) {t : Table Sensor} {u : Table Sensorgroup}
    {f : Bytes → Option Sensor} {g : Bytes → Option Sensorgroup} (at : st.sensors_table ≡ some t)
    (groups_at : st.sensorgroup_table ≡ some u) (r : Represents t f) (r' : Represents u g)
    (room : (q : Bytes) (sg : Sensorgroup) → g q ≡ some sg → IsRoomy sg) where
  -- When the tables represent maps and every group's array has room for its members, deleting one
  -- sensor that is there, by a single id query, succeeds: the sensor is gone, each group has lost
  -- what the loop over it removes, and no other sensor changes.
  pub delete_sensors_configuration-Represents :
      (s : Sensor)
      → f id ≡ some s
      → (t' : Table Sensor) × (u' : Table Sensorgroup) × (delete_sensors_configuration json values
            (by_id id)
            st
          ≡ done (record {
            response = Response.ok;
            text = values;
            state = record st { sensors_table = some t'; sensorgroup_table = some u' };
          }))
        × Represents t' (without_key f id)
        × Represents u' (λ q. Option.map (without_member id) (g q))
  unfolding delete_sensors_configuration
  delete_sensors_configuration-Represents s h =
      let (t', e, reads) = delete-Represents r id in
      let deleted : hts_delete st.sensors_table id ≡ (some (live s), some t') =
        unfold hts_delete in rw at (e ∙ ap (λ o. (Option.map live o, some t')) h) in
      (
        t',
        map_table (without_member id) u,
        rw (str_eq_refl (codes "id"), deleted, groups_at, leave_groups-map id r' room),
        reads,
        map_table-Represents (without_member id) r',
      )

-- Every identifier is that of a sensor.
abbrev pub AllKnown : (Bytes → Option Sensor) → List Bytes → Type 0
AllKnown f [] = Unit
AllKnown f (x ∷ xs) = (f x ≢ none) × AllKnown f xs

abbrev pub occurrences : Bytes → List Bytes → ℕ
occurrences id [] = 0
occurrences id (x ∷ xs) = (if str_eq x id then 1 else 0) + occurrences id xs

AllKnown-without_key :
    (f : Bytes → Option Sensor) (id : Bytes) (xs : List Bytes)
    → occurrences id xs ≡ 0
    → AllKnown f xs
    → AllKnown (without_key f id) xs
AllKnown-without_key f id [] h k = tt
AllKnown-without_key f id (x ∷ xs) h k = (
  ground (arith, str_eq_iff x id, str_eq_iff id x, k.0),
  AllKnown-without_key f id xs (ground arith) k.1,
)

AllKnown-remove_first :
    (f : Bytes → Option Sensor) (id : Bytes) (xs : List Bytes)
    → occurrences id xs ≤ 1
    → AllKnown f xs
    → AllKnown (without_key f id) (remove_first id xs)
unfolding remove_first
AllKnown-remove_first f id [] h k = tt
AllKnown-remove_first f id (x ∷ xs) h k = elim (Bool-cases (str_eq x id)) [
  | inl same ↦ rw same (AllKnown-without_key f id xs (ground arith) k.1)
  | inr other ↦ rw other (
    ground (arith, str_eq_iff x id, str_eq_iff id x, k.0),
    AllKnown-remove_first f id xs (ground arith) k.1,
  )
]

-- A group whose array has room for its members, whose members are all sensors, and that lists the
-- identifier at most once, has only sensors for members after the identifier is deleted.
pub delete-AllKnown :
    (f : Bytes → Option Sensor) (id : Bytes) (sg : Sensorgroup)
    → IsRoomy sg
    → occurrences id (members sg) ≤ 1
    → AllKnown f (members sg)
    → AllKnown (without_key f id) (members (without_member id sg))
delete-AllKnown f id sg room once known =
    rw (members-without_member id sg room).0 (AllKnown-remove_first f id (members sg) once known)
