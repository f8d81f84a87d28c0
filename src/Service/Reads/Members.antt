-- ===== src/Service/Reads/Members.antt =====
-- The loop over the members of a group, as a fold over their identifiers.
use can_monitor.Base.Windows.{get_elem?-drop}
use can_monitor.Base.{
  ℕ, zero, suc, ◌+◌, ◌≤◌, List, [], ◌∷◌, Bytes, Option, none, some, length, take, drop, get_elem?,
  Option-cases, done, ◌≡◌, inl, inr, refl, sym, ◌∙◌, ap, arith,
}
use can_monitor.Service.Json.{Json}
use can_monitor.Service.Reads.{member_documents}
use can_monitor.Service.Removal.Deletion.{AllKnown, IsRoomy}
use can_monitor.Service.Removal.Members.{members}
use can_monitor.Tables.Defs.{live, Table}
use can_monitor.Tables.Map.{Represents}
use can_monitor.Tables.Sensorgroups.{Sensorgroup}
use can_monitor.Tables.Sensors.{Sensor, hts_get}
use mathlib.Core.Option

module _ (json : Json) (document : Sensor → Json.Value json) where
  -- The array with the documents of the sensors behind it.
  abbrev pub documents_of : (Bytes → Option Sensor) → List Bytes → Json.Value json → Json.Value json
  documents_of f [] leaves = leaves
  documents_of f (id ∷ ids) leaves =
      documents_of f ids
        (elim (f id) [ none ↦ leaves | some s ↦ json.json_array_append_value leaves (document s) ])

  documents_of-known :
      (f : Bytes → Option Sensor) (id : Bytes) (s : Sensor) (ids : List Bytes)
      (leaves : Json.Value json)
      → f id ≡ some s
      → documents_of f (id ∷ ids) leaves
        ≡ documents_of f ids (json.json_array_append_value leaves (document s))
  documents_of-known f id s ids leaves there = rw there

  member_documents-suc :
      (sensors : Option (Table Sensor)) (left i : ℕ) (ids : List Bytes) (id : Bytes) (s : Sensor)
      (leaves : Json.Value json)
      → get_elem? ids i ≡ some id
      → hts_get sensors id ≡ some (live s)
      → member_documents json document sensors (suc left) i ids leaves
        ≡ member_documents json document sensors left
            (i + 1)
            ids
            (json.json_array_append_value leaves (document s))
  unfolding member_documents
  member_documents-suc sensors left i ids id s leaves at found = rw (at, member_documents, found)

  module _ {t : Table Sensor} {f : Bytes → Option Sensor} (r : Represents t f) where
    member_documents-fold :
        (left i : ℕ) (ids : List Bytes) (leaves : Json.Value json)
        → i + left ≤ length ids
        → AllKnown f (take left (drop i ids))
        → member_documents json document (some t) left i ids leaves
          ≡ done (documents_of f (take left (drop i ids)) leaves)
    member_documents-fold zero i ids leaves h k = unfold member_documents in refl
    member_documents-fold (suc left) i ids leaves h k =
        let (id, at, tail) = get_elem?-drop i ids (omega arith) in
        let one_more : i + 1 ≡ suc i = omega arith in
        let known : AllKnown f (id ∷ take left (drop (suc i) ids)) = rw tail at k in
        elim (Option-cases (f id)) [
          | inl absent ↦ absurd (known.0 absent)
          | inr (s, there) ↦
              let found : hts_get (some t) id ≡ some (live s) =
                unfold hts_get in r.reads id ∙ ap (Option.map live) there in
              let more = json.json_array_append_value leaves (document s) in
              let rest = take left (drop (suc i) ids) in
              member_documents-suc (some t) left i ids id s leaves at found
              ∙ rw one_more (member_documents-fold left (suc i) ids more (omega arith) known.1)
              ∙ ap done (sym (documents_of-known f id s rest leaves there))
              ∙ ap (λ l. done (documents_of f (take (suc left) l) leaves)) (sym tail)
        ]

    -- A group that has room for its members, all of them sensors, gives each its document.
    pub member_documents-members :
        (sg : Sensorgroup) (leaves : Json.Value json)
        → IsRoomy sg
        → AllKnown f (members sg)
        → member_documents json document (some t) sg.sensorcount 0 sg.sensor_list leaves
          ≡ done (documents_of f (members sg) leaves)
    member_documents-members sg leaves room known =
        member_documents-fold sg.sensorcount 0 sg.sensor_list leaves (omega arith) known
