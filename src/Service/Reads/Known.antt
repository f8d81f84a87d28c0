-- ===== src/Service/Reads/Known.antt =====
-- When reading the groups is defined.
use can_monitor.Base.Windows.{get_elem?-drop}
use can_monitor.Base.{
  Gives, >>=-Gives, some_inj, ℕ, zero, suc, ◌+◌, ◌≤◌, List, [], ◌∷◌, ◌++◌, flatten, Bytes, Option,
  none, some, length, take, drop, Bool-cases, str_eq, done, >>=-eq-done, Outcome, ◌≡◌, ◌↔◌, inl,
  inr, refl, sym, ◌∙◌, ap, arith,
}
use can_monitor.Libc.Decimal.{signed_decimal}
use can_monitor.Service.Json.{Json}
use can_monitor.Service.Reads.Members.{member_documents-members}
use can_monitor.Service.Reads.{
  at_slot, chain_documents, cell_documents, table_documents, sensor_document, member_documents,
  group_document, read_sensorgroups_subscription,
}
use can_monitor.Service.Removal.Deletion.{AllKnown, IsRoomy}
use can_monitor.Service.Removal.Members.{members}
use can_monitor.Service.State.{State, Reply}
use can_monitor.Tables.Defs.{Slot, live, Node, Table, find}
use can_monitor.Tables.Entries.{entries, entries-get, AllHold, AllHold-append, entries-AllHold}
use can_monitor.Tables.Map.{Represents}
use can_monitor.Tables.Sensorgroups.{Sensorgroup}
use can_monitor.Tables.Sensors.{Sensor, hts_get}
use mathlib.Core.Option
use mathlib.Core.Path.{subst}

-- A property of all values holds of the one that a lookup finds.
AllHold-found {ℓ κ} :
    {V : Type ℓ} (P : V → Type κ) (q : Bytes) (v : V) (c : List (Node V))
    → AllHold P c
    → find q c ≡ some (live v)
    → P v
unfolding find
AllHold-found P q v [] h e = cc
AllHold-found P q v (n ∷ ns) h e = elim (Bool-cases (str_eq n.key q)) [
  | inl same ↦ let (v', at, p) = h.0 in let here : v' ≡ v = ground arith in subst P here p
  | inr other ↦ AllHold-found P q v ns h.1 (rw (other, find) at e)
]

at_slot-done {ℓ} :
    {V : Type ℓ} (o : Option (Slot V)) (v : V) → at_slot o ≡ done v → o ≡ some (live v)
unfolding at_slot
at_slot-done o v e = ground arith

append-AllHold {ℓ κ} :
    {V : Type ℓ} (P : V → Type κ) (a b : List (Node V))
    → AllHold P a
    → AllHold P b
    → AllHold P (a ++ b)
append-AllHold P [] b h h' = h'
append-AllHold P (n ∷ a) b h h' = (h.0, append-AllHold P a b h.1 h')

module _ (json : Json) {V : Type 0} (document : V → Outcome (Json.Value json)) where
  abbrev HasDocument : V → Type 0
  HasDocument v = Gives (document v)

  chain_documents-AllHold :
      (c : List (Node V)) (leaves out : Json.Value json)
      → chain_documents json document c leaves ≡ done out
      → AllHold HasDocument c
  unfolding chain_documents
  chain_documents-AllHold [] leaves out e = tt
  chain_documents-AllHold (n ∷ ns) leaves out e =
      let (v, at, e₁) = >>=-eq-done (at_slot (some n.slot)) _ e in
      let (d, e₂, e₃) = >>=-eq-done (document v) _ e₁ in
      (
        (v, some_inj (at_slot-done (some n.slot) v at), (d, e₂)),
        chain_documents-AllHold ns _ out e₃,
      )

  chain_documents-given :
      (c : List (Node V)) (leaves : Json.Value json)
      → AllHold HasDocument c
      → Gives (chain_documents json document c leaves)
  unfolding chain_documents at_slot
  chain_documents-given [] leaves h = (leaves, refl)
  chain_documents-given (n ∷ ns) leaves h =
      let (v, at, (d, e)) = h.0 in
      let (out, rest) = chain_documents-given ns (json.json_array_append_value leaves d) h.1 in
      (out, rw (at, e) rest)

  cell_documents-AllHold :
      (left : ℕ) (cs : List (List (Node V))) (leaves out : Json.Value json)
      → length cs ≡ left
      → cell_documents json document left cs leaves ≡ done out
      → AllHold HasDocument (flatten cs)
  unfolding cell_documents flatten
  cell_documents-AllHold zero [] leaves out h e = tt
  cell_documents-AllHold zero (c ∷ cs) leaves out h e = absurd (omega arith)
  cell_documents-AllHold (suc left) [] leaves out h e = tt
  cell_documents-AllHold (suc left) (c ∷ cs) leaves out h e =
      let (v, e₁, e₂) = >>=-eq-done (chain_documents json document c leaves) _ e in
      append-AllHold HasDocument c (flatten cs) (chain_documents-AllHold c leaves v e₁)
        (cell_documents-AllHold left cs v out (omega arith) e₂)

  cell_documents-given :
      (left : ℕ) (cs : List (List (Node V))) (leaves : Json.Value json)
      → length cs ≡ left
      → AllHold HasDocument (flatten cs)
      → Gives (cell_documents json document left cs leaves)
  unfolding cell_documents flatten
  cell_documents-given zero cs leaves h k = (leaves, refl)
  cell_documents-given (suc left) [] leaves h k = absurd (omega arith)
  cell_documents-given (suc left) (c ∷ cs) leaves h k =
      let (here, there) = AllHold-append HasDocument c (flatten cs) k in
      let (v, e) = chain_documents-given c leaves here in
      let (out, rest) = cell_documents-given left cs v (omega arith) there in (out, rw e rest)

  -- The loops over a table return exactly when every value of the map has a document.
  table_documents_iff :
      {t : Table V} {f : Bytes → Option V}
      → Represents t f
      → Gives (table_documents json document (some t))
        ↔ ((q : Bytes) (v : V) → f q ≡ some v → HasDocument v)
  unfolding table_documents
  table_documents_iff {t} {f} r = (
    λ gives q v there.
        AllHold-found HasDocument q v (entries t)
          (cell_documents-AllHold t.size t.array _ gives.0 r.valid.sized gives.1)
          ((entries-get r.valid q).0 ∙ r.reads q ∙ ap (Option.map live) there),
    λ all. cell_documents-given t.size t.array _ r.valid.sized (entries-AllHold HasDocument r all),
  )

module _ (json : Json) {t : Table Sensor} {f : Bytes → Option Sensor} (r : Represents t f)
    (document : Sensor → Json.Value json) where
  member_documents-AllKnown :
      (left i : ℕ) (ids : List Bytes) (leaves out : Json.Value json)
      → i + left ≤ length ids
      → member_documents json document (some t) left i ids leaves ≡ done out
      → AllKnown f (take left (drop i ids))
  unfolding member_documents
  member_documents-AllKnown zero i ids leaves out h e = tt
  member_documents-AllKnown (suc left) i ids leaves out h e =
      let (id, at, tail) = get_elem?-drop i ids (omega arith) in
      let one_more : i + 1 ≡ suc i = omega arith in
      let (s, e₁, e₂) =
        >>=-eq-done (at_slot (hts_get (some t) id)) _ (rw (at, member_documents) at e) in
      let found = at_slot-done (hts_get (some t) id) s e₁ in
      rw tail (
        λ absent.
            let wrong : some (live s) ≡ none =
              sym (unfold hts_get in found) ∙ r.reads id ∙ ap (Option.map live) absent in
            cc,
        rw one_more at (member_documents-AllKnown left (i + 1) ids _ out (omega arith) e₂),
      )

module _ (json : Json) {t : Table Sensor} {f : Bytes → Option Sensor} (r : Represents t f) where
  group_document_iff :
      (sg : Sensorgroup)
      → IsRoomy sg
      → Gives (group_document json (some t) sg) ↔ AllKnown f (members sg)
  unfolding group_document
  group_document_iff sg room = (
    λ gives.
        let (list, e, _) =
          >>=-eq-done (member_documents json _ (some t) sg.sensorcount 0 sg.sensor_list _) _
            gives.1 in
        member_documents-AllKnown json r _ sg.sensorcount 0 sg.sensor_list _ list
          (omega (arith, room)) e,
    λ known.
        >>=-Gives _ _
          (
            _,
            member_documents-members json (sensor_document json (signed_decimal 32)) r sg _ room
                known,
          )
          λ list. (_, refl),
  )

  -- When the tables represent maps and every group's array has room for its members, reading the
  -- groups returns exactly when all members of all groups are sensors.
  pub read_sensorgroups_subscription_iff :
      (st : State) {u : Table Sensorgroup} {g : Bytes → Option Sensorgroup}
      → st.sensors_table ≡ some t
      → st.sensorgroup_table ≡ some u
      → Represents u g
      → ((q : Bytes) (sg : Sensorgroup) → g q ≡ some sg → IsRoomy sg)
      → ((reply : Reply) × (read_sensorgroups_subscription json st ≡ done reply))
        ↔ ((q : Bytes) (sg : Sensorgroup) → g q ≡ some sg → AllKnown f (members sg))
  unfolding read_sensorgroups_subscription
  read_sensorgroups_subscription_iff st {u} at groups_at ru room =
      let tables = table_documents_iff json (group_document json (some t)) ru in
      rw (at, groups_at)
        (
          λ gives q sg there.
              let (leaves, e, _) =
                >>=-eq-done (table_documents json (group_document json (some t)) (some u)) _
                  gives.1 in
              (group_document_iff sg (room q sg there)).0 (tables.0 (leaves, e) q sg there),
          λ known.
              >>=-Gives _ _
                (tables.1
                  λ q sg there. (group_document_iff sg (room q sg there)).1 (known q sg there))
                λ leaves. (_, refl),
        )
