-- ===== src/Service/Reads/Listing.antt =====
-- Reading the configuration lists every sensor.
use can_monitor.Base.{
  Bool-cases, str_eq, inl, inr, ℕ, zero, suc, List, [], ◌∷◌, ◌++◌, flatten, Bytes, Option, some,
  length, done, ◌≡◌, refl, ◌∙◌, ap, arith,
}
use can_monitor.Libc.Decimal.{decimal}
use can_monitor.Service.Json.{Json}
use can_monitor.Service.Reads.{
  chain_documents, cell_documents, table_documents, sensor_document, read_sensors_configuration,
}
use can_monitor.Service.State.{State, Response}
use can_monitor.Tables.Defs.{Slot, live, freed, Node, Table, find}
use mathlib.Core.List.{Memᴰ}
use mathlib.Core.Option
use can_monitor.Tables.Entries.{entries-get, entries, AllHold, AllHold-append, entries-AllHold}
use can_monitor.Tables.Map.{Represents}
use can_monitor.Tables.Sensors.{Sensor}

-- The live values of the nodes, in their order.
abbrev pub values_of {ℓ} : {V : Type ℓ} → List (Node V) → List V
values_of [] = []
values_of (n ∷ ns) = elim n.slot [ freed ↦ values_of ns | live v ↦ v ∷ values_of ns ]

module _ (json : Json) where
  open json use {Value, json_array_append_value}

  -- An array with the documents of the sensors at its end.
  abbrev pub listing : (Sensor → Value) → List Sensor → Value → Value
  listing document [] leaves = leaves
  listing document (s ∷ ss) leaves =
      listing document ss (json_array_append_value leaves (document s))

  listing-append :
      (document : Sensor → Value) (a b : List (Node Sensor)) (leaves : Value)
      → listing document (values_of (a ++ b)) leaves
        ≡ listing document (values_of b) (listing document (values_of a) leaves)
  listing-append document [] b leaves = refl
  listing-append document (n ∷ a) b leaves = by_slot n.slot (listing-append document a b)
    where
      by_slot :
          (slot : Slot Sensor)
          → ((l : Value)
              → listing document (values_of (a ++ b)) l
                ≡ listing document (values_of b) (listing document (values_of a) l))
          → listing document
              (elim slot [ freed ↦ values_of (a ++ b) | live v ↦ v ∷ values_of (a ++ b) ])
              leaves
            ≡ listing document (values_of b) (
                listing document
                  (elim slot [ freed ↦ values_of a | live v ↦ v ∷ values_of a ])
                  leaves)
      by_slot freed ih = ih leaves
      by_slot (live v) ih = ih (json_array_append_value leaves (document v))

  chain_documents-listing :
      (document : Sensor → Value) (c : List (Node Sensor)) (leaves : Value)
      → AllHold (λ s. Unit {0}) c
      → chain_documents json (λ s. done (document s)) c leaves
        ≡ done (listing document (values_of c) leaves)
  unfolding chain_documents
  chain_documents-listing document [] leaves h = refl
  chain_documents-listing document (n ∷ ns) leaves h =
      let (s, at, _) = h.0 in rw at (chain_documents-listing document ns _ h.1)

  cell_documents-listing :
      (document : Sensor → Value) (left : ℕ) (cs : List (List (Node Sensor))) (leaves : Value)
      → length cs ≡ left
      → AllHold (λ s. Unit {0}) (flatten cs)
      → cell_documents json (λ s. done (document s)) left cs leaves
        ≡ done (listing document (values_of (flatten cs)) leaves)
  unfolding cell_documents flatten
  cell_documents-listing document zero [] leaves e h = refl
  cell_documents-listing document zero (c ∷ cs) leaves e h = absurd (omega arith)
  cell_documents-listing document (suc left) [] leaves e h = absurd (omega arith)
  cell_documents-listing document (suc left) (c ∷ cs) leaves e h =
      let (here, there) = AllHold-append (λ s. Unit {0}) c (flatten cs) h in
      rw
        (
          chain_documents-listing document c leaves here,
          listing-append document c (flatten cs) leaves,
        )
        (cell_documents-listing document left cs _ (omega arith) there)

  values_of-find :
      (q : Bytes) (s : Sensor) (c : List (Node Sensor))
      → AllHold (λ s. Unit {0}) c
      → find q c ≡ some (live s)
      → Memᴰ s (values_of c)
  unfolding find
  values_of-find q s [] h e = cc
  values_of-find q s (n ∷ ns) h e =
      let (v, at, _) = h.0 in
      elim (Bool-cases (str_eq n.key q)) [
        | inl same ↦ let here : s ≡ v = ground arith in rw at (Memᴰ.head here)
        | inr differs ↦ rw at (Memᴰ.tail (values_of-find q s ns h.1 (rw (differs, find) at e)))
      ]

  -- When the table of sensors represents a map, reading the configuration is answered OK with the
  -- array of the documents of the sensors in the order of the table, every sensor of the map is
  -- among them, and the state is as it was.
  pub read_sensors_configuration-entries :
      (st : State) (t : Table Sensor) (f : Bytes → Option Sensor)
      → st.sensors_table ≡ some t
      → Represents t f
      → (read_sensors_configuration json st
          ≡ done (record {
            response = Response.ok;
            text = json.json_serialize_to_string (
                listing
                  (sensor_document json decimal)
                  (values_of (entries t))
                  json.json_value_init_array);
            state = st;
          }))
        × ((q : Bytes) (s : Sensor) → f q ≡ some s → Memᴰ s (values_of (entries t)))
  unfolding read_sensors_configuration table_documents
  read_sensors_configuration-entries st t f at r =
      let all = entries-AllHold (λ s. Unit {0}) r (λ q s e. tt) in
      (
        rw
            (
              at,
              cell_documents-listing (sensor_document json decimal) t.size t.array
                  json.json_value_init_array r.valid.sized all,
            )
            refl,
        λ q s there.
            values_of-find q s (entries t) all
              ((entries-get r.valid q).0 ∙ r.reads q ∙ ap (Option.map live) there),
      )
