-- ===== src/Tables/Defs.antt =====
-- The chained hash table that hashtable_sensors.c and hashtable_sensorgroups.c of
-- src/CanMonitor/implementation/tables write out twice, once for each type of value.
-- A list of nodes is a chain; a pointer to a table is `none` where it is NULL.
use can_monitor.Base.{
  ℕ, Bool, true, false, not, List, [], ◌∷◌, Option, none, some, Bytes, str_eq, ltb, get_or, set,
  take, replicate, Outcome, done, fault, ◌>>=◌, ◌>>◌, if◌then◌else◌,
}
use can_monitor.Tables.Hash.{hash}

-- What a node's value pointer refers to: a value, or memory that has been given to `free`.
pub data Slot {ℓ} (V : Type ℓ) : Type ℓ where
  live : V → Slot V
  freed : Slot V

pub record Node {ℓ} (V : Type ℓ) : Type ℓ where
  pub key : Bytes
  pub slot : Slot V

pub record Table {ℓ} (V : Type ℓ) : Type ℓ where
  pub size : ℕ
  pub array : List (List (Node V))

module _ {ℓ} {V : Type ℓ} where
  -- The two flags say whether each `malloc` succeeds.
  unfoldable pub create : ℕ → Bool → Bool → Option (Table V)
  create size table_ok array_ok =
      if ltb size 1
      then none
      else if not table_ok
      then none
      else if not array_ok
      then none
      else some (record { size = size; array = replicate size [] })

  -- The search loop over a chain: the value pointer of the first node with the key.
  unfoldable pub find : Bytes → List (Node V) → Option (Slot V)
  find key [] = none
  find key (n ∷ ns) = if str_eq n.key key then some n.slot else find key ns

  -- `free` of a value; a second one is undefined.
  unfoldable pub free_slot : Slot V → Outcome (Unit {0})
  free_slot (live v) = done tt
  free_slot freed = fault

  -- `tmp->value = node->value; free(node->value)` at the first node with the key: what the node
  -- points to from then on has been freed.
  unfoldable pub overwrite : Bytes → List (Node V) → List (Node V)
  overwrite key [] = []
  overwrite key (n ∷ ns) =
      if str_eq n.key key then record n { slot = freed } ∷ ns else n ∷ overwrite key ns

  -- The chain in the cell of a key.
  abbrev pub home : Table V → Bytes → ℕ
  home t key = hash (some key) t.size

  abbrev pub chain_of : Table V → Bytes → List (Node V)
  chain_of t key = get_or t.array (home t key) []

  abbrev pub set_chain : Table V → Bytes → List (Node V) → Table V
  set_chain t key c = record t { array = set t.array (home t key) c }

  unfoldable pub insert_or_update : Table V → Node V → List (Node V) → Outcome (Table V)
  unfolding find overwrite free_slot
  insert_or_update t node [] = done (set_chain t node.key (node ∷ []))
  insert_or_update t node (n ∷ ns) = elim (find node.key (n ∷ ns)) [
    | none ↦ done (set_chain t node.key (node ∷ n ∷ ns))
    | some old ↦ free_slot old >> done (set_chain t node.key (overwrite node.key (n ∷ ns)))
  ]

  unfoldable pub node_handler : Table V → Node V → Outcome (Table V)
  unfolding insert_or_update
  node_handler t node = insert_or_update t node (chain_of t node.key)

  -- The flag says whether the `malloc` of the node succeeds; the number is the result.
  unfoldable pub put : Bool → Option (Table V) → Bytes → V → Outcome (ℕ × Option (Table V))
  unfolding node_handler
  put node_ok none key v = done (1, none)
  put false (some t) key v = done (1, some t)
  put true (some t) key v = do
    t' ← node_handler t (record { key = key; slot = live v })
    done (0, some t')

  unfoldable pub get : Option (Table V) → Bytes → Option (Slot V)
  unfolding find
  get none key = none
  get (some t) key = find key (chain_of t key)

  -- The first node with the key is unlinked: its value pointer, and the chain that is left.
  unfoldable pub unlink : Bytes → List (Node V) → Option (Slot V) × List (Node V)
  unlink key [] = (none, [])
  unlink key (n ∷ ns) =
      let rest = unlink key ns in
      if str_eq n.key key then (some n.slot, ns) else (rest.0, n ∷ rest.1)

  unfoldable pub delete : Option (Table V) → Bytes → Option (Slot V) × Option (Table V)
  unfolding unlink
  delete none key = (none, none)
  delete (some t) key = let r = unlink key (chain_of t key) in (r.0, some (set_chain t key r.1))

  unfoldable pub free_chain : List (Node V) → Outcome (Unit {0})
  unfolding free_slot
  free_chain [] = done tt
  free_chain (n ∷ ns) = do free_slot n.slot; free_chain ns

  unfoldable pub free_chains : List (List (Node V)) → Outcome (Unit {0})
  unfolding free_chain
  free_chains [] = done tt
  free_chains (c ∷ cs) = do free_chain c; free_chains cs

  -- Every node, its key and its value are freed, then the array and the table.
  unfoldable pub free_table : Option (Table V) → Outcome (Unit {0})
  unfolding free_chains
  free_table none = done tt
  free_table (some t) = free_chains (take t.size t.array)
