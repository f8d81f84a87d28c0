-- ===== src/Tables/Entries.antt =====
-- The nodes in the order in which the loops over a table meet them, cell by cell.
use can_monitor.Base.{
  ap, ℕ, zero, suc, ◌≤◌, List, [], ◌∷◌, ◌++◌, Option, some, Bytes, str_eq_refl, take-length, get_or,
  flatten, Option-cases, done, ◌≡◌, ◌≢◌, refl, arith,
}
use can_monitor.Tables.Chain.{count, find-eq-none, find-append, count-append}
use can_monitor.Tables.Defs.{
  Slot, live, freed, Node, Table, home, find, get, free_slot, free_chain, free_chains, free_table,
}
use can_monitor.Tables.Laws.{IsValid}
use can_monitor.Tables.Map.{Represents}
use mathlib.Core.Option.{or_else}

module _ {ℓ} {V : Type ℓ} where
  abbrev pub entries : Table V → List (Node V)
  entries t = flatten t.array

  count-flatten_nowhere :
      (q : Bytes) (cs : List (List (Node V)))
      → ((i : ℕ) → count q (get_or cs i []) ≡ 0)
      → count q (flatten cs) ≡ 0
  unfolding flatten count
  count-flatten_nowhere q [] h = refl
  count-flatten_nowhere q (c ∷ cs) h =
      rw (count-append, h 0, count-flatten_nowhere q cs (λ i. h (suc i)))

  -- A key that stands in no cell but one is found in the whole as in that cell.
  flatten_at :
      (q : Bytes) (cs : List (List (Node V))) (j : ℕ)
      → ((i : ℕ) → j ≢ i → count q (get_or cs i []) ≡ 0)
      → (find q (flatten cs) ≡ find q (get_or cs j []))
        × (count q (flatten cs) ≡ count q (get_or cs j []))
  unfolding flatten or_else
  flatten_at q [] j h = (refl, refl)
  flatten_at q (c ∷ cs) zero h =
      let rest = count-flatten_nowhere q cs (λ i. h (suc i) (omega arith)) in
      rw (find-append, count-append, rest, find-eq-none q (flatten cs) rest) (ground arith)
  flatten_at q (c ∷ cs) (suc j) h =
      let here = h 0 (omega arith) in
      let (found, counted) = flatten_at q cs j (λ i n. h (suc i) (omega arith)) in
      rw (find-append, count-append, here, find-eq-none q c here) (found, omega arith)

  -- The loops over a valid table meet each key at most once, and the node that they meet is the
  -- one that the lookup finds.
  pub entries-get :
      {t : Table V}
      → IsValid t
      → (q : Bytes) → (find q (entries t) ≡ get (some t) q) × (count q (entries t) ≤ 1)
  unfolding get
  entries-get {t} v q =
      let (found, counted) = flatten_at q t.array (home t q) (λ i n. (v.placed q i).1 n) in
      (found, rw counted (v.placed q (home t q)).0)

  -- All values are live and have the property.
  abbrev pub AllHold {κ} : (V → Type κ) → List (Node V) → Type (ℓ ⊔ κ)
  AllHold P [] = Unit
  AllHold P (n ∷ ns) = ((v : V) × (n.slot ≡ live v) × P v) × AllHold P ns

  module _ {κ} (P : V → Type κ) where
    AllHold-find :
        (c : List (Node V))
        → ((q : Bytes)
            → (count q c ≤ 1)
              × (find q c ≢ some freed)
              × ((v : V) → find q c ≡ some (live v) → P v))
        → AllHold P c
    unfolding count find
    AllHold-find [] h = tt
    AllHold-find (n ∷ ns) h = (head_holds n.slot refl, AllHold-find ns tail_holds)
      where
        head_holds : (s : Slot V) → n.slot ≡ s → (v : V) × (n.slot ≡ live v) × P v
        head_holds (live v) e = (v, e, (h n.key).2 v (rw (str_eq_refl n.key) (ap some e)))
        head_holds freed e = absurd ((h n.key).1 (rw (str_eq_refl n.key) (ap some e)))

        tail_holds :
            (q : Bytes)
            → (count q ns ≤ 1)
              × (find q ns ≢ some freed)
              × ((v : V) → find q ns ≡ some (live v) → P v)
        tail_holds q = (
          ground (arith, (h q).0),
          λ bad. ground (arith, (h q).0, (h q).1, find-eq-none q ns),
          λ v e. (h q).2 v (ground (arith, (h q).0, find-eq-none q ns)),
        )

    -- What holds of every value of the map holds of every value that a loop meets.
    pub entries-AllHold :
        {t : Table V} {f : Bytes → Option V}
        → Represents t f
        → ((q : Bytes) (v : V) → f q ≡ some v → P v)
        → AllHold P (entries t)
    entries-AllHold {t} {f} r h = AllHold-find (entries t) λ q.
        let (found, once) = entries-get r.valid q in
        (
          once,
          λ bad. ground (arith, r.reads q, Option-cases (f q)),
          λ v e. h q v (ground (arith, r.reads q, Option-cases (f q))),
        )

    pub AllHold-append : (a b : List (Node V)) → AllHold P (a ++ b) → AllHold P a × AllHold P b
    AllHold-append [] b h = (tt, h)
    AllHold-append (n ∷ a) b h = let (l, r) = AllHold-append a b h.1 in ((h.0, l), r)

    free_chain-done : (c : List (Node V)) → AllHold P c → free_chain c ≡ done tt
    unfolding free_chain
    free_chain-done [] h = refl
    free_chain-done (n ∷ ns) h = rw (h.0.1, free_slot) (free_chain-done ns h.1)

    free_chains-done :
        (cs : List (List (Node V))) → AllHold P (flatten cs) → free_chains cs ≡ done tt
    unfolding free_chains flatten
    free_chains-done [] h = refl
    free_chains-done (c ∷ cs) h =
        let (l, r) = AllHold-append c (flatten cs) h in
        rw (free_chain-done c l) (free_chains-done cs r)

  -- Freeing a table that represents a map frees nothing twice.
  pub free_table-done :
      {t : Table V} {f : Bytes → Option V} → Represents t f → free_table (some t) ≡ done tt
  unfolding free_table
  free_table-done {t} r =
      rw (← r.valid.sized, take-length)
        (free_chains-done (λ v. Unit {0}) t.array (entries-AllHold (λ v. Unit {0}) r (λ q v e. tt)))
