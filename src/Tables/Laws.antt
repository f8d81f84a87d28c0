-- ===== src/Tables/Laws.antt =====
-- The invariant of a table's cells, and the effect of writing one chain.
use can_monitor.Base.{
  ℕ, ◌≤◌, ◌<◌, true, List, [], Option, some, Bytes, str_eq, str_eq_iff, if◌then◌else◌, length,
  get_or, length-set, get_or-set_self, get_or-set_ne, ◌≡◌, ◌≢◌, ◌⊎◌, ◌∙◌, arith,
}
use can_monitor.Tables.Chain.{count}
use can_monitor.Tables.Defs.{Slot, Node, Table, find, home, chain_of, set_chain, get}
use can_monitor.Tables.Hash.{hash-lt}
use native.Mathlib.Decide.{ℕ_discrete}

module _ {ℓ} {V : Type ℓ} where
  -- The array has `size` cells, one at least; a key stands in its own cell only, once at most.
  pub record IsValid (t : Table V) : Type ℓ where
    pub sized : length t.array ≡ t.size
    pub pos : 0 < t.size
    pub placed :
        (q : Bytes) (i : ℕ)
        → (count q (get_or t.array i []) ≤ 1) × (home t q ≢ i → count q (get_or t.array i []) ≡ 0)

  pub home-lt : {t : Table V} → IsValid t → (k : Bytes) → home t k < length t.array
  home-lt {t} v k = omega (arith, hash-lt (some k) t.size v.pos, v.sized)

  pub get_or-set_chain :
      {t : Table V}
      → IsValid t
      → (k : Bytes) (c : List (Node V)) (i : ℕ)
      → (home t k ≡ i → get_or (set_chain t k c).array i [] ≡ c)
        × (home t k ≢ i → get_or (set_chain t k c).array i [] ≡ get_or t.array i [])
  get_or-set_chain {t} v k c i = (
    λ e. rw (← e) (get_or-set_self t.array (home t k) c [] (home-lt v k)),
    λ n. get_or-set_ne t.array (home t k) i c [] n,
  )

  -- A write of one chain keeps the invariant, if keys stay as rare as they were.
  pub set_chain-IsValid :
      {t : Table V}
      → IsValid t
      → (k : Bytes) (c : List (Node V))
      → ((q : Bytes) → (count q c ≤ 1) × (str_eq k q ≡ true ⊎ (count q c ≤ count q (chain_of t k))))
      → IsValid (set_chain t k c)
  set_chain-IsValid {t} v k c few = record {
    sized = length-set t.array (home t k) c ∙ v.sized;
    pos = v.pos;
    placed = λ q i. elim (ℕ_discrete (home t k) i) [
      | yes e ↦
          rw ((get_or-set_chain v k c i).0 e) (ground (arith, few q, v.placed q i, str_eq_iff k q))
      | no n ↦ rw ((get_or-set_chain v k c i).1 n) (v.placed q i)
    ];
  }

  -- What is found in the table after that write.
  pub get-set_chain :
      {t : Table V}
      → IsValid t
      → (k : Bytes) (c : List (Node V)) (r : Option (Slot V)) (q : Bytes)
      → (find q c ≡ (if str_eq k q then r else find q (chain_of t k)))
      → get (some (set_chain t k c)) q ≡ (if str_eq k q then r else get (some t) q)
  unfolding get
  get-set_chain {t} v k c r q e = elim (ℕ_discrete (home t k) (home t q)) [
    | yes same ↦ rw ((get_or-set_chain v k c (home t q)).0 same) (rw same at e)
    | no n ↦ rw ((get_or-set_chain v k c (home t q)).1 n) (ground (arith, str_eq_iff k q))
  ]
