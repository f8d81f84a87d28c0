-- ===== src/Tables/Chain.antt =====
-- Laws of one chain: what the search loop finds after a chain is extended, overwritten, cut.
use can_monitor.Base.{
  ℕ, ◌+◌, ◌≤◌, Bool, true, false, List, [], ◌∷◌, ◌++◌, none, some, Bytes, str_eq, str_eq_iff,
  Bool-cases, ◌⊎◌, if◌then◌else◌, ◌≡◌, refl, arith,
}
use can_monitor.Tables.Defs.{Node, Slot, freed, find, overwrite, unlink}
use mathlib.Core.Option.{or_else}

abbrev pub to_nat : Bool → ℕ
to_nat true = 1
to_nat false = 0

module _ {ℓ} {V : Type ℓ} where
  -- How many nodes have the key.
  unfoldable pub count : Bytes → List (Node V) → ℕ
  count q [] = 0
  count q (n ∷ ns) = to_nat (str_eq n.key q) + count q ns

  pub find-eq-none : (q : Bytes) (c : List (Node V)) → count q c ≡ 0 → find q c ≡ none
  unfolding count find
  find-eq-none q [] h = refl
  find-eq-none q (n ∷ ns) h = ground (arith, find-eq-none q ns)

  pub count-eq-zero : (q : Bytes) (c : List (Node V)) → find q c ≡ none → count q c ≡ 0
  unfolding count find
  count-eq-zero q [] h = refl
  count-eq-zero q (n ∷ ns) h = ground (arith, count-eq-zero q ns)

  -- A node with a new key makes no key occur twice.
  pub count-cons_fresh :
      (n : Node V) (c : List (Node V)) (q : Bytes)
      → find n.key c ≡ none
      → count q c ≤ 1
      → (count q (n ∷ c) ≤ 1) × (str_eq n.key q ≡ true ⊎ (count q (n ∷ c) ≤ count q c))
  unfolding count
  count-cons_fresh n c q h le =
      ground (arith, count-eq-zero n.key c h, str_eq_iff n.key q, Bool-cases (str_eq n.key q))

  pub find-append :
      (q : Bytes) (a b : List (Node V)) → find q (a ++ b) ≡ or_else (find q a) (find q b)
  unfolding find or_else
  find-append q [] b = refl
  find-append q (n ∷ a) b = rw (find-append q a b) (ground arith)

  pub count-append : (q : Bytes) (a b : List (Node V)) → count q (a ++ b) ≡ count q a + count q b
  unfolding count
  count-append q [] b = omega arith
  count-append q (n ∷ a) b = omega (arith, count-append q a b)

  module _ (k q : Bytes) where
    pub find-overwrite :
        (c : List (Node V)) (s : Slot V)
        → find k c ≡ some s
        → find q (overwrite k c) ≡ (if str_eq k q then some freed else find q c)
    unfolding find overwrite
    find-overwrite [] s h = ground arith
    find-overwrite (n ∷ ns) s h =
        ground (arith, find-overwrite ns s, str_eq_iff n.key k, str_eq_iff n.key q, str_eq_iff k q)

    pub count-overwrite : (c : List (Node V)) → count q (overwrite k c) ≡ count q c
    unfolding count overwrite
    count-overwrite [] = refl
    count-overwrite (n ∷ ns) = ground (arith, count-overwrite ns)

    pub find-unlink :
        (c : List (Node V))
        → count q c ≤ 1
        → find q (unlink k c).1 ≡ (if str_eq k q then none else find q c)
    unfolding find unlink count
    find-unlink [] h = ground arith
    find-unlink (n ∷ ns) h = ground (
      arith,
      find-unlink ns,
      find-eq-none q ns,
      str_eq_iff n.key k,
      str_eq_iff n.key q,
      str_eq_iff k q,
    )

    pub count-unlink-le : (c : List (Node V)) → count q (unlink k c).1 ≤ count q c
    unfolding count unlink
    count-unlink-le [] = omega arith
    count-unlink-le (n ∷ ns) = ground (arith, count-unlink-le ns)

  pub unlink-find : (k : Bytes) (c : List (Node V)) → (unlink k c).0 ≡ find k c
  unfolding find unlink
  unlink-find k [] = refl
  unlink-find k (n ∷ ns) = ground (arith, unlink-find k ns)
