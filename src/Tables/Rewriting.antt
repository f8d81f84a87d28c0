-- ===== src/Tables/Rewriting.antt =====
-- Loops that write the values of a table in place: keys, cells and chains stay, every live value
-- becomes another, and the table is a finite map as before.
use can_monitor.Base.{
  ℕ, zero, suc, List, [], ◌∷◌, Option, none, some, Bytes, Bool-cases, str_eq, length, get_or, ◌≡◌,
  ◌⊎◌, inl, inr, refl, sym, ◌∙◌, ap,
}
use can_monitor.Tables.Chain.{count}
use can_monitor.Tables.Defs.{Slot, live, Node, Table, find, get, home}
use can_monitor.Tables.Map.{Represents}
use mathlib.Core.Option
use mathlib.Core.Path.{subst}

module _ {V : Type 0} (R : V → V → Type 0) where
  -- A node's key is as it was, and its values are related.
  pub record Rewritten (n n' : Node V) : Type 0 where
    pub key : n'.key ≡ n.key
    pub old : V
    pub new : V
    pub before : n.slot ≡ live old
    pub after : n'.slot ≡ live new
    pub related : R old new

  pub data RewrittenChain : List (Node V) → List (Node V) → Type 0 where
    no_nodes : RewrittenChain [] []
    also_node :
        {n n' : Node V} {ns ns' : List (Node V)}
        → Rewritten n n'
        → RewrittenChain ns ns'
        → RewrittenChain (n ∷ ns) (n' ∷ ns')

  pub data RewrittenCells : List (List (Node V)) → List (List (Node V)) → Type 0 where
    no_chains : RewrittenCells [] []
    also_chain :
        {c c' : List (Node V)} {cs cs' : List (List (Node V))}
        → RewrittenChain c c'
        → RewrittenCells cs cs'
        → RewrittenCells (c ∷ cs) (c' ∷ cs')

  -- What a lookup finds before and after.
  abbrev Found : Option (Slot V) → Option (Slot V) → Type 0
  Found o o' =
      ((o ≡ none) × (o' ≡ none))
      ⊎ ((v : V) × (v' : V) × (o ≡ some (live v)) × (o' ≡ some (live v')) × R v v')

  find-Found :
      (q : Bytes) {c c' : List (Node V)} → RewrittenChain c c' → Found (find q c) (find q c')
  unfolding find
  find-Found q no_nodes = inl (refl, refl)
  find-Found q (also_node {n} r rs) = elim (Bool-cases (str_eq n.key q)) [
    | inl same ↦
        inr (r.old, r.new, rw (same, r.before) refl, rw (r.key, same, r.after) refl, r.related)
    | inr other ↦ rw (r.key, other) (find-Found q rs)
  ]

  count-Rewritten :
      (q : Bytes) {c c' : List (Node V)} → RewrittenChain c c' → count q c' ≡ count q c
  unfolding count
  count-Rewritten q no_nodes = refl
  count-Rewritten q (also_node r rs) = rw (r.key, count-Rewritten q rs) refl

  get_or-Rewritten :
      {cs cs' : List (List (Node V))}
      → RewrittenCells cs cs'
      → (i : ℕ) → RewrittenChain (get_or cs i []) (get_or cs' i [])
  get_or-Rewritten no_chains i = no_nodes
  get_or-Rewritten (also_chain r rs) zero = r
  get_or-Rewritten (also_chain r rs) (suc i) = get_or-Rewritten rs i

  length-Rewritten :
      {cs cs' : List (List (Node V))} → RewrittenCells cs cs' → length cs' ≡ length cs
  length-Rewritten no_chains = refl
  length-Rewritten (also_chain r rs) = ap suc (length-Rewritten rs)

  live_value : (o : Option V) (v : V) → Option.map live o ≡ some (live v) → o ≡ some v
  live_value none v e = cc
  live_value (some x) v e = cc

  abbrev value_of : Option (Slot V) → Option V
  value_of (some (live v)) = some v
  value_of _ = none

  -- The map after the loops.
  pub rewritten_map : Table V → Bytes → Option V
  rewritten_map t q = value_of (get (some t) q)

  module _ {t : Table V} {f : Bytes → Option V} (r : Represents t f) (cells : List (List (Node V)))
      (w : RewrittenCells t.array cells) where
    get-Found : (q : Bytes) → Found (get (some t) q) (get (some (record t { array = cells })) q)
    unfolding get
    get-Found q = find-Found q (get_or-Rewritten w (home t q))

    pub rewriting-Represents :
        Represents (record t { array = cells }) (rewritten_map (record t { array = cells }))
    unfolding rewritten_map
    rewriting-Represents = record {
      valid = record {
        sized = length-Rewritten w ∙ r.valid.sized;
        pos = r.valid.pos;
        placed = λ q i. rw (count-Rewritten q (get_or-Rewritten w i)) (r.valid.placed q i);
      };
      reads =
          λ q. elim (get-Found q) [ inl (e, e') ↦ rw e' refl | inr (v, v', e, e', h) ↦ rw e' refl ];
    }

    -- Each value of the map comes from one that was under the key.
    pub rewriting-related :
        (q : Bytes) (v' : V)
        → rewritten_map (record t { array = cells }) q ≡ some v'
        → (v : V) × (f q ≡ some v) × R v v'
    unfolding rewritten_map
    rewriting-related q v' there = elim (get-Found q) [
      | inl (e, e') ↦ cc (rw e' at there)
      | inr (v, v₁, e, e', h) ↦
          let same : v₁ ≡ v' = cc in
          let there_before : f q ≡ some v = live_value (f q) v (sym (r.reads q) ∙ e) in
          (v, there_before, subst (R v) same h)
    ]
