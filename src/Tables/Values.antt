-- ===== src/Tables/Values.antt =====
-- Rewriting every live value in place: keys, cells and chains stay, and the map is composed
-- with the change.
use can_monitor.Base.{
  ℕ, zero, suc, List, [], ◌∷◌, Option, none, some, Bytes, length, get_or, ◌≡◌, refl, ◌∙◌, ap, arith,
}
use can_monitor.Tables.Chain.{count}
use can_monitor.Tables.Defs.{Slot, live, freed, Node, Table, find, get, home}
use can_monitor.Tables.Map.{Represents}
use mathlib.Core.Option

module _ {ℓ} {V : Type ℓ} (g : V → V) where
  abbrev pub map_slot : Slot V → Slot V
  map_slot (live v) = live (g v)
  map_slot freed = freed

  abbrev pub map_chain : List (Node V) → List (Node V)
  map_chain [] = []
  map_chain (n ∷ ns) = record n { slot = map_slot n.slot } ∷ map_chain ns

  abbrev pub map_chains : List (List (Node V)) → List (List (Node V))
  map_chains [] = []
  map_chains (c ∷ cs) = map_chain c ∷ map_chains cs

  abbrev pub map_table : Table V → Table V
  map_table t = record t { array = map_chains t.array }

  find-map_chain :
      (q : Bytes) (c : List (Node V)) → find q (map_chain c) ≡ Option.map map_slot (find q c)
  unfolding find
  find-map_chain q [] = refl
  find-map_chain q (n ∷ ns) = ground (arith, find-map_chain q ns)

  count-map_chain : (q : Bytes) (c : List (Node V)) → count q (map_chain c) ≡ count q c
  unfolding count
  count-map_chain q [] = refl
  count-map_chain q (n ∷ ns) = omega (arith, count-map_chain q ns)

  get_or-map_chains :
      (cs : List (List (Node V))) (i : ℕ) → get_or (map_chains cs) i [] ≡ map_chain (get_or cs i [])
  get_or-map_chains [] i = refl
  get_or-map_chains (c ∷ cs) zero = refl
  get_or-map_chains (c ∷ cs) (suc i) = get_or-map_chains cs i

  length-map_chains : (cs : List (List (Node V))) → length (map_chains cs) ≡ length cs
  length-map_chains [] = refl
  length-map_chains (c ∷ cs) = ap suc (length-map_chains cs)

  pub map_table-Represents :
      {t : Table V} {f : Bytes → Option V}
      → Represents t f
      → Represents (map_table t) (λ q. Option.map g (f q))
  map_table-Represents {t} {f} r = record {
    valid = record {
      sized = length-map_chains t.array ∙ r.valid.sized;
      pos = r.valid.pos;
      placed = λ q i. rw (get_or-map_chains, count-map_chain) (r.valid.placed q i);
    };
    reads = λ q. get_map q ∙ ap (Option.map map_slot) (r.reads q) ∙ slots (f q);
  }
    where
      get_map : (q : Bytes) → get (some (map_table t)) q ≡ Option.map map_slot (get (some t) q)
      get_map q =
          unfold get in rw get_or-map_chains (find-map_chain q (get_or t.array (home t q) []))

      slots :
          (o : Option V)
          → Option.map map_slot (Option.map live o) ≡ Option.map live (Option.map g o)
      slots none = refl
      slots (some v) = refl
