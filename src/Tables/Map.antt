-- ===== src/Tables/Map.antt =====
-- A table whose nodes all hold live values, as a partial function from keys to values, and the
-- operations of a whole history against it.
use can_monitor.Base.{
  ℕ, ◌<◌, true, List, [], ◌∷◌, Option, none, some, Bytes, str_eq, if◌then◌else◌, Option-cases,
  Outcome, done, ◌>>=◌, ◌≡◌, inl, inr, refl, sym, ◌∙◌, ap, arith,
}
use can_monitor.Tables.Defs.{live, Table, create, put, get, delete}
use can_monitor.Tables.Laws.{IsValid}
use can_monitor.Tables.Methods.{create-IsValid, put_fresh, delete_lem}
use mathlib.Core.Option
use mathlib.Core.Path.{subst}

module _ {ℓ} {V : Type ℓ} where
  -- The map reads a live value under a key, or nothing.
  pub record Represents (t : Table V) (f : Bytes → Option V) : Type ℓ where
    pub valid : IsValid t
    pub reads : (q : Bytes) → get (some t) q ≡ Option.map live (f q)

  abbrev pub with_key : (Bytes → Option V) → Bytes → V → Bytes → Option V
  with_key f k v q = if str_eq k q then some v else f q

  abbrev pub without_key : (Bytes → Option V) → Bytes → Bytes → Option V
  without_key f k q = if str_eq k q then none else f q

  pub create-Represents :
      (size : ℕ)
      → 0 < size
      → (t : Table V) × (create size true true ≡ some t) × Represents t (λ q. none)
  create-Represents size h =
      let (t, e, _, v, r) = create-IsValid {V = V} size h in
      (t, e, record { valid = v; reads = λ q. r q })

  module _ {t : Table V} {f : Bytes → Option V} (h : Represents t f) (k : Bytes) where
    pub put-Represents :
        (v : V)
        → f k ≡ none
        → (t' : Table V) × (put true (some t) k v ≡ done (0, some t'))
          × Represents t' (with_key f k v)
    put-Represents v absent =
        let (t', e, r) = put_fresh h.valid k v (h.reads k ∙ ap (Option.map live) absent) in
        (t', e, record { valid = r.valid; reads = λ q. ground (arith, r.reads q, h.reads q) })

    pub delete-Represents :
        (t' : Table V) × (delete (some t) k ≡ (Option.map live (f k), some t'))
        × Represents t' (without_key f k)
    delete-Represents =
        let (t', e, r) = delete_lem h.valid k in
        (
          t',
          e ∙ ap (λ s. (s, some t')) (h.reads k),
          record { valid = r.valid; reads = λ q. ground (arith, r.reads q, h.reads q) },
        )

-- A history of calls, and what the callers of the tables rely on: a key is put only while it is
-- absent.
pub data Op {ℓ} (V : Type ℓ) : Type ℓ where
  put_op : Bytes → V → Op V
  delete_op : Bytes → Op V

module _ {ℓ} {V : Type ℓ} where
  unfoldable pub run_ops : List (Op V) → Option (Table V) → Outcome (Option (Table V))
  run_ops [] t = done t
  run_ops (put_op k v ∷ ops) t = do r ← put true t k v; run_ops ops r.1
  run_ops (delete_op k ∷ ops) t = run_ops ops (delete t k).1

  -- The same history on maps; `none` where a key is put that is there.
  unfoldable pub map_ops : List (Op V) → (Bytes → Option V) → Option (Bytes → Option V)
  map_ops [] f = some f
  map_ops (put_op k v ∷ ops) f = elim (f k) [ none ↦ map_ops ops (with_key f k v) | some _ ↦ none ]
  map_ops (delete_op k ∷ ops) f = map_ops ops (without_key f k)

  some_inj : {f g : Bytes → Option V} → some f ≡ some g → f ≡ g
  some_inj e = cc

  run_ops-Represents :
      (ops : List (Op V)) (t : Table V) (f g : Bytes → Option V)
      → Represents t f
      → map_ops ops f ≡ some g
      → (t' : Table V) × (run_ops ops (some t) ≡ done (some t')) × Represents t' g
  unfolding run_ops map_ops
  run_ops-Represents [] t f g h e = (t, refl, subst (Represents t) (some_inj e) h)
  run_ops-Represents (put_op k v ∷ ops) t f g h e = elim (Option-cases (f k)) [
    | inl absent ↦
        let (t', p, h') = put-Represents h k v absent in
        rw p (run_ops-Represents ops t' (with_key f k v) g h' (rw (absent, map_ops) at e))
    | inr (old, there) ↦ cc (rw (there, map_ops) at e)
  ]
  run_ops-Represents (delete_op k ∷ ops) t f g h e =
      let (t', p, h') = delete-Represents h k in
      rw p (run_ops-Represents ops t' (without_key f k) g h' e)

  -- From an empty table of at least one cell, a history of puts and deletes that puts only absent
  -- keys does not fault, and the table ends as a finite map does under the same history.
  pub create-run_ops-Represents :
      (size : ℕ) (ops : List (Op V)) (g : Bytes → Option V)
      → 0 < size
      → map_ops ops (λ q. none) ≡ some g
      → (t' : Table V) × (run_ops ops (create size true true) ≡ done (some t')) × Represents t' g
  create-run_ops-Represents size ops g h e =
      let (t, p, r) = create-Represents {V = V} size h in
      subst (λ o. (t' : Table V) × (run_ops ops o ≡ done (some t')) × Represents t' g) (sym p)
        (run_ops-Represents ops t (λ q. none) g r e)
