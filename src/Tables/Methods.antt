-- ===== src/Tables/Methods.antt =====
-- Each operation of the table against a finite map from keys to value pointers.
use can_monitor.Base.{
  ℕ, ◌<◌, true, false, Bool, List, [], ◌∷◌, Option, none, some, Bytes, str_eq, if◌then◌else◌,
  replicate, length-replicate, get_or-replicate, done, fault, ◌≡◌, ◌⊎◌, inr, refl, arith,
}
use can_monitor.Tables.Chain.{
  count, count-cons_fresh, find-overwrite, count-overwrite, find-unlink, count-unlink-le,
  unlink-find,
}
use can_monitor.Tables.Defs.{
  Slot, live, freed, Node, Table, create, find, overwrite, home, chain_of, set_chain,
  insert_or_update, put, get, unlink, delete,
}
use can_monitor.Tables.Laws.{IsValid, set_chain-IsValid, get-set_chain}
use native.Mathlib.Nat.{le_refl, le_trans}

module _ {ℓ} {V : Type ℓ} where
  -- `t'` is valid, and reads as `t` with `r` under `k`.
  pub record Reads (t t' : Table V) (k : Bytes) (r : Option (Slot V)) : Type ℓ where
    pub valid : IsValid t'
    pub size : t'.size ≡ t.size
    pub reads : (q : Bytes) → get (some t') q ≡ (if str_eq k q then r else get (some t) q)

  pub create-IsValid :
      (size : ℕ)
      → 0 < size
      → (t : Table V) × (create size true true ≡ some t)
        × (t.size ≡ size)
        × IsValid t
        × ((q : Bytes) → get (some t) q ≡ none)
  unfolding create get count find
  create-IsValid size h = (
    record { size = size; array = replicate size [] },
    ground arith,
    refl,
    record {
      sized = length-replicate size [];
      pos = h;
      placed = λ q i. rw get_or-replicate (omega arith, λ n. refl);
    },
    λ q. rw get_or-replicate,
  )

  pub create-eq-none :
      (size : ℕ) (a b : Bool)
      → (size ≡ 0) ⊎ (a ≡ false) ⊎ (b ≡ false)
      → create {V = V} size a b ≡ none
  unfolding create
  create-eq-none size a b h = ground arith

  put_into_chain :
      (t : Table V) (n : Node V) (c : List (Node V))
      → find n.key c ≡ none
      → insert_or_update t n c ≡ done (set_chain t n.key (n ∷ c))
  unfolding insert_or_update
  put_into_chain t n [] h = refl
  put_into_chain t n (m ∷ c) h = rw (h, insert_or_update)

  put_over_chain :
      (t : Table V) (n : Node V) (c : List (Node V)) (old : Slot V)
      → find n.key c ≡ some old
      → insert_or_update t n c
        ≡ elim old [ live v ↦ done (set_chain t n.key (overwrite n.key c)) | freed ↦ fault ]
  unfolding insert_or_update
  put_over_chain t n [] old h = cc
  put_over_chain t n (m ∷ c) (live v) h = rw (h, insert_or_update)
  put_over_chain t n (m ∷ c) freed h = rw (h, insert_or_update)

  module _ {t : Table V} (v : IsValid t) (k : Bytes) where
    -- A new key: the value is found under it, and nothing else has changed.
    pub put_fresh :
        (x : V)
        → get (some t) k ≡ none
        → (t' : Table V) × (put true (some t) k x ≡ done (0, some t'))
          × Reads t t' k (some (live x))
    unfolding put get
    put_fresh x h =
        let n : Node V = record { key = k; slot = live x } in
        let c = n ∷ chain_of t k in
        (
          set_chain t k c,
          rw (put_into_chain t n (chain_of t k) h),
          record {
            valid =
                set_chain-IsValid v k c λ q. count-cons_fresh n (chain_of t k) q h (v.placed q _).0;
            size = refl;
            reads = λ q. get-set_chain v k c (some (live x)) q (unfold find in refl);
          },
        )

    -- In a valid table, putting a key that holds a live value reports success, and leaves under
    -- the key a pointer that has been freed; all other keys read as before.
    pub put_present :
        (x old : V)
        → get (some t) k ≡ some (live old)
        → (t' : Table V) × (put true (some t) k x ≡ done (0, some t')) × Reads t t' k (some freed)
    unfolding put get
    put_present x old h =
        let n : Node V = record { key = k; slot = live x } in
        let c = overwrite k (chain_of t k) in
        (
          set_chain t k c,
          rw (put_over_chain t n (chain_of t k) (live old) h),
          record {
            valid =
                set_chain-IsValid v k c λ q. rw count-overwrite ((v.placed q _).0, inr (le_refl _));
            size = refl;
            reads = λ q.
                get-set_chain v k c (some freed) q (find-overwrite k q (chain_of t k) (live old) h);
          },
        )

    -- A second update of a key frees its value twice.
    pub put_freed : (x : V) → get (some t) k ≡ some freed → put true (some t) k x ≡ fault
    unfolding put get
    put_freed x h = rw (put_over_chain t (record { key = k; slot = live x }) (chain_of t k) freed h)

    -- In a valid table, a deletion returns what was under the key, leaves the key absent and the
    -- table valid, and all other keys read as before.
    pub delete_lem :
        (t' : Table V) × (delete (some t) k ≡ (get (some t) k, some t')) × Reads t t' k none
    unfolding delete get
    delete_lem =
        let c = (unlink k (chain_of t k)).1 in
        (
          set_chain t k c,
          rw unlink-find,
          record {
            valid = set_chain-IsValid v k c λ q.
                let le = (v.placed q (home t k)).0 in
                let fewer = count-unlink-le k q (chain_of t k) in (le_trans fewer le, inr fewer);
            size = refl;
            reads =
                λ q. get-set_chain v k c none q (find-unlink k q (chain_of t k) (v.placed q _).0);
          },
        )
