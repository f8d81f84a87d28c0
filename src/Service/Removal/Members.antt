-- ===== src/Service/Removal/Members.antt =====
-- The two loops over a group's array, as one function on the list of its members.
use native.Mathlib.Nat.{add-zero}
use can_monitor.Base.{
  get_elem?, take-append-drop, ℕ, zero, suc, ◌+◌, ◌-◌, ◌≤◌, ◌<◌, List, [], ◌∷◌, ◌++◌, Bytes, some,
  true, false, str_eq, ◌==◌, set, take, drop, length, length-append, length-take, length-drop,
  length-set, take-drop, if◌then◌else◌, Bool-cases, done, ◌≡◌, ◌⊎◌, inl, inr, refl, sym, ◌∙◌, ap,
  arith,
}
use can_monitor.Base.Windows.{get_elem?-drop, take-set, drop-set, take-append, take-take}
use can_monitor.Service.Removal.{index_of, shift_left, leave_group}
use can_monitor.Tables.Sensorgroups.{Sensorgroup}
use mathlib.Core.List.{append_assoc}

-- The identifiers that count, and the list without the first occurrence of one.
abbrev pub members : Sensorgroup → List Bytes
members sg = take sg.sensorcount sg.sensor_list

unfoldable pub remove_first : Bytes → List Bytes → List Bytes
remove_first id [] = []
remove_first id (x ∷ xs) = if str_eq x id then xs else x ∷ remove_first id xs

position : Bytes → List Bytes → ℕ
position id [] = 0
position id (x ∷ xs) = let rest = position id xs in if str_eq x id then 0 else suc rest

position-le : (id : Bytes) (xs : List Bytes) → position id xs ≤ length xs
unfolding position
position-le id [] = omega arith
position-le id (x ∷ xs) = ground (arith, position-le id xs)

remove_at_position :
    (id : Bytes) (xs : List Bytes)
    → ((position id xs ≡ length xs) × (remove_first id xs ≡ xs))
      ⊎ ((position id xs < length xs)
          × (remove_first id xs ≡ take (position id xs) xs ++ drop (suc (position id xs)) xs))
unfolding position remove_first
remove_at_position id [] = inl (refl, refl)
remove_at_position id (x ∷ xs) = elim (Bool-cases (str_eq x id)) [
  | inl same ↦ rw same (inr (omega arith, refl))
  | inr other ↦ rw other (elim (remove_at_position id xs) [
    | inl h ↦ inl (ap suc h.0, ap (λ r. x ∷ r) h.1)
    | inr h ↦ inr (omega (arith, h.0), ap (λ r. x ∷ r) h.1)
  ])
]

one_more : (n : ℕ) → n + 1 ≡ suc n
one_more n = omega arith

index_of-suc :
    (id : Bytes) (left j : ℕ) (ids : List Bytes) (x : Bytes)
    → get_elem? ids j ≡ some x
    → index_of id (suc left) j ids
      ≡ elim (str_eq x id) [ true ↦ done j | false ↦ index_of id left (suc j) ids ]
unfolding index_of
index_of-suc id left j ids x h =
    rw (h, index_of)
      (ap (λ m. elim (str_eq x id) [ true ↦ done j | false ↦ index_of id left m ids ]) (one_more j))

index_of-position :
    (id : Bytes) (left j : ℕ) (ids : List Bytes)
    → j + left ≤ length ids
    → index_of id left j ids ≡ done (j + position id (take left (drop j ids)))
unfolding position
index_of-position id zero j ids h = unfold index_of in ap done (omega arith)
index_of-position id (suc left) j ids h =
    let (x, at, tail) = get_elem?-drop j ids (omega arith) in
    rw (index_of-suc id left j ids x at, tail)
      (elim (Bool-cases (str_eq x id)) [
        | inl same ↦ rw same (ap done (omega arith))
        | inr other ↦
            rw other (index_of-position id left (suc j) ids (omega arith) ∙ ap done (omega arith))
      ])

shift_left-suc :
    (left k : ℕ) (ids : List Bytes) (x : Bytes)
    → get_elem? ids (suc k) ≡ some x
    → shift_left (suc left) k ids ≡ shift_left left (suc k) (set ids k x)
unfolding shift_left
shift_left-suc left k ids x h =
    rw (one_more, shift_left, h) (ap (λ m. shift_left left m (set ids k x)) (one_more k))

shift_left-window :
    (left k : ℕ) (ids : List Bytes)
    → k + left < length ids
    → shift_left left k ids
      ≡ done (take k ids ++ (take left (drop (suc k) ids) ++ drop (k + left) ids))
shift_left-window zero k ids h =
    unfold shift_left in ap done (rw add-zero (sym (take-append-drop k ids)))
shift_left-window (suc left) k ids h =
    let (x, at, tail) = get_elem?-drop (suc k) ids (omega arith) in
    let s = set ids k x in
    shift_left-suc left k ids x at
    ∙ shift_left-window left (suc k) s (rw length-set (omega arith))
    ∙ ap done (
        rw (
          take-set k ids x (omega arith),
          drop-set (suc (suc k)) k ids x (omega arith),
          drop-set (suc k + left) k ids x (omega arith),
          append_assoc,
          tail,
          slide left k,
        ))
  where
    slide : (left k : ℕ) → suc k + left ≡ k + suc left
    slide left k = omega arith

-- The array after the shift: the members without the one at `k`, then what is left behind them.
module _ (ids : List Bytes) (n k : ℕ) (h : n ≤ length ids) (inside : k < n) where
  abbrev kept : List Bytes
  kept = take k ids ++ take (n - 1 - k) (drop (suc k) ids)

  length-kept : length kept ≡ n - 1
  length-kept =
      rw
        (
          length-append,
          length-take k ids (omega arith),
          length-take (n - 1 - k) (drop (suc k) ids) (omega (arith, length-drop (suc k) ids)),
        )
        (omega arith)

  kept_as_removal : take k (take n ids) ++ drop (suc k) (take n ids) ≡ kept
  kept_as_removal =
      rw (take-take k n ids (omega arith), ← take-drop (suc k) (n - 1 - k) n ids (omega arith))

  take-shifted :
      (rest : List Bytes)
      → take (n - 1) (take k ids ++ (take (n - 1 - k) (drop (suc k) ids) ++ rest)) ≡ kept
  take-shifted rest = rw (← append_assoc) (take-append (n - 1) kept rest (sym length-kept))

  length-shifted :
      (rest : List Bytes)
      → n - 1 ≤ length (take k ids ++ (take (n - 1 - k) (drop (suc k) ids) ++ rest))
  length-shifted rest = rw (← append_assoc, length-append) (omega (arith, length-kept))

-- A group whose array has room for its members loses the first occurrence of the identifier and
-- keeps its other members in their order; the array keeps room, and the other fields are as they
-- were.
pub leave_group-members :
    (id : Bytes) (sg : Sensorgroup)
    → sg.sensorcount ≤ length sg.sensor_list
    → (sg' : Sensorgroup) × (leave_group id sg ≡ done sg')
      × (members sg' ≡ remove_first id (members sg))
      × (sg'.sensorcount ≤ length sg'.sensor_list)
      × (sg' ≡ record sg { sensorcount = sg'.sensorcount; sensor_list = sg'.sensor_list })
unfolding leave_group
leave_group-members id sg h =
    let n = sg.sensorcount in
    let ids = sg.sensor_list in
    let ms = take n ids in
    let k = position id ms in
    let long : length ms ≡ n = length-take n ids h in
    let found : index_of id n 0 ids ≡ done k =
      index_of-position id n 0 ids (omega arith) ∙ ap done (omega arith) in
    elim (remove_at_position id ms) [
      | inl absent ↦
          let last : (k == n) ≡ true = ground arith in (sg, rw (found, last), sym absent.1, h, refl)
      | inr (inside, removed) ↦
          let left = n - 1 - k in
          let in_range : k < n = omega arith in
          let inner : (k == n) ≡ false = ground arith in
          let shifted = take k ids ++ (take left (drop (suc k) ids) ++ drop (k + left) ids) in
          let run : shift_left left k ids ≡ done shifted =
            shift_left-window left k ids (omega arith) in
          (
            record sg { sensor_list = shifted; sensorcount = n - 1 },
            rw (found, inner, run),
            take-shifted ids n k h in_range (drop (k + left) ids)
                ∙ sym (kept_as_removal ids n k h in_range)
                ∙ sym removed,
            length-shifted ids n k h in_range (drop (k + left) ids),
            refl,
          )
    ]
