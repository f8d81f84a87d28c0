-- ===== src/Frame/Cast.antt =====
-- `var_cast` of src/CanMonitor/CanMonitor.c: the text of a value, by the name of its type. The
-- target is little-endian, so a narrower integer is the low bytes of the 64-bit value.
use can_monitor.Base.{
  Bool-cases, inl, inr, ltb, ℕ, zero, suc, ◌+◌, ◌-◌, ◌*◌, ◌/◌, ◌%◌, ◌^◌, ◌≤◌, ◌<◌, List, [], ◌∷◌,
  Bytes, codes, str_eq, length, take, ◌==◌, if◌then◌else◌, Outcome, done, fault, ◌>>=◌, ◌≡◌, refl,
  arith, ap,
}
use can_monitor.Libc.Decimal.{Written, decimal, signed_decimal, snprintf, length-decimal_iff}

-- The bytes of a `uint64_t` in memory.
abbrev pub memory_bytes : ℕ → List ℕ
memory_bytes v =
    v % 256
    ∷ v / 2 ^ 8 % 256
    ∷ v / 2 ^ 16 % 256
    ∷ v / 2 ^ 24 % 256
    ∷ v / 2 ^ 32 % 256
    ∷ v / 2 ^ 40 % 256
    ∷ v / 2 ^ 48 % 256
    ∷ v / 2 ^ 56 % 256
    ∷ []

-- The bytes up to the first NUL; `%s` of memory without one reads past its end.
unfoldable pub until_nul : List ℕ → Outcome Bytes
until_nul [] = fault
until_nul (b ∷ bs) = do
  let rest = until_nul bs
  if b == 0 then done [] else (rest >>= λ s. done (b ∷ s))

-- `print_double` is "%.15f" of the double with the given bits. `old` is what the buffer holds.
unfoldable pub var_cast : (ℕ → Bytes) → Bytes → ℕ → Bytes → Outcome Written
var_cast print_double old v type =
    if str_eq type (codes "Uint8")
    then done (snprintf 4 (decimal (v % 2 ^ 8)))
    else if str_eq type (codes "Uint16")
    then done (snprintf 6 (decimal (v % 2 ^ 16)))
    else if str_eq type (codes "Uint32")
    then done (snprintf 11 (decimal (v % 2 ^ 32)))
    else if str_eq type (codes "Uint64")
    then done (snprintf 21 (decimal v))
    else if str_eq type (codes "Int8")
    then done (snprintf 5 (signed_decimal 8 (v % 2 ^ 8)))
    else if str_eq type (codes "Int16")
    then done (snprintf 7 (signed_decimal 16 (v % 2 ^ 16)))
    else if str_eq type (codes "Int32")
    then done (snprintf 12 (signed_decimal 32 (v % 2 ^ 32)))
    else if str_eq type (codes "Int64")
    then done (snprintf 21 (signed_decimal 64 v))
    else if str_eq type (codes "Double")
    then done (snprintf 34 (print_double v))
    else if str_eq type (codes "string")
    then (until_nul (memory_bytes v) >>= λ s. done (snprintf 9 s))
    else done (record { text = old; written = 0 })

take_all : (n : ℕ) (s : Bytes) → length s ≤ n → take n s ≡ s
take_all zero [] h = refl
take_all zero (c ∷ s) h = absurd (omega arith)
take_all (suc n) [] h = refl
take_all (suc n) (c ∷ s) h = ap (λ r. c ∷ r) (take_all n s (omega arith))

-- The whole text, with its NUL.
abbrev pub whole : Bytes → Written
whole s = record { text = s; written = length s + 1 }

snprintf-whole : (k : ℕ) (s : Bytes) → length s ≤ k → snprintf (k + 1) s ≡ whole s
unfolding snprintf
snprintf-whole k s h = rw cut (rw (take_all k s h))
  where
    cut : k + 1 - 1 ≡ k
    cut = omega arith

length-signed_decimal :
    (k w n : ℕ)
    → n < 2 ^ w
    → 2 ^ (w - 1) < 10 ^ suc k
    → 2 ^ w ≡ 2 * 2 ^ (w - 1)
    → length (signed_decimal w n) ≤ suc (suc k)
unfolding signed_decimal
length-signed_decimal k w n h p q = elim (Bool-cases (ltb n (2 ^ (w - 1)))) [
  | inl up ↦ rw up (omega (arith, (length-decimal_iff (suc k) n (omega arith)).1 (ground arith)))
  | inr down ↦
      rw down
        (omega (arith, (length-decimal_iff (suc k) (2 ^ w - n) (omega arith)).1 (ground arith)))
]

length-decimal : (k n : ℕ) → 0 < k → n < 10 ^ k → length (decimal n) ≤ k
length-decimal k n pos h = (length-decimal_iff k n pos).1 h

-- For a value below 2^64 and each of the eight integer types the limit given to the printing is
-- wide enough: what is printed is the whole number that the low bytes of the value hold.
pub var_cast-integers :
    (print_double : ℕ → Bytes) (old : Bytes) (v : ℕ)
    → v < 2 ^ 64
    → let cast = var_cast print_double old v in
      (cast (codes "Uint8") ≡ done (whole (decimal (v % 2 ^ 8))))
      × (cast (codes "Uint16") ≡ done (whole (decimal (v % 2 ^ 16))))
      × (cast (codes "Uint32") ≡ done (whole (decimal (v % 2 ^ 32))))
      × (cast (codes "Uint64") ≡ done (whole (decimal v)))
      × (cast (codes "Int8") ≡ done (whole (signed_decimal 8 (v % 2 ^ 8))))
      × (cast (codes "Int16") ≡ done (whole (signed_decimal 16 (v % 2 ^ 16))))
      × (cast (codes "Int32") ≡ done (whole (signed_decimal 32 (v % 2 ^ 32))))
      × (cast (codes "Int64") ≡ done (whole (signed_decimal 64 v)))
unfolding var_cast str_eq
var_cast-integers print_double old v h = (
  ap done (snprintf-whole 3 _ (length-decimal 3 (v % 2 ^ 8) (omega arith) (omega arith))),
  ap done (snprintf-whole 5 _ (length-decimal 5 (v % 2 ^ 16) (omega arith) (omega arith))),
  ap done (snprintf-whole 10 _ (length-decimal 10 (v % 2 ^ 32) (omega arith) (omega arith))),
  ap done (snprintf-whole 20 _ (length-decimal 20 v (omega arith) (omega arith))),
  ap done (
      snprintf-whole 4 _
        (length-signed_decimal 2 8 (v % 2 ^ 8) (omega arith) (omega arith) (omega arith))),
  ap done (
      snprintf-whole 6 _
        (length-signed_decimal 4 16 (v % 2 ^ 16) (omega arith) (omega arith) (omega arith))),
  ap done (
      snprintf-whole 11 _
        (length-signed_decimal 9 32 (v % 2 ^ 32) (omega arith) (omega arith) (omega arith))),
  ap done (
      snprintf-whole 20 _
        (length-signed_decimal 18 64 v (omega arith) (omega arith) (omega arith))),
)
