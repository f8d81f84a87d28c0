-- ===== src/Libc/Scan.antt =====
-- `sscanf` with "%u" and `atoi`, as the C library of the target (glibc on x86-64) reads them:
-- white space, a sign, digits; what is too large for the 64-bit accumulator is its maximum.
use can_monitor.Base.{
  ℕ, ◌+◌, ◌-◌, ◌*◌, ◌%◌, ◌^◌, min, [], ◌∷◌, Bool, false, ◌&&◌, ◌||◌, Bytes, ltb, leb, ◌==◌,
  if◌then◌else◌,
}

unfoldable pub is_digit : ℕ → Bool
is_digit c = leb b'0' c && leb c b'9'

-- `isspace`: a blank, or one of the five control characters from 9 to 13.
unfoldable pub is_space : ℕ → Bool
is_space c = c == 32 || (leb 9 c && leb c 13)

unfoldable pub skip_spaces : Bytes → Bytes
unfolding is_space
skip_spaces [] = []
skip_spaces (c ∷ cs) = let rest = skip_spaces cs in if is_space c then rest else c ∷ cs

-- The number that the digits at the front spell, after `acc`.
unfoldable pub scan_digits : ℕ → Bytes → ℕ
unfolding is_digit
scan_digits acc [] = acc
scan_digits acc (c ∷ cs) =
    let rest = scan_digits (acc * 10 + (c - b'0')) cs in if is_digit c then rest else acc

-- Sign and digits; `none` where no digit stands.
unfoldable pub starts_with_digit : Bytes → Bool
unfolding is_digit
starts_with_digit [] = false
starts_with_digit (c ∷ cs) = is_digit c

abbrev pub max_u64 : ℕ
max_u64 = 2 ^ 64 - 1

-- `sscanf(s, "%u", &x)`: the new value of `x`, which stays as it was where no number stands.
-- The value is read as an `unsigned long` and stored in 32 bits.
unfoldable pub minus_u32 : Bytes → ℕ
unfolding scan_digits
minus_u32 digits =
    let v = scan_digits 0 digits in
    if ltb max_u64 v then max_u64 % 2 ^ 32 else (2 ^ 64 - v) % 2 ^ 32

unfoldable pub sscanf_unsigned : ℕ → Bytes → ℕ
unfolding scan_digits starts_with_digit minus_u32
sscanf_unsigned old [] = old
sscanf_unsigned old (c ∷ cs) =
    let digits = if c == b'+' then cs else c ∷ cs in
    if c == b'-'
    then (if starts_with_digit cs then minus_u32 cs else old)
    else if starts_with_digit digits
    then min (scan_digits 0 digits) max_u64 % 2 ^ 32
    else old

unfoldable pub sscanf_u32 : ℕ → Bytes → ℕ
unfolding skip_spaces sscanf_unsigned
sscanf_u32 old s = sscanf_unsigned old (skip_spaces s)

-- `atoi`: a `long`, cut off at its ends, of which 32 bits are kept. The result is the bit
-- pattern of the `int`; no number reads as 0.
unfoldable pub atoi_signed : Bytes → ℕ
unfolding scan_digits
atoi_signed [] = 0
atoi_signed (c ∷ cs) =
    if c == b'-'
    then (2 ^ 64 - min (scan_digits 0 cs) (2 ^ 63)) % 2 ^ 32
    else min (scan_digits 0 (if c == b'+' then cs else c ∷ cs)) (2 ^ 63 - 1) % 2 ^ 32

unfoldable pub atoi : Bytes → ℕ
unfolding skip_spaces atoi_signed
atoi s = atoi_signed (skip_spaces s)
