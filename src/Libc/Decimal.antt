-- ===== src/Libc/Decimal.antt =====
-- `%u` and `%d` of `snprintf`, and the bytes that it leaves in its buffer.
use can_monitor.Base.{
  ℕ, zero, suc, ◌+◌, ◌-◌, ◌/◌, ◌%◌, ◌^◌, ◌≤◌, ◌<◌, [], ◌∷◌, Bytes, length, take, ltb, if◌then◌else◌,
  ◌↔◌, arith,
}
use native.Mathlib.Nat.{pow-suc, one-le-pow}

-- The digits of `n` before `out`; each round takes one off.
unfoldable pub decimal_loop : ℕ → ℕ → Bytes → Bytes
decimal_loop zero n out = out
decimal_loop (suc fuel) n out =
    let rest = decimal_loop fuel (n / 10) ((b'0' + n % 10) ∷ out) in
    if ltb n 10 then (b'0' + n) ∷ out else rest

unfoldable pub decimal : ℕ → Bytes
unfolding decimal_loop
decimal n = decimal_loop (suc n) n []

-- A two's complement integer of `w` bits.
unfoldable pub signed_decimal : ℕ → ℕ → Bytes
unfolding decimal
signed_decimal w n = if ltb n (2 ^ (w - 1)) then decimal n else b'-' ∷ decimal (2 ^ w - n)

-- The text in the buffer after the call, and how many bytes of the buffer were written.
pub record Written : Type 0 where
  pub text : Bytes
  pub written : ℕ

unfoldable pub snprintf : ℕ → Bytes → Written
snprintf n s = let kept = take (n - 1) s in record { text = kept; written = length kept + 1 }

decimal_loop-longer :
    (fuel n : ℕ) (out : Bytes) → n < fuel → length out < length (decimal_loop fuel n out)
unfolding decimal_loop
decimal_loop-longer zero n out h = absurd (omega arith)
decimal_loop-longer (suc fuel) n out h =
    ground (arith, decimal_loop-longer fuel (n / 10) ((b'0' + n % 10) ∷ out))

length-decimal_loop :
    (k fuel n : ℕ) (out : Bytes)
    → n < fuel
    → (length (decimal_loop fuel n out) ≤ suc k + length out) ↔ (n < 10 ^ suc k)
unfolding decimal_loop
length-decimal_loop k zero n out h = absurd (omega arith)
length-decimal_loop zero (suc fuel) n out h =
    ground (arith, decimal_loop-longer fuel (n / 10) ((b'0' + n % 10) ∷ out))
length-decimal_loop (suc k) (suc fuel) n out h = ground (
  arith,
  pow-suc 10 (suc k),
  one-le-pow (suc k) 10,
  length-decimal_loop k fuel (n / 10) ((b'0' + n % 10) ∷ out),
)

-- A number is printed in at most `k` characters exactly if it is below `10 ^ k`.
pub length-decimal_iff : (k n : ℕ) → 0 < k → (length (decimal n) ≤ k) ↔ (n < 10 ^ k)
unfolding decimal
length-decimal_iff zero n h = elim h [ ]
length-decimal_iff (suc k) n h =
    let e = length-decimal_loop k (suc n) n [] (omega arith) in
    (λ le. e.0 (omega arith), λ lt. omega (arith, e.1 lt))
