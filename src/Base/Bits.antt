-- ===== src/Base/Bits.antt =====
-- `&` with a shifted block of ones and `|` of disjoint fields, as arithmetic at every width.
-- Both come from one law for the lowest binary digit of the native operations.
use Prim.Native.Nat.{
  ℕ, zero, suc, ◌+◌, ◌-◌, ◌*◌, ◌/◌, ◌%◌, ◌^◌, ◌≤◌, ◌<◌, min, max, bit_and, bit_or, digits,
  bit_and-bitwise, bit_or-bitwise,
}
use mathlib.Core.Path.{◌≡◌, refl, ◌∙◌, sym, ap}
use native.Mathlib.Nat.{
  pow-suc, one-le-pow, div-div-eq-div-mul, mod-lt, div-add-mod, mod-eq_of_lt, mul-add-mod_self_left,
}
use native.Mathlib.Omega.{arith}

-- `digits` does not depend on its fuel, once that covers the first number.
module _ (z : ℕ → ℕ) (f : ℕ → ℕ → ℕ) where
  digits_none : (fuel b : ℕ) → digits z f fuel 0 b ≡ z b
  digits_none zero b = refl
  digits_none (suc fuel) b = refl

  digits_enough : (p a b q : ℕ) → a ≤ p → a ≤ q → digits z f p a b ≡ digits z f q a b
  digits_enough p zero b q hp hq = digits_none p b ∙ sym (digits_none q b)
  digits_enough zero (suc a) b q hp hq = absurd (omega arith)
  digits_enough (suc p) (suc a) b zero hp hq = absurd (omega arith)
  digits_enough (suc p) (suc a) b (suc q) hp hq =
      ap (λ r. r * 2 + f (suc a % 2) (b % 2))
        (digits_enough p (suc a / 2) (b / 2) q (omega arith) (omega arith))

  lowest_digit :
      (a b : ℕ)
      → digits z f (suc a) (suc a) b
        ≡ digits z f (suc a / 2) (suc a / 2) (b / 2) * 2 + f (suc a % 2) (b % 2)
  lowest_digit a b =
      ap (λ r. r * 2 + f (suc a % 2) (b % 2))
        (digits_enough a (suc a / 2) (b / 2) (suc a / 2) (omega arith) (omega arith))

bit_and-lowest : (a b : ℕ) → bit_and a b ≡ bit_and (a / 2) (b / 2) * 2 + min (a % 2) (b % 2)
bit_and-lowest zero b = rw (bit_and-bitwise 0 b, bit_and-bitwise 0 (b / 2)) (omega arith)
bit_and-lowest (suc a) b =
    bit_and-bitwise (suc a) b
    ∙ lowest_digit (λ y. 0) min a b
    ∙ ap (λ r. r * 2 + min (suc a % 2) (b % 2)) (sym (bit_and-bitwise (suc a / 2) (b / 2)))

bit_or-lowest : (a b : ℕ) → bit_or a b ≡ bit_or (a / 2) (b / 2) * 2 + max (a % 2) (b % 2)
bit_or-lowest zero b = rw (bit_or-bitwise 0 b, bit_or-bitwise 0 (b / 2)) (omega arith)
bit_or-lowest (suc a) b =
    bit_or-bitwise (suc a) b
    ∙ lowest_digit (λ y. y) max a b
    ∙ ap (λ r. r * 2 + max (suc a % 2) (b % 2)) (sym (bit_or-bitwise (suc a / 2) (b / 2)))

bit_or_nothing_below : (bound n : ℕ) → n < bound → bit_or n 0 ≡ n
bit_or_nothing_below zero n h = absurd (omega arith)
bit_or_nothing_below (suc bound) zero h = bit_or-bitwise 0 0
bit_or_nothing_below (suc bound) (suc n) h =
    omega (arith, bit_or-lowest (suc n) 0, bit_or_nothing_below bound (suc n / 2) (omega arith))

nothing-bit_and : (b : ℕ) → bit_and 0 b ≡ 0
nothing-bit_and b = bit_and-bitwise 0 b

two_pow-suc : (u k : ℕ) → u * 2 ^ suc k ≡ 2 * (u * 2 ^ k)
two_pow-suc u k = omega (arith, ap (λ (t : ℕ). u * t) (pow-suc 2 k))

-- `(u << k) | r` is a sum when `r` has at most `k` digits.
pub bit_or_shifted : (k u r : ℕ) → r < 2 ^ k → bit_or (u * 2 ^ k) r ≡ u * 2 ^ k + r
bit_or_shifted zero u r h = ground (arith, bit_or_nothing_below (suc u) u)
bit_or_shifted (suc k) u r h =
    let fits : r / 2 < 2 ^ k = omega (arith, pow-suc 2 k) in
    ground
      (arith, two_pow-suc u k, bit_or-lowest (u * 2 ^ suc k) r, bit_or_shifted k u (r / 2) fits)

mod-two_pow-suc : (l x : ℕ) → x % 2 ^ suc l ≡ x / 2 % 2 ^ l * 2 + x % 2
mod-two_pow-suc l x =
    let r = x / 2 % 2 ^ l in
    let q = x / 2 / 2 ^ l in
    let small : r < 2 ^ l = mod-lt (x / 2) (one-le-pow l 2 (omega arith)) in
    let split : x ≡ 2 ^ suc l * q + (r * 2 + x % 2) =
      omega (arith, div-add-mod (x / 2) (2 ^ l), ap (λ (t : ℕ). t * q) (pow-suc 2 l)) in
    ap (λ (t : ℕ). t % 2 ^ suc l) split
    ∙ mul-add-mod_self_left (2 ^ suc l) q (r * 2 + x % 2)
    ∙ mod-eq_of_lt (omega (arith, small, pow-suc 2 l))

-- A block of `l` ones at the bottom keeps the remainder by `2 ^ l`.
bit_and_ones : (l x : ℕ) → bit_and (2 ^ l - 1) x ≡ x % 2 ^ l
bit_and_ones zero x = omega (arith, nothing-bit_and x)
bit_and_ones (suc l) x = ground (
  arith,
  pow-suc 2 l,
  one-le-pow l 2,
  bit_and-lowest (2 ^ suc l - 1) x,
  mod-two_pow-suc l x,
  bit_and_ones l (x / 2),
)

-- A block of `l` ones above `s` zeros cuts out the field of `l` digits that stands there.
pub bit_and_block : (s l x : ℕ) → bit_and ((2 ^ l - 1) * 2 ^ s) x / 2 ^ s ≡ x / 2 ^ s % 2 ^ l
bit_and_block zero l x = ground (arith, bit_and_ones l x)
bit_and_block (suc s) l x = ground (
  arith,
  two_pow-suc (2 ^ l - 1) s,
  pow-suc 2 s,
  bit_and-lowest ((2 ^ l - 1) * 2 ^ suc s) x,
  div-div-eq-div-mul (bit_and ((2 ^ l - 1) * 2 ^ suc s) x) 2 (2 ^ s),
  div-div-eq-div-mul x 2 (2 ^ s),
  bit_and_block s l (x / 2),
)
