-- ===== src/Frame/Signal.antt =====
-- What a signal is: the bits of the data bytes in the order of the wire, the highest bit of the
-- first byte being bit 0, and the number that bits `init` to `end` spell.
use can_monitor.Base.{
  take-append-drop, length-drop, length-take, take-drop, ℕ, zero, suc, ◌+◌, ◌-◌, ◌*◌, ◌/◌, ◌%◌, ◌^◌,
  ◌≤◌, ◌<◌, List, [], ◌∷◌, ◌++◌, length, length-append, take, drop, ◌≡◌, refl, ◌∙◌, sym, ap, arith,
}
use native.Mathlib.Nat.{
  pow-suc, one-le-pow, mod-eq_of_lt, div-eq_of_lt, mul-add-mod_self_left, mul-add-div, mul_assoc,
  add-zero, add-suc,
}

-- The number that a list of binary digits spells, the highest first.
unfoldable pub of_bits : List ℕ → ℕ
of_bits [] = 0
of_bits (b ∷ bs) = b * 2 ^ length bs + of_bits bs

abbrev pub bits_of_byte : ℕ → List ℕ
bits_of_byte b =
    b / 128 % 2
    ∷ b / 64 % 2
    ∷ b / 32 % 2
    ∷ b / 16 % 2
    ∷ b / 8 % 2
    ∷ b / 4 % 2
    ∷ b / 2 % 2
    ∷ b % 2
    ∷ []

unfoldable pub frame_bits : List ℕ → List ℕ
frame_bits [] = []
frame_bits (b ∷ bs) = bits_of_byte b ++ frame_bits bs

-- The bits from `init` on, `len` of them.
unfoldable pub signal : List ℕ → ℕ → ℕ → ℕ
unfolding of_bits frame_bits
signal data_bytes init len = of_bits (take len (drop init (frame_bits data_bytes)))

abbrev pub AllBits : List ℕ → Type 0
AllBits [] = Unit
AllBits (b ∷ bs) = (b < 2) × AllBits bs

abbrev pub AllBytes : List ℕ → Type 0
AllBytes [] = Unit
AllBytes (b ∷ bs) = (b < 256) × AllBytes bs

pub two_pow-add : (a b : ℕ) → 2 ^ (a + b) ≡ 2 ^ a * 2 ^ b
two_pow-add a zero = rw add-zero (omega arith)
two_pow-add a (suc b) =
    pow_up
    ∙ ap (λ (t : ℕ). t * 2) (two_pow-add a b)
    ∙ mul_assoc (2 ^ a) (2 ^ b) 2
    ∙ ap (λ (t : ℕ). 2 ^ a * t) (sym (pow-suc 2 b))
  where
    pow_up : 2 ^ (a + suc b) ≡ 2 ^ (a + b) * 2
    pow_up = rw (add-suc a b) (pow-suc 2 (a + b))

of_bits-lt : (bs : List ℕ) → AllBits bs → of_bits bs < 2 ^ length bs
unfolding of_bits
of_bits-lt [] h = omega arith
of_bits-lt (b ∷ bs) h = grind (arith, of_bits-lt bs h.1, pow-suc 2 (length bs))

of_bits-append : (a b : List ℕ) → of_bits (a ++ b) ≡ of_bits a * 2 ^ length b + of_bits b
unfolding of_bits
of_bits-append [] b = omega arith
of_bits-append (x ∷ a) b =
    rw (length-append a b, two_pow-add (length a) (length b), of_bits-append a b) (omega arith)

AllBits-append : (a b : List ℕ) → AllBits a → AllBits b → AllBits (a ++ b)
AllBits-append [] b ha hb = hb
AllBits-append (x ∷ a) b ha hb = (ha.0, AllBits-append a b ha.1 hb)

pub frame_bits-AllBits : (bs : List ℕ) → AllBits (frame_bits bs)
unfolding frame_bits
frame_bits-AllBits [] = tt
frame_bits-AllBits (b ∷ bs) =
    AllBits-append (bits_of_byte b) (frame_bits bs) (omega arith) (frame_bits-AllBits bs)

of_bits-bits_of_byte : (b : ℕ) → b < 256 → of_bits (bits_of_byte b) ≡ b
unfolding of_bits
of_bits-bits_of_byte b h = omega arith

pub length-frame_bits : (bs : List ℕ) → length (frame_bits bs) ≡ 8 * length bs
unfolding frame_bits
length-frame_bits [] = omega arith
length-frame_bits (b ∷ bs) = omega (arith, length-frame_bits bs)

AllBits-take : (n : ℕ) (bs : List ℕ) → AllBits bs → AllBits (take n bs)
AllBits-take zero bs h = tt
AllBits-take (suc n) [] h = tt
AllBits-take (suc n) (b ∷ bs) h = (h.0, AllBits-take n bs h.1)

AllBits-drop : (n : ℕ) (bs : List ℕ) → AllBits bs → AllBits (drop n bs)
AllBits-drop zero bs h = h
AllBits-drop (suc n) [] h = tt
AllBits-drop (suc n) (b ∷ bs) h = AllBits-drop n bs h.1

-- Keeping the first bits is a quotient, dropping them is a remainder.
module _ (n : ℕ) (bs : List ℕ) (h : AllBits bs) where
  split_at : of_bits bs ≡ 2 ^ (length bs - n) * of_bits (take n bs) + of_bits (drop n bs)
  split_at =
      ap of_bits (sym (take-append-drop n bs))
      ∙ of_bits-append (take n bs) (drop n bs)
      ∙ rw (length-drop n bs) (omega arith)

  low_part : of_bits (drop n bs) < 2 ^ (length bs - n)
  low_part = rw (length-drop n bs) at (of_bits-lt (drop n bs) (AllBits-drop n bs h))

  of_bits-drop : of_bits (drop n bs) ≡ of_bits bs % 2 ^ (length bs - n)
  of_bits-drop =
      let p = 2 ^ (length bs - n) in
      sym (
        ap (λ (t : ℕ). t % p) split_at
        ∙ mul-add-mod_self_left p (of_bits (take n bs)) _
        ∙ mod-eq_of_lt low_part)

  of_bits-take : of_bits (take n bs) ≡ of_bits bs / 2 ^ (length bs - n)
  of_bits-take =
      let p = 2 ^ (length bs - n) in
      sym (
        ap (λ (t : ℕ). t / p) split_at
        ∙ mul-add-div (one-le-pow (length bs - n) 2 (omega arith)) (of_bits (take n bs)) _
        ∙ rw (div-eq_of_lt low_part) (omega arith))

-- The signal, as shifts of the number that the whole frame spells.
pub signal-shifts :
    (data_bytes : List ℕ) (init len : ℕ)
    → init + len ≤ 8 * length data_bytes
    → signal data_bytes init len
      ≡ of_bits (frame_bits data_bytes) / 2 ^ (8 * length data_bytes - (init + len)) % 2 ^ len
unfolding signal
signal-shifts data_bytes init len fits =
    let bs = frame_bits data_bytes in
    let bits = frame_bits-AllBits data_bytes in
    let top = take (init + len) bs in
    let long : length top ≡ init + len =
      length-take (init + len) bs (rw (length-frame_bits data_bytes) fits) in
    ap of_bits (take-drop init len (init + len) bs refl)
    ∙ of_bits-drop init top (AllBits-take (init + len) bs bits)
    ∙ rw (of_bits-take (init + len) bs bits, long, length-frame_bits data_bytes, slack)
  where
    slack : init + len - init ≡ len
    slack = omega arith

pub of_bits-cons :
    (b : ℕ) (bs : List ℕ)
    → b < 256
    → of_bits (frame_bits (b ∷ bs)) ≡ b * 2 ^ (8 * length bs) + of_bits (frame_bits bs)
unfolding frame_bits
of_bits-cons b bs h =
    of_bits-append (bits_of_byte b) (frame_bits bs)
    ∙ rw (of_bits-bits_of_byte b h, length-frame_bits bs)
