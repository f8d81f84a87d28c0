-- ===== src/Frame/Extract.antt =====
-- `mask_can_frame` returns the signal, and where it is undefined.
use native.Mathlib.Decide.{dec_le}
use can_monitor.Base.{
  length-drop, ℕ, zero, suc, ◌+◌, ◌-◌, ◌*◌, ◌/◌, ◌%◌, ◌^◌, ◌≤◌, ◌<◌, List, [], ◌∷◌, some, length,
  length-take, get_elem?, take, drop, done, fault, ◌≡◌, ◌↔◌, ◌⊎◌, inl, inr, refl, ◌∙◌, sym, ap,
  arith,
}
use Prim.Native.Nat.{bit_and, bit_or}
use can_monitor.Base.Bits.{bit_or_shifted, bit_and_block}
use can_monitor.Frame.Mask.{
  CanFrame, join_bytes, mask_can_frame, var_length, mask_shift, shl64, shr64,
}
use can_monitor.Frame.Signal.{
  of_bits, frame_bits, signal, AllBytes, two_pow-add, of_bits-cons, signal-shifts,
}
use native.Mathlib.Nat.{pow-le-pow_right, mod-eq_of_lt, one-le-pow}

-- The frames that the kernel hands over: at most 8 data bytes, and room for 8.
pub record IsFrame (frame : CanFrame) : Type 0 where
  pub short : frame.can_dlc ≤ 8
  pub room : frame.can_dlc ≤ length frame.bytes
  pub all_bytes : AllBytes frame.bytes

-- The bytes that count.
abbrev pub payload : CanFrame → List ℕ
payload frame = take frame.can_dlc frame.bytes

byte_at :
    (i : ℕ) (xs : List ℕ)
    → i < length xs
    → AllBytes xs
    → (b : ℕ) × (get_elem? xs i ≡ some b) × (b < 256) × (drop i xs ≡ b ∷ drop (i + 1) xs)
byte_at i [] h a = absurd (omega arith)
byte_at zero (x ∷ xs) h a = (x, refl, a.0, refl)
byte_at (suc i) (x ∷ xs) h a = rw step (byte_at i xs (omega arith) a.1)
  where
    step : suc i + 1 ≡ suc (i + 1)
    step = omega arith

below_top : (i u : ℕ) → u < 2 ^ (8 * i) → i < 8 → u * 2 ^ 8 % 2 ^ 64 ≡ u * 2 ^ 8
below_top i u small h = mod-eq_of_lt (
    omega (
      arith,
      two_pow-add (8 * i) 8,
      pow-le-pow_right {n = 2} (omega arith) {i = 8 * i + 8} {j = 64} (omega arith),
    ))

no_bytes : (xs : List ℕ) (i : ℕ) → of_bits (frame_bits (take 0 (drop i xs))) ≡ 0
unfolding of_bits frame_bits
no_bytes xs i = refl

pow_byte : (k : ℕ) → 2 ^ (8 * suc k) ≡ 2 ^ 8 * 2 ^ (8 * k)
pow_byte k = ap (λ (t : ℕ). 2 ^ t) (omega arith) ∙ two_pow-add 8 (8 * k)

-- The window of bytes from `i` on, with its first byte apart.
window-cons :
    (left i b : ℕ) (xs : List ℕ)
    → i + suc left ≤ length xs
    → b < 256
    → drop i xs ≡ b ∷ drop (i + 1) xs
    → of_bits (frame_bits (take (suc left) (drop i xs)))
      ≡ b * 2 ^ (8 * left) + of_bits (frame_bits (take left (drop (i + 1) xs)))
window-cons left i b xs r lt tail =
    let w = take left (drop (i + 1) xs) in
    let n : length w ≡ left =
      length-take left (drop (i + 1) xs) (omega (arith, length-drop (i + 1) xs)) in
    rw tail (of_bits-cons b w lt ∙ rw n)

join_bytes-suc :
    (left i : ℕ) (xs : List ℕ) (u b : ℕ)
    → get_elem? xs i ≡ some b
    → join_bytes (suc left) i xs u ≡ join_bytes left (i + 1) xs (bit_or (u * 2 ^ 8 % 2 ^ 64) b)
unfolding join_bytes
join_bytes-suc left i xs u b h = rw (h, join_bytes)

join_bytes-value :
    (left i : ℕ) (xs : List ℕ) (u : ℕ)
    → AllBytes xs
    → i + left ≤ length xs
    → i + left ≤ 8
    → u < 2 ^ (8 * i)
    → join_bytes left i xs u
      ≡ done (u * 2 ^ (8 * left) + of_bits (frame_bits (take left (drop i xs))))
unfolding join_bytes
join_bytes-value zero i xs u a r s small = ap done (omega (arith, no_bytes xs i))
join_bytes-value (suc left) i xs u a r s small =
    let (b, at, lt, tail) = byte_at i xs (omega arith) a in
    let next : bit_or (u * 2 ^ 8 % 2 ^ 64) b ≡ u * 2 ^ 8 + b =
      rw (below_top i u small (omega arith)) (bit_or_shifted 8 u b (omega arith)) in
    let one_more : i + 1 ≡ suc i = omega arith in
    let small' : u * 2 ^ 8 + b < 2 ^ (8 * (i + 1)) = rw one_more (omega (arith, pow_byte i)) in
    rw (join_bytes-suc left i xs u b at, next)
      (join_bytes-value left (i + 1) xs (u * 2 ^ 8 + b) a (omega arith) (omega arith) small'
        ∙ ap done (
            omega
              (arith, window-cons left i b xs r lt tail, ap (λ (t : ℕ). u * t) (pow_byte left))))

-- The pieces of `mask_can_frame` for a signal of `len` bits, shifted by `s`.
module _ (len s : ℕ) (narrow : len < 64) (fits : len + s ≤ 64) where
  one_above : shl64 1 len ≡ done (2 ^ len)
  one_above =
      ground (arith, pow-le-pow_right {n = 2} (omega arith) {i = len} {j = 63} (omega arith))

  low_mask : (2 ^ len + 2 ^ 64 - 1) % 2 ^ 64 ≡ 2 ^ len - 1
  low_mask = omega (
    arith,
    one-le-pow len 2 (omega arith),
    pow-le-pow_right {n = 2} (omega arith) {i = len} {j = 63} (omega arith),
  )

  block_fits : (2 ^ len - 1) * 2 ^ s < 2 ^ 64
  block_fits = grind (
    arith,
    one-le-pow s 2 (omega arith),
    one-le-pow len 2 (omega arith),
    two_pow-add len s,
    pow-le-pow_right {n = 2} (omega arith) {i = len + s} {j = 64} (omega arith),
  )

  shifted_mask : s < 64 → shl64 (2 ^ len - 1) s ≡ done ((2 ^ len - 1) * 2 ^ s)
  shifted_mask h = let e = mod-eq_of_lt block_fits in ground arith

  cut_out :
      (x : ℕ) → s < 64 → shr64 (bit_and ((2 ^ len - 1) * 2 ^ s) x) s ≡ done (x / 2 ^ s % 2 ^ len)
  cut_out x h = let e = bit_and_block s len x in ground arith

module _ (frame : CanFrame) (ok : IsFrame frame) (init_bit end_bit : ℕ) where
  -- The number that the data bytes spell.
  abbrev joined : ℕ
  joined = of_bits (frame_bits (payload frame))

  join_payload : join_bytes frame.can_dlc 0 frame.bytes 0 ≡ done joined
  join_payload =
      join_bytes-value frame.can_dlc 0 frame.bytes 0 ok.all_bytes (omega (arith, ok.room))
        (omega (arith, ok.short)) (omega arith)
      ∙ ap done (omega arith)

  -- For a frame of at most 8 data bytes, a signal that lies inside the frame and is narrower than
  -- 64 bits is read as the number that its bits spell, counted from the highest bit of the first
  -- byte.
  pub mask_can_frame-signal :
      init_bit ≤ end_bit
      → end_bit < 8 * frame.can_dlc
      → end_bit < init_bit + 63
      → mask_can_frame frame init_bit end_bit
        ≡ done (signal (payload frame) init_bit (end_bit + 1 - init_bit))
  unfolding mask_can_frame
  mask_can_frame-signal order inside narrow =
      let len = end_bit + 1 - init_bit in
      let s = 8 * frame.can_dlc - (init_bit + len) in
      let wide : var_length init_bit end_bit ≡ len = omega arith in
      let shift : mask_shift frame.can_dlc len init_bit ≡ s = omega arith in
      let n : length (payload frame) ≡ frame.can_dlc =
        length-take frame.can_dlc frame.bytes ok.room in
      let value : signal (payload frame) init_bit len ≡ joined / 2 ^ s % 2 ^ len =
        signal-shifts (payload frame) init_bit len (omega arith) ∙ rw n in
      rw
        (
          wide,
          one_above len s (omega arith) (omega arith),
          low_mask len s (omega arith) (omega arith),
          join_payload,
          shift,
          shifted_mask len s (omega arith) (omega arith) (omega arith),
        )
        (cut_out len s (omega arith) (omega arith) joined (omega arith) ∙ ap done (sym value))

  too_wide :
      init_bit + 63 ≤ end_bit → end_bit < 2 ^ 31 → mask_can_frame frame init_bit end_bit ≡ fault
  unfolding mask_can_frame
  too_wide h top = let e : shl64 1 (var_length init_bit end_bit) ≡ fault = ground arith in rw e

  outside :
      init_bit ≤ end_bit
      → end_bit < init_bit + 63
      → 8 * frame.can_dlc ≤ end_bit
      → end_bit < 2 ^ 31
      → mask_can_frame frame init_bit end_bit ≡ fault
  unfolding mask_can_frame
  outside order narrow h top =
      let len = end_bit + 1 - init_bit in
      let wide : var_length init_bit end_bit ≡ len = omega arith in
      let e : shl64 (2 ^ len - 1) (mask_shift frame.can_dlc len init_bit) ≡ fault = ground arith in
      rw (
        wide,
        one_above len 0 (omega arith) (omega arith),
        low_mask len 0 (omega arith) (omega arith),
        join_payload,
        e,
      )

  -- With the bits in order and below 2^31, extraction from a frame of at most 8 data bytes is
  -- undefined exactly for a signal of 64 bits or more and for one that ends behind the data bytes.
  pub mask_can_frame-fault_iff :
      init_bit ≤ end_bit
      → end_bit < 2 ^ 31
      → (mask_can_frame frame init_bit end_bit ≡ fault)
        ↔ ((init_bit + 63 ≤ end_bit) ⊎ (8 * frame.can_dlc ≤ end_bit))
  mask_can_frame-fault_iff order top = (
    λ e. elim (dec_le (init_bit + 63) end_bit) [
      | yes w ↦ inl w
      | no w ↦ elim (dec_le (8 * frame.can_dlc) end_bit) [
        | yes o ↦ inr o
        | no o ↦ cc (mask_can_frame-signal order (omega arith) (omega arith))
      ]
    ],
    λ h. elim (dec_le (init_bit + 63) end_bit) [
      | yes w ↦ too_wide w top
      | no w ↦ outside order (omega arith) (omega arith) top
    ],
  )
