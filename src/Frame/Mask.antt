-- ===== src/Frame/Mask.antt =====
-- `mask_can_frame` of src/CanMonitor/CanMonitor.c: a signal is cut out of the data bytes of a
-- frame by shifts on `uint64_t`.
use Prim.Native.Nat.{bit_and, bit_or}
use can_monitor.Base.{
  ℕ, zero, suc, ◌+◌, ◌-◌, ◌*◌, ◌/◌, ◌%◌, ◌^◌, List, none, some, get_elem?, ltb, if◌then◌else◌,
  Outcome, done, fault, ◌>>=◌,
}

-- `struct can_frame` of <linux/can.h>: the identifier, the number of data bytes, the data.
pub record CanFrame : Type 0 where
  pub can_id : ℕ
  pub can_dlc : ℕ
  pub bytes : List ℕ

-- `<<` and `>>` on `uint64_t`; a shift by 64 or more is undefined.
abbrev pub shl64 : ℕ → ℕ → Outcome ℕ
shl64 x k = if ltb k 64 then done (x * 2 ^ k % 2 ^ 64) else fault

abbrev pub shr64 : ℕ → ℕ → Outcome ℕ
shr64 x k = if ltb k 64 then done (x / 2 ^ k) else fault

-- The loop that joins the bytes, with `left` rounds to go from the index `i`.
unfoldable pub join_bytes : ℕ → ℕ → List ℕ → ℕ → Outcome ℕ
join_bytes zero i data_bytes uni_data = done uni_data
join_bytes (suc left) i data_bytes uni_data = elim (get_elem? data_bytes i) [
  | none ↦ fault
  | some b ↦ join_bytes left (i + 1) data_bytes (bit_or (uni_data * 2 ^ 8 % 2 ^ 64) b)
]

-- `uint32_t` differences; what is subtracted is below 2^32.
abbrev pub var_length : ℕ → ℕ → ℕ
var_length init_bit end_bit = (end_bit + 2 ^ 32 - init_bit + 1) % 2 ^ 32

abbrev pub mask_shift : ℕ → ℕ → ℕ → ℕ
mask_shift dlc len init_bit = (8 * dlc + 2 ^ 33 - len - init_bit) % 2 ^ 32

unfoldable pub mask_can_frame : CanFrame → ℕ → ℕ → Outcome ℕ
unfolding join_bytes
mask_can_frame frame init_bit end_bit = do
  let len = var_length init_bit end_bit
  one_above ← shl64 1 len
  let low_mask = (one_above + 2 ^ 64 - 1) % 2 ^ 64
  uni_data ← join_bytes frame.can_dlc 0 frame.bytes 0
  let shift = mask_shift frame.can_dlc len init_bit
  mask ← shl64 low_mask shift
  shr64 (bit_and mask uni_data) shift
