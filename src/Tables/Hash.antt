-- ===== src/Tables/Hash.antt =====
-- `hash` of src/CanMonitor/implementation/tables/hashtable_common.c.
use can_monitor.Base.{
  ℕ, ◌+◌, ◌-◌, ◌%◌, ◌^◌, ◌<◌, [], ◌∷◌, Option, none, some, Bytes, ltb, if◌then◌else◌, arith,
}

-- `key[i]` as the `unsigned int` that the sum takes it for: `char` is signed, as on the targets
-- of the Dockerfile (x86-64), so a byte from 128 on is negative and wraps around.
unfoldable pub char_word : ℕ → ℕ
char_word c = if ltb c 128 then c else c + 2 ^ 32 - 256

-- The loop, with the sum so far.
unfoldable pub hash_loop : ℕ → Bytes → ℕ → ℕ
unfolding char_word
hash_loop h [] size = h
hash_loop h (c ∷ cs) size = hash_loop ((h + char_word c) % 2 ^ 32 % size) cs size

unfoldable pub hash : Option Bytes → ℕ → ℕ
unfolding hash_loop
hash none size = 0
hash (some key) size = hash_loop 0 key size

hash_loop-lt : (h : ℕ) (key : Bytes) (size : ℕ) → h < size → hash_loop h key size < size
unfolding hash_loop
hash_loop-lt h [] size p = p
hash_loop-lt h (c ∷ cs) size p =
    hash_loop-lt ((h + char_word c) % 2 ^ 32 % size) cs size (grind arith)

-- The hash of any key, NULL included, is below the size of the table when that is not 0.
pub hash-lt : (key : Option Bytes) (size : ℕ) → 0 < size → hash key size < size
unfolding hash
hash-lt none size p = p
hash-lt (some key) size p = hash_loop-lt 0 key size p
