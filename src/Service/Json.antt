-- ===== src/Service/Json.antt =====
-- What the handlers call of the JSON library (src/CanMonitor/common/parson.h, a copy of
-- another project's library), and the conversions of C between `double` and `int`.
-- A pointer that may be NULL is an `Option`. A document under construction is a value of its
-- own: the functions that change it return the changed one.
use can_monitor.Base.{ℕ, Bytes, Option, none, some, Bool, true, false, Outcome, done, fault}

pub record Json : Type 1 where
  pub Value : Type 0
  pub Object : Type 0
  pub Array : Type 0
  pub Number : Type 0
  pub json_parse_string : Bytes → Option Value
  pub json_value_get_object : Option Value → Option Object
  pub json_object_get_value : Option Object → Bytes → Option Value
  pub json_object_get_string : Option Object → Bytes → Option Bytes
  pub json_object_get_number : Option Object → Bytes → Number
  pub json_object_get_array : Option Object → Bytes → Option Array
  pub json_array_get_count : Option Array → ℕ
  pub json_array_get_value : Option Array → ℕ → Option Value
  pub json_value_init_object : Value
  pub json_value_init_array : Value
  pub json_object_set_string : Value → Bytes → Bytes → Value
  pub json_object_set_number : Value → Bytes → Number → Value
  pub json_object_set_value : Value → Bytes → Value → Value
  pub json_array_append_value : Value → Value → Value
  pub json_serialize_to_string : Value → Bytes
  -- `(int) x`, `(uint32_t) x` and back, on bit patterns of 32 bits; `(double) n` of a `uint64_t`.
  pub to_int : Number → ℕ
  pub to_uint32 : Number → ℕ
  pub of_int : ℕ → Number
  pub of_unsigned : ℕ → Number

-- `p != NULL`
abbrev pub is_some {ℓ} : {A : Type ℓ} → Option A → Bool
is_some none = false
is_some (some a) = true

-- Reading a string through a pointer (`strdup`, `strcmp`, `sscanf`, `atoi`) is undefined at NULL.
abbrev pub deref {ℓ} : {A : Type ℓ} → Option A → Outcome A
deref none = fault
deref (some a) = done a
