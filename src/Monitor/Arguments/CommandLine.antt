-- ===== src/Monitor/Arguments/CommandLine.antt =====
-- The loop over the arguments ends, and understands the options as they are meant to be written.
use can_monitor.Base.{
  ℕ, zero, suc, ◌<◌, List, [], ◌∷◌, ◌++◌, Bytes, Option, some, Bool, true, false, ◌||◌, codes,
  str_eq, length, if◌then◌else◌, ◌≡◌, ◌≢◌, ◌⊎◌, inl, inr, refl, arith,
}
use can_monitor.Monitor.Arguments.{
  Tested, taken, missing, other, test_arg, Arguments, left, chosen, parse_arguments,
}

-- What is taken leaves fewer arguments.
test_arg-lt :
    (pshort plong arg : Bytes) (rest : List Bytes) (value : Bytes) (rest' : List Bytes)
    → test_arg pshort plong arg rest ≡ taken value rest'
    → length rest' < suc (length rest)
unfolding test_arg
test_arg-lt pshort plong arg [] value rest' h = ground arith
test_arg-lt pshort plong arg (v ∷ rest) value rest' h = ground arith

-- With more fuel than there are arguments, the loop over the command line ends.
pub parse_arguments-total :
    (fuel : ℕ) (args : List Bytes) (svcname : Bytes) (config_file : Option Bytes)
    → length args < fuel
    → (r : Arguments) × (parse_arguments fuel args svcname config_file ≡ some r)
unfolding parse_arguments
parse_arguments-total zero args svcname config_file h = absurd (omega arith)
parse_arguments-total (suc fuel) [] svcname config_file h = (chosen svcname config_file, refl)
parse_arguments-total (suc fuel) (arg ∷ rest) svcname config_file h =
    by_test (λ rest' name file less. parse_arguments-total fuel rest' name file less)
      (str_eq arg (codes "-h") || str_eq arg (codes "--help"))
      (test_arg (codes "-n") (codes "--name") arg rest)
      (test_arg-lt (codes "-n") (codes "--name") arg rest)
      (test_arg (codes "-c") (codes "--config") arg rest)
      (test_arg-lt (codes "-c") (codes "--config") arg rest)
  where
    by_test :
        ((rest' : List Bytes) (name : Bytes) (file : Option Bytes)
          → length rest' < fuel
          → (r : Arguments) × (parse_arguments fuel rest' name file ≡ some r))
        → (help : Bool) (named : Tested)
        → ((value : Bytes) (rest' : List Bytes)
            → named ≡ taken value rest'
            → length rest' < suc (length rest))
        → (filed : Tested)
        → ((value : Bytes) (rest' : List Bytes)
            → filed ≡ taken value rest'
            → length rest' < suc (length rest))
        → (r : Arguments) × ((if help then some left else elim named [
          | taken value rest' ↦ parse_arguments fuel rest' value config_file
          | missing ↦ some left
          | other ↦ elim filed [
            | taken value rest' ↦ parse_arguments fuel rest' svcname (some value)
            | missing ↦ some left
            | other ↦ some left
          ]
        ])
            ≡ some r)
    by_test go true named l filed l' = (left, refl)
    by_test go false (taken value rest') l filed l' =
        go rest' value config_file (omega (arith, l value rest' refl))
    by_test go false missing l filed l' = (left, refl)
    by_test go false other l (taken value rest') l' =
        go rest' svcname (some value) (omega (arith, l' value rest' refl))
    by_test go false other l missing l' = (left, refl)
    by_test go false other l other l' = (left, refl)

-- An option is written with its value behind it, by its short or its long name, or as
-- "--name=value".
pub data Form : Type 0 where
  short long equals : Form

pub data Setting : Type 0 where
  name_is : Form → Bytes → Setting
  config_is : Form → Bytes → Setting

abbrev pub words : Bytes → Bytes → Form → Bytes → List Bytes
words pshort plong short value = pshort ∷ value ∷ []
words pshort plong long value = plong ∷ value ∷ []
words pshort plong equals value = (plong ++ (b'=' ∷ value)) ∷ []

abbrev pub render : List Setting → List Bytes
render [] = []
render (name_is form value ∷ rest) = words (codes "-n") (codes "--name") form value ++ render rest
render (config_is form value ∷ rest) =
    words (codes "-c") (codes "--config") form value ++ render rest

-- A value behind '=' is not empty.
abbrev pub IsWritten : List Setting → Type 0
IsWritten [] = Unit
IsWritten (name_is form value ∷ rest) = ((form ≢ equals) ⊎ (value ≢ [])) × IsWritten rest
IsWritten (config_is form value ∷ rest) = ((form ≢ equals) ⊎ (value ≢ [])) × IsWritten rest

-- The last setting of each kind counts.
abbrev pub settle : List Setting → Bytes → Option Bytes → Arguments
settle [] svcname config_file = chosen svcname config_file
settle (name_is form value ∷ rest) svcname config_file = settle rest value config_file
settle (config_is form value ∷ rest) svcname config_file = settle rest svcname (some value)

nonempty : (value : Bytes) → (equals ≢ equals) ⊎ (value ≢ []) → str_eq value [] ≡ false
unfolding str_eq
nonempty [] (inl h) = absurd (h refl)
nonempty [] (inr h) = absurd (h refl)
nonempty (c ∷ value) h = refl

-- A command line that writes settings of the name and the file by the short option, the long
-- option or "--option=value", in the last form with a value that is not empty, is read back as
-- these settings, the last of each kind counting, with more fuel than there are arguments.
pub parse_arguments-render :
    (settings : List Setting) (fuel : ℕ) (svcname : Bytes) (config_file : Option Bytes)
    → IsWritten settings
    → length (render settings) < fuel
    → parse_arguments fuel (render settings) svcname config_file
      ≡ some (settle settings svcname config_file)
unfolding parse_arguments str_eq
parse_arguments-render settings zero svcname config_file w h = absurd (omega arith)
parse_arguments-render [] (suc fuel) svcname config_file w h = refl
parse_arguments-render (name_is short value ∷ rest) (suc fuel) svcname config_file w h =
    parse_arguments-render rest fuel value config_file w.1 (omega arith)
parse_arguments-render (name_is long value ∷ rest) (suc fuel) svcname config_file w h =
    parse_arguments-render rest fuel value config_file w.1 (omega arith)
parse_arguments-render (name_is equals value ∷ rest) (suc fuel) svcname config_file w h =
    rw (nonempty value w.0) (parse_arguments-render rest fuel value config_file w.1 (omega arith))
parse_arguments-render (config_is short value ∷ rest) (suc fuel) svcname config_file w h =
    parse_arguments-render rest fuel svcname (some value) w.1 (omega arith)
parse_arguments-render (config_is long value ∷ rest) (suc fuel) svcname config_file w h =
    parse_arguments-render rest fuel svcname (some value) w.1 (omega arith)
parse_arguments-render (config_is equals value ∷ rest) (suc fuel) svcname config_file w h =
    rw (nonempty value w.0)
      (parse_arguments-render rest fuel svcname (some value) w.1 (omega arith))
