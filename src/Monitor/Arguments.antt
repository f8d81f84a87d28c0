-- ===== src/Monitor/Arguments.antt =====
-- The command line: `test_arg` of src/CanMonitor/CanMonitor.c, and the loop of `main` over `argv`.
pub mod CommandLine
use can_monitor.Base.{
  ℕ, zero, suc, List, [], ◌∷◌, Bytes, Option, none, some, Bool, true, false, ◌||◌, codes, str_eq,
  ◌==◌, if◌then◌else◌, Outcome, done, fault,
}
use can_monitor.Rest.Server.{has_prefix}

-- What stands before the first '=' and what stands behind it (`strchr`).
unfoldable pub split_at_eq : Bytes → Option (Bytes × Bytes)
split_at_eq [] = none
split_at_eq (c ∷ cs) =
    let rest = split_at_eq cs in
    if c == b'='
    then some ([], cs)
    else elim rest [ none ↦ none | some (name, value) ↦ some (c ∷ name, value) ]

-- `true` with the value and the arguments behind it; `exit(0)` for want of a value; `false`.
pub data Tested : Type 0 where
  taken : Bytes → List Bytes → Tested
  missing : Tested
  other : Tested

-- The form "option=value". `strncmp` compares as many bytes as stand before the '='.
unfoldable pub test_with_eq : Bytes → Bytes → List Bytes → Option (Bytes × Bytes) → Tested
unfolding has_prefix
test_with_eq pshort plong rest none = other
test_with_eq pshort plong rest (some (name, value)) =
    if has_prefix name pshort || has_prefix name plong
    then (if str_eq value [] then missing else taken value rest)
    else other

-- The argument at hand, and those behind it.
unfoldable pub test_arg : Bytes → Bytes → Bytes → List Bytes → Tested
unfolding split_at_eq test_with_eq
test_arg pshort plong arg rest =
    if str_eq arg pshort || str_eq arg plong
    then elim rest [ [] ↦ missing | value ∷ rest' ↦ taken value rest' ]
    else test_with_eq pshort plong rest (split_at_eq arg)

-- How the loop ends: the program is left, or it goes on with a name and a file.
pub data Arguments : Type 0 where
  left : Arguments
  chosen : Bytes → Option Bytes → Arguments

-- `none` is for fuel that has run out.
unfoldable pub parse_arguments : ℕ → List Bytes → Bytes → Option Bytes → Option Arguments
unfolding test_arg
parse_arguments zero args svcname config_file = none
parse_arguments (suc fuel) [] svcname config_file = some (chosen svcname config_file)
parse_arguments (suc fuel) (arg ∷ rest) svcname config_file =
    if str_eq arg (codes "-h") || str_eq arg (codes "--help")
    then some left
    else elim (test_arg (codes "-n") (codes "--name") arg rest) [
      | taken value rest' ↦ parse_arguments fuel rest' value config_file
      | missing ↦ some left
      | other ↦ elim (test_arg (codes "-c") (codes "--config") arg rest) [
        | taken value rest' ↦ parse_arguments fuel rest' svcname (some value)
        | missing ↦ some left
        | other ↦ some left
      ]
    ]
