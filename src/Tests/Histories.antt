-- ===== src/Tests/Histories.antt =====
-- The theorems on the tables.
use can_monitor.Base.{
  ℕ, ◌<◌, true, List, [], ◌∷◌, Bytes, Option, none, some, codes, str_eq, done, ◌≡◌, refl, arith,
}
use can_monitor.Tables.Defs.{live, freed, Table, create, put, get}
use can_monitor.Tables.Laws.{IsValid}
use can_monitor.Tables.Map.{
  Represents, with_key, without_key, Op, put_op, delete_op, run_ops, map_ops,
  create-run_ops-Represents,
}
use can_monitor.Tables.Methods.{Reads, put_present}

abbrev two : 0 < 2
two = omega arith

-- Put under two keys, of which the first goes again.
abbrev history : List (Op ℕ)
history = put_op (codes "ab") 7 ∷ put_op (codes "ba") 8 ∷ delete_op (codes "ab") ∷ []

abbrev outcome : Bytes → Option ℕ
outcome = without_key (with_key (with_key (λ q. none) (codes "ab") 7) (codes "ba") 8) (codes "ab")

outcome-map_ops : map_ops history (λ q. none) ≡ some outcome
unfolding map_ops str_eq
outcome-map_ops = refl

create-run_ops-Represents_example :
    (t' : Table ℕ) × (run_ops history (create 2 true true) ≡ done (some t')) × Represents t' outcome
create-run_ops-Represents_example = create-run_ops-Represents 2 history outcome two outcome-map_ops

abbrev table : Table ℕ
table = create-run_ops-Represents_example.0

abbrev table-Represents : Represents table outcome
table-Represents = create-run_ops-Represents_example.2

table-IsValid : IsValid table
table-IsValid = table-Represents.valid

reads_ba : get (some table) (codes "ba") ≡ some (live 8)
unfolding str_eq
reads_ba = table-Represents.reads (codes "ba")

put_present_example :
    (t' : Table ℕ) × (put true (some table) (codes "ba") 9 ≡ done (0, some t'))
    × Reads table t' (codes "ba") (some freed)
put_present_example = put_present table-IsValid (codes "ba") 9 8 reads_ba
