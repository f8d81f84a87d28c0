-- ===== src/Frame/Parse.antt =====
-- `parse_can_frame` of src/CanMonitor/CanMonitor.c: each sensor of the frame's identifier is
-- read anew, in place.
use can_monitor.Base.{
  ℕ, zero, suc, ◌+◌, ◌-◌, ◌^◌, List, [], ◌∷◌, ◌++◌, Bytes, Option, none, some, codes, ltb, ◌==◌,
  if◌then◌else◌, Outcome, done, fault, ◌>>=◌,
}
use can_monitor.Frame.Cast.{var_cast}
use can_monitor.Frame.Mask.{CanFrame, mask_can_frame}
use can_monitor.Tables.Defs.{Slot, live, freed, Node, Table}
use can_monitor.Tables.Sensors.{Sensor}

-- A write past the end of a buffer: how many bytes the buffer has, and how many were written.
-- C leaves it undefined; the model goes on as if the bytes behind the buffer were nobody's, and
-- keeps a ledger of such writes.
pub record Overrun : Type 0 where
  pub capacity : ℕ
  pub written : ℕ

abbrev pub overrun : ℕ → ℕ → List Overrun
overrun capacity written =
    if ltb capacity written then record { capacity = capacity; written = written } ∷ [] else []

-- An `int` in 32 bits, converted to `uint64_t`.
abbrev pub sign_extend : ℕ → ℕ
sign_extend n = if ltb n (2 ^ 31) then n else n + 2 ^ 64 - 2 ^ 32

module _ (print_double : ℕ → Bytes) (frame : CanFrame) (timestamp : ℕ) where
  -- One sensor. The buffer `strdup("000")` has 4 bytes.
  unfoldable pub parse_sensor : Sensor → Outcome (Sensor × List Overrun)
  parse_sensor s =
      if frame.can_id == s.can_id
      then (mask_can_frame frame s.init_bit s.end_bit >>= λ var_value.
          var_cast print_double (codes "000") var_value s.type >>= λ cast. done (
            record s { value = cast.text; timestamp = sign_extend timestamp },
            overrun 4 cast.written,
          ))
      else done (s, [])

  unfoldable pub parse_slot : Slot Sensor → Outcome (Slot Sensor × List Overrun)
  unfolding parse_sensor
  parse_slot (live s) = do r ← parse_sensor s; done (live r.0, r.1)
  parse_slot freed = fault

  unfoldable pub parse_chain : List (Node Sensor) → Outcome (List (Node Sensor) × List Overrun)
  unfolding parse_slot
  parse_chain [] = done ([], [])
  parse_chain (n ∷ ns) = do
    r ← parse_slot n.slot
    rest ← parse_chain ns
    done (record n { slot = r.0 } ∷ rest.0, r.1 ++ rest.1)

  -- The loop over the cells, with `left` to go.
  unfoldable pub parse_cells :
      ℕ → List (List (Node Sensor)) → Outcome (List (List (Node Sensor)) × List Overrun)
  unfolding parse_chain
  parse_cells zero cs = done (cs, [])
  parse_cells (suc left) [] = fault
  parse_cells (suc left) (c ∷ cs) = do
    r ← parse_chain c
    rest ← parse_cells left cs
    done (r.0 ∷ rest.0, r.1 ++ rest.1)

  unfoldable pub parse_can_frame :
      Option (Table Sensor) → Outcome (Option (Table Sensor) × List Overrun)
  unfolding parse_cells
  parse_can_frame none = fault
  parse_can_frame (some t) = do
    r ← parse_cells t.size t.array
    done (some (record t { array = r.0 }), r.1)
