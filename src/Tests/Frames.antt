-- ===== src/Tests/Frames.antt =====
-- The theorems on frames and texts.
use mathlib.Core.Path.{subst}
use can_monitor.Base.{
  ℕ, ◌+◌, ◌*◌, ◌%◌, ◌^◌, ◌≤◌, true, List, [], ◌∷◌, Bytes, Option, none, some, codes, str_eq, done,
  fault, ◌≡◌, ◌↔◌, ◌⊎◌, refl, arith,
}
use can_monitor.Frame.Cast.{var_cast, var_cast-integers, whole}
use can_monitor.Frame.Extract.{IsFrame, payload, mask_can_frame-signal, mask_can_frame-fault_iff}
use can_monitor.Frame.Mask.{mask_can_frame}
use can_monitor.Frame.Parse.{Overrun, parse_can_frame}
use can_monitor.Frame.Sampling.{Readable, sampled, parse_can_frame-Represents}
use can_monitor.Frame.Signal.{AllBytes, signal}
use can_monitor.Libc.Decimal.{decimal, signed_decimal}
use can_monitor.Tables.Defs.{Table, create}
use can_monitor.Tables.Map.{
  Represents, with_key, Op, put_op, run_ops, map_ops, create-run_ops-Represents,
}
use can_monitor.Tables.Sensors.{Sensor}
use can_monitor.Tables.Values.{map_table}
use can_monitor.Tests.Examples.{speed, frame}
use mathlib.Core.Option

frame-AllBytes : AllBytes frame.bytes
frame-AllBytes = (
  omega arith,
  (
    omega arith,
    (omega arith, (omega arith, (omega arith, (omega arith, (omega arith, (omega arith, tt)))))),
  ),
)

pub frame-IsFrame : IsFrame frame
frame-IsFrame = record { short = omega arith; room = omega arith; all_bytes = frame-AllBytes }

mask_can_frame-signal_example : mask_can_frame frame 8 15 ≡ done (signal (payload frame) 8 8)
mask_can_frame-signal_example =
    mask_can_frame-signal frame frame-IsFrame 8 15 (omega arith) (omega arith) (omega arith)

mask_can_frame-fault_iff_example :
    (mask_can_frame frame 8 16 ≡ fault) ↔ ((8 + 63 ≤ 16) ⊎ (8 * 2 ≤ 16))
mask_can_frame-fault_iff_example =
    mask_can_frame-fault_iff frame frame-IsFrame 8 16 (omega arith) (omega arith)

abbrev one_sensor : List (Op Sensor)
one_sensor = put_op (codes "speed") speed ∷ []

abbrev sensors : Bytes → Option Sensor
sensors = with_key (λ q. none) (codes "speed") speed

sensors-map_ops : map_ops one_sensor (λ q. none) ≡ some sensors
unfolding map_ops str_eq
sensors-map_ops = refl

sensors-table :
    (t : Table Sensor) × (run_ops one_sensor (create 10 true true) ≡ done (some t))
    × Represents t sensors
sensors-table = create-run_ops-Represents 10 one_sensor sensors (omega arith) sensors-map_ops

abbrev print_double : ℕ → Bytes
print_double v = codes "0.000000000000000"

speed-Readable : Readable print_double frame 1700000000 speed
speed-Readable same = (omega arith, omega arith, omega arith, λ e. cc)

all-Readable :
    (q : Bytes) (s : Sensor) → sensors q ≡ some s → Readable print_double frame 1700000000 s
all-Readable q s h =
    let same : speed ≡ s = ground arith in
    subst (λ v. Readable print_double frame 1700000000 v) same speed-Readable

parse_can_frame-Represents_example :
    (over : List Overrun) × (parse_can_frame print_double frame 1700000000 (some sensors-table.0)
      ≡ done (some (map_table (sampled print_double frame 1700000000) sensors-table.0), over))
    × Represents
        (map_table (sampled print_double frame 1700000000) sensors-table.0)
        (λ q. Option.map (sampled print_double frame 1700000000) (sensors q))
parse_can_frame-Represents_example =
    parse_can_frame-Represents print_double frame 1700000000 frame-IsFrame sensors-table.2
      all-Readable

var_cast-integers_example :
    let cast = var_cast print_double (codes "000") 300 in
    (cast (codes "Uint8") ≡ done (whole (decimal (300 % 2 ^ 8))))
    × (cast (codes "Uint16") ≡ done (whole (decimal (300 % 2 ^ 16))))
    × (cast (codes "Uint32") ≡ done (whole (decimal (300 % 2 ^ 32))))
    × (cast (codes "Uint64") ≡ done (whole (decimal 300)))
    × (cast (codes "Int8") ≡ done (whole (signed_decimal 8 (300 % 2 ^ 8))))
    × (cast (codes "Int16") ≡ done (whole (signed_decimal 16 (300 % 2 ^ 16))))
    × (cast (codes "Int32") ≡ done (whole (signed_decimal 32 (300 % 2 ^ 32))))
    × (cast (codes "Int64") ≡ done (whole (signed_decimal 64 300)))
var_cast-integers_example = var_cast-integers print_double (codes "000") 300 (omega arith)
