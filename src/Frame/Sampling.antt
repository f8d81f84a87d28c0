-- ===== src/Frame/Sampling.antt =====
-- What a frame does to the sensors as a map from identifiers.
use can_monitor.Base.{
  done_of_ne_fault, ℕ, zero, suc, ◌+◌, ◌-◌, ◌*◌, ◌≤◌, ◌<◌, List, [], ◌∷◌, ◌++◌, flatten, Bytes,
  Option, some, length, codes, str_eq_iff, ◌==◌, ==_iff, Bool-cases, if◌then◌else◌, Outcome, done,
  fault, ◌≡◌, ◌≢◌, inl, inr, refl, arith,
}
use can_monitor.Frame.Cast.{var_cast}
use can_monitor.Frame.Extract.{IsFrame, payload, mask_can_frame-signal}
use can_monitor.Frame.Mask.{CanFrame}
use can_monitor.Frame.Parse.{
  Overrun, overrun, sign_extend, parse_sensor, parse_chain, parse_cells, parse_can_frame,
}
use can_monitor.Frame.Signal.{signal}
use can_monitor.Libc.Decimal.{Written}
use can_monitor.Tables.Defs.{Node, Table}
use can_monitor.Tables.Entries.{AllHold, AllHold-append, entries-AllHold}
use can_monitor.Tables.Map.{Represents}
use can_monitor.Tables.Sensors.{Sensor}
use can_monitor.Tables.Values.{map_chain, map_chains, map_table, map_table-Represents}
use mathlib.Core.Option

-- Only the type "string" can read past the value.
var_cast-ne-fault :
    (print_double : ℕ → Bytes) (old : Bytes) (v : ℕ) (type : Bytes)
    → type ≢ codes "string"
    → var_cast print_double old v type ≢ fault
unfolding var_cast
var_cast-ne-fault print_double old v type h = ground (arith, str_eq_iff type (codes "string"))

module _ (print_double : ℕ → Bytes) (frame : CanFrame) (timestamp : ℕ) where
  abbrev text_or : Bytes → Outcome Written → Bytes
  text_or d (done w) = w.text
  text_or d fault = d

  -- The text that a sensor gets from the frame.
  abbrev pub sampled_text : Sensor → Bytes
  sampled_text s = text_or [] (
      var_cast print_double (codes "000")
        (signal (payload frame) s.init_bit (s.end_bit + 1 - s.init_bit)) s.type)

  abbrev pub sampled : Sensor → Sensor
  sampled s =
      if frame.can_id == s.can_id
      then record s { value = sampled_text s; timestamp = sign_extend timestamp }
      else s

  -- A sensor that the frame concerns lies inside it, is narrower than 64 bits, and its type is
  -- not the one that is printed as a C string.
  abbrev pub Readable : Sensor → Type 0
  Readable s =
      frame.can_id ≡ s.can_id
      → (s.init_bit ≤ s.end_bit)
        × (s.end_bit < 8 * frame.can_dlc)
        × (s.end_bit < s.init_bit + 63)
        × (s.type ≢ codes "string")

  module _ (ok : IsFrame frame) where
    parse_sensor-sampled :
        (s : Sensor)
        → Readable s
        → (over : List Overrun) × (parse_sensor print_double frame timestamp s
            ≡ done (sampled s, over))
    unfolding parse_sensor
    parse_sensor-sampled s h = elim (Bool-cases (frame.can_id == s.can_id)) [
      | inr other ↦ ([], rw other)
      | inl same ↦
          let (order, inside, narrow, text) = h ((==_iff frame.can_id s.can_id).0 same) in
          let v = signal (payload frame) s.init_bit (s.end_bit + 1 - s.init_bit) in
          let (w, cast) =
            done_of_ne_fault (var_cast print_double (codes "000") v s.type)
              (var_cast-ne-fault print_double (codes "000") v s.type text) in
          (
            overrun 4 w.written,
            rw (
              same,
              mask_can_frame-signal frame ok s.init_bit s.end_bit order inside narrow,
              cast,
            ),
          )
    ]

    parse_chain-sampled :
        (c : List (Node Sensor))
        → AllHold Readable c
        → (over : List Overrun) × (parse_chain print_double frame timestamp c
            ≡ done (map_chain sampled c, over))
    unfolding parse_chain
    parse_chain-sampled [] h = ([], refl)
    parse_chain-sampled (n ∷ ns) h =
        let (v, at, readable) = h.0 in
        let (o, e) = parse_sensor-sampled v readable in
        let (rest, e') = parse_chain-sampled ns h.1 in (o ++ rest, rw (at, e, e'))

    parse_cells-sampled :
        (left : ℕ) (cs : List (List (Node Sensor)))
        → length cs ≡ left
        → AllHold Readable (flatten cs)
        → (over : List Overrun) × (parse_cells print_double frame timestamp left cs
            ≡ done (map_chains sampled cs, over))
    unfolding parse_cells flatten
    parse_cells-sampled zero [] e h = ([], refl)
    parse_cells-sampled zero (c ∷ cs) e h = absurd (omega arith)
    parse_cells-sampled (suc left) [] e h = absurd (omega arith)
    parse_cells-sampled (suc left) (c ∷ cs) e h =
        let (here, there) = AllHold-append Readable c (flatten cs) h in
        let (o, p) = parse_chain-sampled c here in
        let (rest, p') = parse_cells-sampled left cs (omega arith) there in (o ++ rest, rw (p, p'))

    -- For a frame of at most 8 data bytes and a table that represents a map: when every sensor of
    -- the frame's identifier lies inside the frame, is narrower than 64 bits and is not of the
    -- type "string", parsing the frame returns, and gives each of them the text of its signal and
    -- the time of the frame; every other sensor is as it was, and none comes or goes.
    pub parse_can_frame-Represents :
        {t : Table Sensor} {f : Bytes → Option Sensor}
        → Represents t f
        → ((q : Bytes) (s : Sensor) → f q ≡ some s → Readable s)
        → (over : List Overrun) × (parse_can_frame print_double frame timestamp (some t)
            ≡ done (some (map_table sampled t), over))
          × Represents (map_table sampled t) (λ q. Option.map sampled (f q))
    unfolding parse_can_frame
    parse_can_frame-Represents {t} {f} r readable =
        let (over, e) =
          parse_cells-sampled t.size t.array r.valid.sized (entries-AllHold Readable r readable) in
        (over, rw e, map_table-Represents sampled r)
