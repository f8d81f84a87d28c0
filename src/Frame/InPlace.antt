-- ===== src/Frame/InPlace.antt =====
-- Parsing a frame writes sensors in place, whatever the frame and the sensors are.
use can_monitor.Base.{
  ℕ, zero, suc, List, [], ◌∷◌, Bytes, Option, some, length, Safe, Safe-done, Safe-fault, Safe-bind,
  Safe-any, ◌≡◌, refl, arith,
}
use can_monitor.Frame.Mask.{CanFrame}
use can_monitor.Frame.Parse.{parse_sensor, parse_slot, parse_chain, parse_cells, parse_can_frame}
use can_monitor.Tables.Defs.{live, freed, Slot, Node, Table}
use can_monitor.Tables.Map.{Represents}
use can_monitor.Tables.Rewriting.{
  Rewritten, RewrittenChain, no_nodes, also_node, RewrittenCells, no_chains, also_chain,
  rewritten_map, rewriting-Represents,
}
use can_monitor.Tables.Sensors.{Sensor}

-- Any value may follow any other.
abbrev AnySensor : Sensor → Sensor → Type 0
AnySensor s s' = Unit

module _ (print_double : ℕ → Bytes) (frame : CanFrame) (timestamp : ℕ) where
  parse_node-Rewritten :
      (n : Node Sensor) (slot : Slot Sensor)
      → n.slot ≡ slot
      → Safe
          (λ r. Rewritten AnySensor n (record n { slot = r.0 }))
          (parse_slot print_double frame timestamp slot)
  unfolding parse_slot
  parse_node-Rewritten n freed e = Safe-fault
  parse_node-Rewritten n (live s) e = Safe-any (parse_sensor print_double frame timestamp s) _ λ r.
      Safe-done (record { key = refl; old = s; new = r.0; before = e; after = refl; related = tt })

  parse_chain-Rewritten :
      (c : List (Node Sensor))
      → Safe (λ r. RewrittenChain AnySensor c r.0) (parse_chain print_double frame timestamp c)
  unfolding parse_chain
  parse_chain-Rewritten [] = Safe-done no_nodes
  parse_chain-Rewritten (n ∷ ns) =
      Safe-bind (parse_slot print_double frame timestamp n.slot) _
        (parse_node-Rewritten n n.slot refl)
        λ r h.
          Safe-bind (parse_chain print_double frame timestamp ns) _ (parse_chain-Rewritten ns)
            λ rest h'. Safe-done (also_node h h')

  parse_cells-Rewritten :
      (left : ℕ) (cs : List (List (Node Sensor)))
      → length cs ≡ left
      → Safe
          (λ r. RewrittenCells AnySensor cs r.0)
          (parse_cells print_double frame timestamp left cs)
  unfolding parse_cells
  parse_cells-Rewritten zero [] e = Safe-done no_chains
  parse_cells-Rewritten zero (c ∷ cs) e = absurd (omega arith)
  parse_cells-Rewritten (suc left) [] e = Safe-fault
  parse_cells-Rewritten (suc left) (c ∷ cs) e =
      Safe-bind (parse_chain print_double frame timestamp c) _ (parse_chain-Rewritten c) λ r h.
        Safe-bind (parse_cells print_double frame timestamp left cs) _
          (parse_cells-Rewritten left cs (omega arith)) λ rest h'. Safe-done (also_chain h h')

  -- The table that parsing leaves.
  pub record Reparsed (o : Option (Table Sensor)) : Type 0 where
    pub t : Table Sensor
    pub f : Bytes → Option Sensor
    pub at : o ≡ some t
    pub represents : Represents t f

  pub parse_can_frame-Reparsed :
      {t : Table Sensor} {f : Bytes → Option Sensor}
      → Represents t f
      → Safe (λ r. Reparsed r.0) (parse_can_frame print_double frame timestamp (some t))
  unfolding parse_can_frame
  parse_can_frame-Reparsed {t} {f} r =
      Safe-bind (parse_cells print_double frame timestamp t.size t.array) _
        (parse_cells-Rewritten t.size t.array r.valid.sized)
        λ cells w. Safe-done (record {
          t = record t { array = cells.0 };
          f = rewritten_map AnySensor (record t { array = cells.0 });
          at = refl;
          represents = rewriting-Represents AnySensor r cells.0 w;
        })
