-- ===== src/Monitor/Print/Total.antt =====
-- Printing the tables returns.
use can_monitor.Base.{
  ℕ, zero, suc, ◌+◌, ◌≤◌, List, [], ◌∷◌, ◌++◌, flatten, Bytes, Option, some, length, codes, Outcome,
  done, Gives, >>=-Gives, ◌≡◌, refl, arith,
}
use can_monitor.Base.Windows.{get_elem?-drop}
use can_monitor.Service.Reads.{at_slot}
use can_monitor.Service.Removal.Deletion.{IsRoomy}
use can_monitor.Service.State.{State}
use can_monitor.Tables.Defs.{Node, Table}
use can_monitor.Tables.Entries.{AllHold, AllHold-append, entries-AllHold}
use can_monitor.Tables.Map.{Represents}
use can_monitor.Tables.Sensorgroups.{Sensorgroup, Timeval}
use can_monitor.Tables.Sensors.{Sensor}
use can_monitor.Monitor.Print.{
  print_members, print_chain, print_cells, print_table, print_sensors_table, group_line,
  print_sensorgroups_table, sensor_line, sensors_heading, groups_heading, print_struct,
}

print_members-Gives :
    (before after : Bytes) (left i : ℕ) (ids : List Bytes)
    → i + left ≤ length ids
    → Gives (print_members before after left i ids)
unfolding print_members
print_members-Gives before after zero i ids h = ([], refl)
print_members-Gives before after (suc left) i ids h =
    let (id, at, _) = get_elem?-drop i ids (omega arith) in
    let (text, e) = print_members-Gives before after left (i + 1) ids (omega arith) in
    (before ++ (id ++ (after ++ text)), rw (at, print_members, e) refl)

module _ {V : Type 0} (value : V → Outcome Bytes) where
  print_chain-Gives :
      (c : List (Node V)) → AllHold (λ v. Gives (value v)) c → Gives (print_chain value c)
  unfolding print_chain at_slot
  print_chain-Gives [] h = ([], refl)
  print_chain-Gives (n ∷ ns) h =
      let (v, at, shown) = h.0 in
      rw at (
        >>=-Gives (value v) _ shown
          λ text. >>=-Gives (print_chain value ns) _ (print_chain-Gives ns h.1) λ rest. (_, refl))

  print_cells-Gives :
      (left i : ℕ) (cs : List (List (Node V)))
      → length cs ≡ left
      → AllHold (λ v. Gives (value v)) (flatten cs)
      → Gives (print_cells value left i cs)
  unfolding print_cells flatten
  print_cells-Gives zero i cs e h = ([], refl)
  print_cells-Gives (suc left) i [] e h = absurd (omega arith)
  print_cells-Gives (suc left) i (c ∷ cs) e h =
      let (here, there) = AllHold-append (λ v. Gives (value v)) c (flatten cs) h in
      >>=-Gives (print_chain value c) _ (print_chain-Gives c here) λ text.
        >>=-Gives (print_cells value left (i + 1) cs) _
          (print_cells-Gives left (i + 1) cs (omega arith) there) λ rest. (_, refl)

  print_table-Gives :
      (heading : Bytes) {t : Table V} {f : Bytes → Option V}
      → Represents t f
      → ((q : Bytes) (v : V) → f q ≡ some v → Gives (value v))
      → Gives (print_table heading value (some t))
  unfolding print_table
  print_table-Gives heading {t} r h =
      >>=-Gives (print_cells value t.size 0 t.array) _
        (print_cells-Gives t.size 0 t.array r.valid.sized
          (entries-AllHold (λ v. Gives (value v)) r h))
        λ text. (_, refl)

module _ (print_seconds : Timeval → Bytes) where
  group_line-Gives : (sg : Sensorgroup) → IsRoomy sg → Gives (group_line print_seconds sg)
  unfolding group_line
  group_line-Gives sg room =
      >>=-Gives (print_members (codes " ") (codes "") sg.sensorcount 0 sg.sensor_list) _
        (print_members-Gives (codes " ") (codes "") sg.sensorcount 0 sg.sensor_list
          (omega (arith, room)))
        λ list. (_, refl)

  -- While the two tables represent maps and every group's array has room for its members, printing
  -- the tables, as a development build does, returns.
  pub print_struct-Gives :
      (st : State) {t : Table Sensor} {u : Table Sensorgroup} {f : Bytes → Option Sensor}
      {g : Bytes → Option Sensorgroup}
      → st.sensors_table ≡ some t
      → st.sensorgroup_table ≡ some u
      → Represents t f
      → Represents u g
      → ((q : Bytes) (sg : Sensorgroup) → g q ≡ some sg → IsRoomy sg)
      → Gives (print_struct print_seconds st)
  unfolding print_struct print_sensors_table print_sensorgroups_table
  print_struct-Gives st {t} {u} at groups_at r r' room =
      rw (at, groups_at)
        (>>=-Gives (print_sensors_table (some t)) _
          (print_table-Gives (λ s. done (sensor_line s)) sensors_heading r
            (λ q s there. (sensor_line s, refl)))
          λ sensors.
            >>=-Gives (print_sensorgroups_table print_seconds (some u)) _
              (print_table-Gives (group_line print_seconds) groups_heading r'
                (λ q sg there. group_line-Gives sg (room q sg there)))
              λ groups. (_, refl))
