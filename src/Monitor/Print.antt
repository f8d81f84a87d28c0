-- ===== src/Monitor/Print.antt =====
-- The functions print_* of src/CanMonitor/CanMonitor.c, which are compiled when DEV is not 0: what
-- they print.
pub mod Total
use can_monitor.Base.{
  ℕ, zero, suc, ◌+◌, ◌*◌, ◌%◌, ◌^◌, List, [], ◌∷◌, ◌++◌, Bytes, Option, none, some, true, codes,
  get_elem?, Outcome, done, fault, ◌>>=◌,
}
use can_monitor.Libc.Decimal.{decimal, signed_decimal}
use can_monitor.Service.Reads.{at_slot}
use can_monitor.Service.State.{State, MsStatus}
use can_monitor.Tables.Defs.{Node, Table}
use can_monitor.Tables.Sensorgroups.{Sensorgroup, Timeval, htsg_put}
use can_monitor.Tables.Sensors.{Sensor, hts_put}

-- "%d" of an `uint32_t`.
abbrev print_int : ℕ → Bytes
print_int n = signed_decimal 32 n

unfoldable pub print_sensor : Sensor → Bytes
print_sensor s =
    codes "Printing new sensor\n"
    ++ (codes "\tSensor ID: "
        ++ (s.id
            ++ (codes "\n\tSensor name: "
                ++ (s.name
                    ++ (codes "\n\tSensor type: "
                        ++ (s.type
                            ++ (codes "\n\tSensor settings:\n\t\tCan ID: "
                                ++ (print_int s.can_id
                                    ++ (codes "\n\t\tInit bit: "
                                        ++ (print_int s.init_bit
                                            ++ (codes "\n\t\tEnd bit: "
                                                ++ (print_int s.end_bit
                                                    ++ (codes "\n\tSampling rate: "
                                                        ++ (print_int s.sampling_rate
                                                            ++ (codes "\n\tValue: "
                                                            ++ (s.value
                                                            ++ (codes "\n\tTimestamp: "
                                                            ++ (decimal s.timestamp
                                                            ++ codes "\n"))))))))))))))))))

-- The identifiers of a group from `i` on, `left` of them, each between two texts.
unfoldable pub print_members : Bytes → Bytes → ℕ → ℕ → List Bytes → Outcome Bytes
print_members before after zero i ids = done []
print_members before after (suc left) i ids = elim (get_elem? ids i) [
  | none ↦ fault
  | some id ↦ print_members before after left (i + 1) ids >>= λ rest.
      done (before ++ (id ++ (after ++ rest)))
]

unfoldable pub print_sensorgroup : Sensorgroup → Outcome Bytes
unfolding print_members
print_sensorgroup sg =
    print_members (codes "\t\t") (codes "\n") sg.sensorcount 0 sg.sensor_list >>= λ list.
    let published = sg.last_publish_time.tv_sec * 1000000 + sg.last_publish_time.tv_usec in
    done (
      codes "Printing new sensorgroup\n"
      ++ (codes "\tSensor ID: "
          ++ (sg.id
              ++ (codes "\n\tPublish_rate: "
                  ++ (print_int sg.publish_rate
                      ++ (codes "\n\tLast published: "
                          ++ (decimal (published % 2 ^ 64)
                              ++ (codes "\n\tSensorlist:\n" ++ list))))))))

-- The lines of a chain: the key, the value, and a rule.
unfoldable pub print_chain : {V : Type 0} → (V → Outcome Bytes) → List (Node V) → Outcome Bytes
unfolding at_slot
print_chain value [] = done []
print_chain value (n ∷ ns) = at_slot (some n.slot) >>= λ v. value v >>= λ text.
    print_chain value ns >>= λ rest.
    done (
      codes "\tkey: " ++ (n.key ++ (codes "\n\tval: " ++ (text ++ (codes "\t--------\n" ++ rest)))))

unfoldable pub print_cells :
    {V : Type 0} → (V → Outcome Bytes) → ℕ → ℕ → List (List (Node V)) → Outcome Bytes
unfolding print_chain
print_cells value zero i cs = done []
print_cells value (suc left) i [] = fault
print_cells value (suc left) i (c ∷ cs) = print_chain value c >>= λ text.
    print_cells value left (i + 1) cs >>= λ rest.
    done
      (print_int i ++ (codes "\n\t--------\n" ++ (text ++ (codes "\tNULL\n\t--------\n" ++ rest))))

abbrev pub sensors_heading : Bytes
sensors_heading =
    codes "**************************\n******** Sensors *********\n**************************\n"

abbrev pub groups_heading : Bytes
groups_heading =
    codes "**************************\n****** Sensorgroups ******\n**************************\n"

-- A table below its heading.
unfoldable pub print_table :
    {V : Type 0} → Bytes → (V → Outcome Bytes) → Option (Table V) → Outcome Bytes
unfolding print_cells
print_table heading value none = fault
print_table heading value (some t) =
    print_cells value t.size 0 t.array >>= λ text. done (heading ++ text)

abbrev pub sensor_line : Sensor → Bytes
sensor_line s =
    codes "ID: "
    ++ (s.id
        ++ (codes ". Name: "
            ++ (s.name
                ++ (codes ". Type: "
                    ++ (s.type
                        ++ (codes ". CanID: "
                            ++ (print_int s.can_id
                                ++ (codes ". Init bit: "
                                    ++ (print_int s.init_bit
                                        ++ (codes ". End bit: "
                                            ++ (print_int s.end_bit
                                                ++ (codes ". Sampling_rate: "
                                                    ++ (print_int s.sampling_rate
                                                        ++ (codes ". Value: "
                                                            ++ (s.value
                                                            ++ (codes ". Timestamp: "
                                                            ++ (decimal s.timestamp
                                                            ++ codes "\n")))))))))))))))))

unfoldable pub print_sensors_table : Option (Table Sensor) → Outcome Bytes
unfolding print_table
print_sensors_table sensors = print_table sensors_heading (λ s. done (sensor_line s)) sensors

-- `print_seconds` is the text of a time in seconds, a `double`, with "%f".
module _ (print_seconds : Timeval → Bytes) where
  unfoldable pub group_line : Sensorgroup → Outcome Bytes
  unfolding print_members
  group_line sg = print_members (codes " ") (codes "") sg.sensorcount 0 sg.sensor_list >>= λ list.
      done (
        codes "ID: "
        ++ (sg.id
            ++ (codes ". Publish_rate: "
                ++ (print_int sg.publish_rate
                    ++ (codes ". Last published: "
                        ++ (print_seconds sg.last_publish_time
                            ++ (codes ". Sensor count: "
                                ++ (signed_decimal 64 sg.sensorcount
                                    ++ (codes ". Sensorlist:" ++ (list ++ codes ".\n"))))))))))

  unfoldable pub print_sensorgroups_table : Option (Table Sensorgroup) → Outcome Bytes
  unfolding print_table group_line
  print_sensorgroups_table groups = print_table groups_heading group_line groups

  unfoldable pub print_struct : State → Outcome Bytes
  unfolding print_sensors_table print_sensorgroups_table
  print_struct st = print_sensors_table st.sensors_table >>= λ sensors.
      print_sensorgroups_table st.sensorgroup_table >>= λ groups. done (sensors ++ groups)
