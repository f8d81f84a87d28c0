-- ===== src/Tests/Requests.antt =====
-- The theorems on the handlers of the sensors.
use can_monitor.Base.{◌↔◌, ◌≢◌}
use can_monitor.Service.Connection.{next}
use can_monitor.Libc.Scan.{sscanf_u32}
use mathlib.Core.Path.{subst}
use can_monitor.Base.{
  ◌+◌, ◌%◌, ◌^◌, ◌≤◌, true, [], ◌∷◌, Bytes, Option, none, some, codes, str_eq, length, done, ◌≡◌,
  refl, arith,
}
use can_monitor.Service.Removal.Deletion.{
  IsRoomy, without_member, AllKnown, occurrences, delete-AllKnown,
}
use can_monitor.Service.Removal.Members.{members, remove_first, leave_group-members}
use can_monitor.Service.Removal.{leave_group}
use can_monitor.Service.Sensors.Creation.{
  IsPayload, settings-flag, create_sensors_configuration_iff, error_text,
}
use can_monitor.Service.Sensors.{Settings, create_sensors_configuration, sensor_settings}
use can_monitor.Service.State.{State, Reply, Response}
use can_monitor.Tables.Defs.{Table, create}
use can_monitor.Tables.Map.{
  Represents, with_key, without_key, put_op, run_ops, map_ops, create-run_ops-Represents,
}
use can_monitor.Tables.Sensorgroups.{Sensorgroup}
use can_monitor.Tables.Sensors.{Sensor}
use can_monitor.Tests.Documents.{json_of, object}
use can_monitor.Tests.Examples.{speed, group, fresh, new_sensor, same_settings}

abbrev pub nothing : Bytes → Option Sensor
nothing q = none

abbrev pub sensors : Bytes → Option Sensor
sensors = with_key nothing (codes "speed") speed

abbrev pub groups : Bytes → Option Sensorgroup
groups = with_key (λ q. none) (codes "motor") group

pub empty_table :
    (t : Table Sensor) × (run_ops [] (create 10 true true) ≡ done (some t)) × Represents t nothing
unfolding map_ops
empty_table = create-run_ops-Represents 10 [] nothing (omega arith) refl

sensors-map_ops : map_ops (put_op (codes "speed") speed ∷ []) (λ q. none) ≡ some sensors
unfolding map_ops str_eq
sensors-map_ops = refl

pub sensors_table :
    (t : Table Sensor) × (run_ops (put_op (codes "speed") speed ∷ []) (create 10 true true)
      ≡ done (some t))
    × Represents t sensors
sensors_table =
    create-run_ops-Represents 10 (put_op (codes "speed") speed ∷ []) sensors (omega arith)
      sensors-map_ops

groups-map_ops : map_ops (put_op (codes "motor") group ∷ []) (λ q. none) ≡ some groups
unfolding map_ops str_eq
groups-map_ops = refl

pub groups_table :
    (t : Table Sensorgroup) × (run_ops (put_op (codes "motor") group ∷ []) (create 10 true true)
      ≡ done (some t))
    × Represents t groups
groups_table =
    create-run_ops-Represents 10 (put_op (codes "motor") group ∷ []) groups (omega arith)
      groups-map_ops

-- Both tables are made; the second state holds a sensor and a group.
abbrev pub started : State
started = record fresh { sensors_table = some empty_table.0 }

abbrev pub filled : State
filled = record fresh {
  sensors_table = some sensors_table.0;
  sensorgroup_table = some groups_table.0;
}

group-IsRoomy : IsRoomy group
group-IsRoomy = omega arith

pub all-IsRoomy : (q : Bytes) (sg : Sensorgroup) → groups q ≡ some sg → IsRoomy sg
all-IsRoomy q sg h =
    let same : group ≡ sg = ground arith in subst (λ g. IsRoomy g) same group-IsRoomy

speed-sensors : sensors (codes "speed") ≡ some speed
unfolding str_eq
speed-sensors = refl

abbrev pub settings : Settings
settings = record { can_id = 291; init_bit = 8; end_bit = 15; flag = 3 }

pub new_sensor-IsPayload :
    IsPayload
      (json_of new_sensor)
      (codes "{")
      (codes "speed")
      (codes "Speed")
      (codes "Uint8")
      settings
unfolding sensor_settings str_eq sscanf_u32
new_sensor-IsPayload = record {
  keys = (refl, refl, refl, refl, refl);
  texts = (refl, refl, refl);
  settings = (refl, refl);
}

create_sensors_configuration_iff_example :
    (r' : Reply) × (create_sensors_configuration (json_of new_sensor) (codes "{") filled ≡ done r')
    × ((r'.response ≡ Response.ok) ↔ (sensors (codes "speed") ≡ none))
    × (sensors (codes "speed") ≢ none
        → (r'.response ≡ Response.error)
          × (r'.text
              ≡ error_text (json_of new_sensor) (codes "A sensor with that id already exists"))
          × (r'.state ≡ record filled { overruns = r'.state.overruns }))
create_sensors_configuration_iff_example =
    create_sensors_configuration_iff (json_of new_sensor) new_sensor-IsPayload filled refl
      sensors_table.2

abbrev repeated : Settings
repeated = record { can_id = 3; init_bit = 0; end_bit = 0; flag = 3 }

repeated_read :
    sensor_settings
      (json_of object)
      3
      0
      (some same_settings)
      (record { can_id = 0; init_bit = 0; end_bit = 0; flag = 0 })
    ≡ done (next repeated)
unfolding sensor_settings str_eq sscanf_u32
repeated_read = refl

settings-flag_example : repeated.flag ≡ (0 + 3) % 2 ^ 8
settings-flag_example =
    settings-flag (json_of object) 3 0 (some same_settings)
      (record { can_id = 0; init_bit = 0; end_bit = 0; flag = 0 }) repeated (omega arith)
      repeated_read

leave_group-members_example :
    (sg' : Sensorgroup) × (leave_group (codes "speed") group ≡ done sg')
    × (members sg' ≡ remove_first (codes "speed") (members group))
    × (sg'.sensorcount ≤ length sg'.sensor_list)
    × (sg' ≡ record group { sensorcount = sg'.sensorcount; sensor_list = sg'.sensor_list })
leave_group-members_example = leave_group-members (codes "speed") group group-IsRoomy

abbrev two_sensors : Bytes → Option Sensor
two_sensors = with_key sensors (codes "heat") (record speed { id = codes "heat" })

group-AllKnown : AllKnown two_sensors (members group)
unfolding str_eq
group-AllKnown = (λ e. cc, (λ e. cc, tt))

once_in_group : occurrences (codes "speed") (members group) ≤ 1
unfolding str_eq
once_in_group = omega arith

delete-AllKnown_example :
    AllKnown
      (without_key two_sensors (codes "speed"))
      (members (without_member (codes "speed") group))
delete-AllKnown_example =
    delete-AllKnown two_sensors (codes "speed") group group-IsRoomy once_in_group group-AllKnown
