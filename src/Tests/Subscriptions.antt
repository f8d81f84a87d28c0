-- ===== src/Tests/Subscriptions.antt =====
-- The theorems on the groups and on reading, on tables that are written out.
use can_monitor.Service.Reads.{read_sensor_measurements}
use can_monitor.Libc.Scan.{atoi}
use can_monitor.Base.{
  ◌∙◌, List, [], ◌∷◌, Bytes, Option, none, some, true, codes, str_eq, Outcome, done, fault, ◌≡◌,
  refl, sym, arith,
}
use can_monitor.Tables.Hash.{hash}
use can_monitor.Tables.Defs.{put, live, Table, create}
use can_monitor.Rest.Callbacks.Reading.{OnlyLedger, get_handler-OnlyLedger}
use can_monitor.Rest.Callbacks.{get_handler}
use can_monitor.Service.GroupRemoval.Deletion.{delete_sensorgroups_subscription-Represents}
use can_monitor.Service.GroupRemoval.{delete_sensorgroups_subscription}
use can_monitor.Service.Groups.Created.{Created, create_sensorgroups_subscription-Created}
use can_monitor.Service.Groups.{create_sensorgroups_subscription}
use can_monitor.Service.Removal.Deletion.{by_id}
use can_monitor.Service.State.{State, Response, Reply, succeed}
use can_monitor.Tables.Map.{
  Represents, with_key, without_key, Op, put_op, run_ops, map_ops, create-run_ops-Represents,
}
use can_monitor.Tables.Sensorgroups.{Sensorgroup}
use can_monitor.Tables.Sensors.{Sensor}
use can_monitor.Tests.Documents.{json_of, object}
use can_monitor.Tests.Examples.{speed, group, fresh, new_group}
use mathlib.Core.Path.{subst}

abbrev one_sensor : List (Op Sensor)
one_sensor = put_op (codes "speed") speed ∷ []

abbrev pub sensors : Bytes → Option Sensor
sensors = with_key (λ q. none) (codes "speed") speed

abbrev one_group : List (Op Sensorgroup)
one_group = put_op (codes "motor") group ∷ []

abbrev groups : Bytes → Option Sensorgroup
groups = with_key (λ q. none) (codes "motor") group

-- One cell, and one node in it.
abbrev pub sensor_cell : Table Sensor
sensor_cell = record {
  size = 1;
  array = (record { key = codes "speed"; slot = live speed } ∷ []) ∷ [];
}

abbrev group_cell : Table Sensorgroup
group_cell = record {
  size = 1;
  array = (record { key = codes "motor"; slot = live group } ∷ []) ∷ [];
}

abbrev pub made : {V : Type 0} → Table V → Outcome (Option (Table V))
made t = done (some t)

table_of_made : {V : Type 0} {s t : Table V} → made s ≡ made t → s ≡ t
table_of_made e = cc

sensors-map_ops : map_ops one_sensor (λ q. none) ≡ some sensors
unfolding map_ops str_eq
sensors-map_ops = refl

groups-map_ops : map_ops one_group (λ q. none) ≡ some groups
unfolding map_ops str_eq
groups-map_ops = refl

run_ops-sensors : run_ops one_sensor (create 1 true true) ≡ made sensor_cell
unfolding run_ops create put hash
run_ops-sensors = refl

run_ops-groups : run_ops one_group (create 1 true true) ≡ made group_cell
unfolding run_ops create put hash
run_ops-groups = refl

-- A history of puts makes a table that represents its map.
pub represented :
    {V : Type 0} (ops : List (Op V)) (f : Bytes → Option V) (s : Table V)
    → map_ops ops (λ q. none) ≡ some f
    → run_ops ops (create 1 true true) ≡ made s
    → Represents s f
represented ops f s m e =
    let (t, e', r) = create-run_ops-Represents 1 ops f (omega arith) m in
    subst (λ c. Represents c f) (table_of_made (sym e' ∙ e)) r

pub sensor_cell-Represents : Represents sensor_cell sensors
sensor_cell-Represents = represented one_sensor sensors sensor_cell sensors-map_ops run_ops-sensors

group_cell-Represents : Represents group_cell groups
group_cell-Represents = represented one_group groups group_cell groups-map_ops run_ops-groups

abbrev filled : State
filled = record fresh { sensors_table = some sensor_cell; sensorgroup_table = some group_cell }

abbrev reply_of : Outcome Reply → Reply
reply_of (done r) = r
reply_of fault = succeed fresh

abbrev created : Reply
created = reply_of (create_sensorgroups_subscription (json_of new_group) (codes "{") filled)

created-ok : created.response ≡ Response.ok
unfolding create_sensorgroups_subscription str_eq hash atoi
created-ok = refl

creation_runs :
    create_sensorgroups_subscription (json_of new_group) (codes "{") filled ≡ done created
unfolding create_sensorgroups_subscription str_eq hash atoi
creation_runs = refl

create_sensorgroups_subscription-Created_example : Created sensors groups created
create_sensorgroups_subscription-Created_example =
    create_sensorgroups_subscription-Created (json_of new_group) (codes "{") filled sensor_cell
      group_cell sensors groups sensor_cell-Represents group_cell-Represents refl refl created
      created-ok creation_runs

motor-groups : groups (codes "motor") ≡ some group
unfolding str_eq
motor-groups = refl

delete_sensorgroups_subscription-Represents_example :
    (u' : Table Sensorgroup) × (delete_sensorgroups_subscription
        (json_of object)
        (codes "")
        (by_id (codes "motor"))
        filled
      ≡ record {
        response = Response.ok;
        text = codes "";
        state = record filled { sensorgroup_table = some u' };
      })
    × Represents u' (without_key groups (codes "motor"))
delete_sensorgroups_subscription-Represents_example =
    delete_sensorgroups_subscription-Represents (json_of object) (codes "") (codes "motor") filled
      group_cell groups group refl group_cell-Represents motor-groups

abbrev url : Bytes
url = codes "monitoring-agent/sensors"

abbrev measured : Reply
measured = reply_of (get_handler (json_of object) url (by_id (codes "speed")) filled)

reading_runs : get_handler (json_of object) url (by_id (codes "speed")) filled ≡ done measured
unfolding get_handler str_eq hash read_sensor_measurements
reading_runs = refl

get_handler-OnlyLedger_example : OnlyLedger filled measured.state
get_handler-OnlyLedger_example =
    get_handler-OnlyLedger (json_of object) filled measured url (by_id (codes "speed")) reading_runs
