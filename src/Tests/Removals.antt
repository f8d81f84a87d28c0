-- ===== src/Tests/Removals.antt =====
-- The theorems on deleting and replacing, with two sensors that one group lists.
use can_monitor.Base.{
  List, [], ◌∷◌, Bytes, Option, none, some, true, codes, str_eq, done, fault, ◌≡◌, ◌≢◌, ◌↔◌, refl,
  arith,
}
use can_monitor.Service.Json.{Json}
use can_monitor.Service.Reads.Dangling.{read_sensorgroups_subscription-dangling}
use can_monitor.Service.Reads.Known.{read_sensorgroups_subscription_iff}
use can_monitor.Service.Reads.{read_sensorgroups_subscription}
use can_monitor.Service.Removal.Deletion.{AllKnown, by_id, without_member}
use can_monitor.Service.Removal.Members.{members}
use can_monitor.Service.Removal.Several.{
  by_ids, without_keys, AllThere, delete_sensors_configuration-several,
}
use can_monitor.Service.Removal.Update.{
  Loses, update_sensors_configuration-replaces, update_sensors_configuration-taken,
}
use can_monitor.Service.Removal.{delete_sensors_configuration, update_sensors_configuration}
use can_monitor.Service.Sensors.Creation.{described}
use can_monitor.Service.Sensors.Status.{ConfiguredUnlessRunning}
use can_monitor.Service.State.{State, MsStatus, Reply, Response, create_error_message, succeed}
use can_monitor.Tables.Defs.{Table, create}
use can_monitor.Tables.Map.{
  Represents, with_key, without_key, Op, put_op, run_ops, map_ops, create-run_ops-Represents,
}
use can_monitor.Tables.Sensorgroups.{Sensorgroup}
use can_monitor.Tables.Sensors.{Sensor}
use can_monitor.Tests.Documents.{json_of}
use can_monitor.Tests.Examples.{speed, group, fresh, new_sensor}
use can_monitor.Tests.Requests.{groups, groups_table, all-IsRoomy, settings, new_sensor-IsPayload}
use mathlib.Core.List.{Memᴰ}
use mathlib.Core.Option

abbrev json : Json
json = json_of new_sensor

abbrev heat : Sensor
heat = record speed { id = codes "heat"; name = codes "Heat"; can_id = 292 }

abbrev two_sensors : List (Op Sensor)
two_sensors = put_op (codes "speed") speed ∷ (put_op (codes "heat") heat ∷ [])

abbrev pub both : Bytes → Option Sensor
both = with_key (with_key (λ q. none) (codes "speed") speed) (codes "heat") heat

both-map_ops : map_ops two_sensors (λ q. none) ≡ some both
unfolding map_ops str_eq
both-map_ops = refl

pub both_table :
    (t : Table Sensor) × (run_ops two_sensors (create 10 true true) ≡ done (some t))
    × Represents t both
both_table = create-run_ops-Represents 10 two_sensors both (omega arith) both-map_ops

abbrev pub measured : State
measured = record fresh {
  sensors_table = some both_table.0;
  sensorgroup_table = some groups_table.0;
}

both-AllThere : AllThere both (codes "speed" ∷ (codes "heat" ∷ []))
unfolding str_eq
both-AllThere = ((λ e. cc), ((λ e. cc), tt))

delete_sensors_configuration-several_example :
    (t' : Table Sensor) × (u' : Table Sensorgroup) × (delete_sensors_configuration json
        (codes "")
        (by_ids (codes "speed" ∷ (codes "heat" ∷ [])))
        measured
      ≡ done (record {
        response = Response.ok;
        text = codes "";
        state = record measured { sensors_table = some t'; sensorgroup_table = some u' };
      }))
    × Represents t' (without_keys both (codes "speed" ∷ (codes "heat" ∷ [])))
    × Represents u' (λ q. Option.map (without_member (codes "heat")) (groups q))
delete_sensors_configuration-several_example =
    delete_sensors_configuration-several json (codes "") (codes "heat") (codes "speed" ∷ [])
      measured refl refl both_table.2 groups_table.2 all-IsRoomy both-AllThere

pub motor-groups : groups (codes "motor") ≡ some group
unfolding str_eq
motor-groups = refl

read_sensorgroups_subscription-dangling_example :
    (r : Reply) × (delete_sensors_configuration json
        (codes "")
        (by_ids (codes "speed" ∷ (codes "heat" ∷ [])))
        measured
      ≡ done r)
    × (r.response ≡ Response.ok)
    × (read_sensorgroups_subscription json r.state ≡ fault)
read_sensorgroups_subscription-dangling_example =
    read_sensorgroups_subscription-dangling json (codes "") (codes "heat") (codes "speed")
      (codes "speed" ∷ []) measured (codes "motor") group refl refl both_table.2 groups_table.2
      all-IsRoomy both-AllThere motor-groups (Memᴰ.head refl) (λ e. cc) (Memᴰ.head refl)

read_sensorgroups_subscription_iff_example :
    ((reply : Reply) × (read_sensorgroups_subscription json measured ≡ done reply))
    ↔ ((q : Bytes) (sg : Sensorgroup) → groups q ≡ some sg → AllKnown both (members sg))
read_sensorgroups_subscription_iff_example =
    read_sensorgroups_subscription_iff json both_table.2 measured refl refl groups_table.2
      all-IsRoomy

pub speed-both : both (codes "speed") ≢ none
unfolding str_eq
speed-both e = cc

pub heat-both : both (codes "heat") ≢ none
unfolding str_eq
heat-both e = cc

speed-free : without_key both (codes "speed") (codes "speed") ≡ none
unfolding str_eq
speed-free = refl

speed-stays : without_key both (codes "heat") (codes "speed") ≡ some speed
unfolding str_eq
speed-stays = refl

update_sensors_configuration-replaces_example :
    (t' : Table Sensor) × (u' : Table Sensorgroup) × (status : MsStatus) × (g' : Bytes
      → Option Sensorgroup)
    × (update_sensors_configuration json (codes "{") (by_id (codes "speed")) measured
        ≡ done (
            succeed (record measured {
              sensors_table = some t';
              sensorgroup_table = some u';
              status = status;
            })))
    × ConfiguredUnlessRunning measured.status status
    × Represents t' (
        with_key
          (without_key both (codes "speed"))
          (codes "speed")
          (described json (codes "{") (codes "speed") (codes "Speed") (codes "Uint8") settings))
    × Represents u' g'
    × ((q : Bytes) → Loses (codes "speed") (groups q) (g' q))
update_sensors_configuration-replaces_example =
    update_sensors_configuration-replaces json new_sensor-IsPayload (codes "speed") measured refl
      refl both_table.2 groups_table.2 all-IsRoomy speed-both speed-free

update_sensors_configuration-taken_example :
    (t' : Table Sensor) × (u' : Table Sensorgroup) × (update_sensors_configuration json
        (codes "{")
        (by_id (codes "heat"))
        measured
      ≡ done (
          create_error_message json
            (codes "A sensor with that id already exists")
            (record measured { sensors_table = some t'; sensorgroup_table = some u' })))
    × Represents t' (without_key both (codes "heat"))
    × Represents u' (λ q. Option.map (without_member (codes "heat")) (groups q))
update_sensors_configuration-taken_example =
    update_sensors_configuration-taken json new_sensor-IsPayload (codes "heat") measured refl refl
      both_table.2 groups_table.2 all-IsRoomy heat-both speed speed-stays
