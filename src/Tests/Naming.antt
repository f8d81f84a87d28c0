-- ===== src/Tests/Naming.antt =====
-- The theorems on groups of sensors that are named only, with a request for two sensors.
use can_monitor.Base.{
  List, [], ◌∷◌, Bytes, none, some, codes, str_eq, done, ◌≡◌, ◌≢◌, refl, sym, ◌∙◌,
}
use can_monitor.Frame.Parse.{Overrun}
use can_monitor.Service.GroupRemoval.Replacement.{update_sensorgroups_subscription-replaces}
use can_monitor.Service.GroupRemoval.{update_sensorgroups_subscription}
use can_monitor.Service.Groups.Naming.{
  Names, described_group, create_sensorgroups_subscription-named,
}
use can_monitor.Service.Groups.{create_sensorgroups_subscription}
use can_monitor.Service.Removal.Deletion.{AllKnown, by_id}
use can_monitor.Service.Sensors.Status.{ConfiguredUnlessRunning}
use can_monitor.Service.State.{MsStatus, succeed}
use can_monitor.Tables.Defs.{Table}
use can_monitor.Tables.Map.{Represents, with_key, without_key}
use can_monitor.Tables.Sensorgroups.{Sensorgroup}
use can_monitor.Tests.Documents.{Document, text, double, object, array, member, item, json_of}
use can_monitor.Tests.Removals.{both, both_table, measured, speed-both, heat-both, motor-groups}
use can_monitor.Tests.Requests.{groups, groups_table}

abbrev name_of : Bytes → Document
name_of id = member (codes "sensor-id") (text id) object

abbrev request : Bytes → Document
request id = member (codes "sensorgroup-id") (text id) (
    member (codes "publish-rate") (double 500) (
      member (codes "sensor-list")
        (item (name_of (codes "speed")) (item (name_of (codes "heat")) array)) object))

abbrev ids : List Bytes
ids = codes "speed" ∷ (codes "heat" ∷ [])

ids-AllKnown : AllKnown both ids
ids-AllKnown = (speed-both, (heat-both, tt))

names : (request_id id : Bytes) → Names (json_of (request request_id)) (some (name_of id)) id
unfolding str_eq
names request_id id = record {
  named = refl;
  nameless = refl;
  typeless = refl;
  unset = refl;
  rateless = refl;
  text = refl;
}

motor-absent : groups (codes "all") ≡ none
unfolding str_eq
motor-absent = refl

motor-there : groups (codes "motor") ≢ none
motor-there e = let wrong : some _ ≡ none = sym motor-groups ∙ e in cc

motor-free : without_key groups (codes "motor") (codes "motor") ≡ none
unfolding str_eq
motor-free = refl

create_sensorgroups_subscription-named_example :
    (u' : Table Sensorgroup) × (over : List Overrun) × (status : MsStatus)
    × (create_sensorgroups_subscription (json_of (request (codes "all"))) (codes "{") measured
        ≡ done (
            succeed
              (record measured { sensorgroup_table = some u'; overruns = over; status = status })))
    × ConfiguredUnlessRunning measured.status status
    × Represents u' (
        with_key groups
          (codes "all")
          (described_group (json_of (request (codes "all"))) (codes "{") (codes "all") ids))
unfolding str_eq
create_sensorgroups_subscription-named_example =
    create_sensorgroups_subscription-named (json_of (request (codes "all"))) both_table.2
      (codes "{") (codes "all") ids measured refl refl groups_table.2 (refl, refl, refl, refl)
      (refl, (names (codes "all") (codes "speed"), (names (codes "all") (codes "heat"), tt)))
      ids-AllKnown motor-absent

update_sensorgroups_subscription-replaces_example :
    (u' : Table Sensorgroup) × (over : List Overrun) × (status : MsStatus)
    × (update_sensorgroups_subscription
          (json_of (request (codes "motor")))
          (codes "{")
          (by_id (codes "motor"))
          measured
        ≡ done (
            succeed
              (record measured { sensorgroup_table = some u'; overruns = over; status = status })))
    × ConfiguredUnlessRunning measured.status status
    × Represents u' (
        with_key
          (without_key groups (codes "motor"))
          (codes "motor")
          (described_group (json_of (request (codes "motor"))) (codes "{") (codes "motor") ids))
unfolding str_eq
update_sensorgroups_subscription-replaces_example =
    update_sensorgroups_subscription-replaces (json_of (request (codes "motor"))) (codes "{")
      (codes "motor") (codes "motor") ids measured refl refl both_table.2 groups_table.2
      (refl, refl, refl, refl)
      (refl, (names (codes "motor") (codes "speed"), (names (codes "motor") (codes "heat"), tt)))
      ids-AllKnown motor-there motor-free
