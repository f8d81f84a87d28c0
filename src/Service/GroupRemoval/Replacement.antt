-- ===== src/Service/GroupRemoval/Replacement.antt =====
-- Replacing a group: the deletion of the one and the creation of the other.
use can_monitor.Base.{
  List, Bytes, Option, none, some, true, codes, length, done, some_of, ◌≡◌, ◌≢◌, refl,
}
use can_monitor.Frame.Parse.{Overrun}
use can_monitor.Service.GroupRemoval.Deletion.{delete_sensorgroups_subscription-Represents}
use can_monitor.Service.GroupRemoval.{update_sensorgroups_subscription}
use can_monitor.Service.Groups.Naming.{
  AllNamed, described_group, create_sensorgroups_subscription-named,
}
use can_monitor.Service.Groups.{has}
use can_monitor.Service.Json.{Json}
use can_monitor.Service.Removal.Deletion.{AllKnown, by_id}
use can_monitor.Service.Sensors.Status.{ConfiguredUnlessRunning}
use can_monitor.Service.State.{State, MsStatus, succeed}
use can_monitor.Tables.Defs.{Table}
use can_monitor.Tables.Map.{Represents, with_key, without_key}
use can_monitor.Tables.Sensorgroups.{Sensorgroup}
use can_monitor.Tables.Sensors.{Sensor}

-- When the tables represent maps, and a PUT names by its id query a group that is there and
-- carries the three keys of a group, an identifier that is that of no other group, and a list of
-- values that name sensors that are there and have no other key of a sensor: the PUT is answered
-- OK with an empty text, the table of groups holds the described group, with these sensors in
-- their order, in place of the old one, a status that was running is kept and any other becomes
-- configured, and nothing else but the ledger of overruns has changed.
pub update_sensorgroups_subscription-replaces :
    (json : Json) (values old id : Bytes) (ids : List Bytes) (st : State) {t : Table Sensor}
    {f : Bytes → Option Sensor} {u : Table Sensorgroup} {g : Bytes → Option Sensorgroup}
    → st.sensors_table ≡ some t
    → st.sensorgroup_table ≡ some u
    → (r : Represents t f) → Represents u g
    → (let jobj = json.json_value_get_object (json.json_parse_string values) in
        (has json jobj (codes "sensorgroup-id") ≡ true)
        × (has json jobj (codes "publish-rate") ≡ true)
        × (has json jobj (codes "sensor-list") ≡ true)
        × (json.json_object_get_string jobj (codes "sensorgroup-id") ≡ some id))
    → (let a =
          json.json_object_get_array
            (json.json_value_get_object (json.json_parse_string values))
            (codes "sensor-list") in
        (json.json_array_get_count a ≡ length ids) × AllNamed json a 0 ids)
    → AllKnown f ids
    → g old ≢ none
    → without_key g old id ≡ none
    → (u' : Table Sensorgroup) × (over : List Overrun) × (status : MsStatus)
      × (update_sensorgroups_subscription json values (by_id old) st
          ≡ done (
              succeed
                (record st { sensorgroup_table = some u'; overruns = over; status = status })))
      × ConfiguredUnlessRunning st.status status
      × Represents u' (with_key (without_key g old) id (described_group json values id ids))
unfolding update_sensorgroups_subscription
update_sensorgroups_subscription-replaces json values old id ids st at groups_at r ru keys list
      known there free =
    let (sg, found) = some_of _ there in
    let (u₁, e, ru₁) =
      delete_sensorgroups_subscription-Represents json values old st _ _ sg groups_at ru found in
    let (u', over, status, e', follows, ru') =
      create_sensorgroups_subscription-named json r values id ids
        (record st { sensorgroup_table = some u₁ }) at refl ru₁ keys list known free in
    (u', over, status, rw (e, e') refl, follows, ru')
