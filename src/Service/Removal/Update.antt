-- ===== src/Service/Removal/Update.antt =====
-- Replacing a sensor: the deletion of the one and the creation of the other.
use can_monitor.Base.{some_of}
use can_monitor.Base.{Bytes, Option, none, some, codes, done, ◌≡◌, ◌≢◌, refl, ap}
use can_monitor.Service.Json.{Json}
use can_monitor.Service.Removal.Deletion.{
  IsRoomy, without_member, without_member-removes, by_id, delete_sensors_configuration-Represents,
}
use can_monitor.Service.Removal.{update_sensors_configuration}
use can_monitor.Service.Sensors.Creation.{
  IsPayload, described, create_sensors_configuration-new, create_sensors_configuration-taken,
}
use can_monitor.Service.Sensors.{Settings}
use can_monitor.Service.Sensors.Status.{ConfiguredUnlessRunning, configured_unless_running-Status}
use can_monitor.Service.Removal.Members.{members, remove_first}
use can_monitor.Service.State.{State, MsStatus, create_error_message, succeed}
use can_monitor.Tables.Defs.{Table}
use can_monitor.Tables.Map.{Represents, with_key, without_key}
use can_monitor.Tables.Sensorgroups.{Sensorgroup}
use can_monitor.Tables.Sensors.{Sensor}
use mathlib.Core.Option

-- A group has lost one occurrence of an identifier among its members, the first, and nothing else;
-- where there was no group there is none.
abbrev pub Loses : Bytes → Option Sensorgroup → Option Sensorgroup → Type 0
Loses id none o = o ≡ none
Loses id (some sg) o =
    (sg' : Sensorgroup) × (o ≡ some sg')
    × (members sg' ≡ remove_first id (members sg))
    × (sg' ≡ record sg { sensorcount = sg'.sensorcount; sensor_list = sg'.sensor_list })

module _ (json : Json) {values id name type : Bytes} {s : Settings}
    (p : IsPayload json values id name type s) (old : Bytes) (st : State) {t : Table Sensor}
    {u : Table Sensorgroup} {f : Bytes → Option Sensor} {g : Bytes → Option Sensorgroup}
    (at : st.sensors_table ≡ some t) (groups_at : st.sensorgroup_table ≡ some u)
    (r : Represents t f) (r' : Represents u g)
    (room : (q : Bytes) (sg : Sensorgroup) → g q ≡ some sg → IsRoomy sg)
    (there : f old ≢ none) where
  -- The groups afterwards, in either case.
  abbrev pub left_groups : Bytes → Option Sensorgroup
  left_groups q = Option.map (without_member old) (g q)

  left_groups-Loses :
      (q : Bytes) (o : Option Sensorgroup)
      → g q ≡ o
      → Loses old o (Option.map (without_member old) o)
  left_groups-Loses q none e = refl
  left_groups-Loses q (some sg) e =
      let (removed, same) = without_member-removes old sg (room q sg e) in
      (without_member old sg, refl, removed, same)

  -- When the tables represent maps, every group's array has room for its members, and a PUT names
  -- by its id query a sensor that is there and carries a readable description whose identifier is
  -- that of no other sensor: the PUT is answered OK with an empty text, the table holds the
  -- described sensor in place of the old one, a status that was running is kept and any other
  -- becomes configured, each group has lost one occurrence of the old identifier, the first, and
  -- nothing else, also when the new sensor has the same identifier, no group comes or goes, and
  -- nothing else has changed.
  pub update_sensors_configuration-replaces :
      without_key f old id ≡ none
      → (t' : Table Sensor) × (u' : Table Sensorgroup) × (status : MsStatus) × (g' : Bytes
          → Option Sensorgroup)
        × (update_sensors_configuration json values (by_id old) st
            ≡ done (
                succeed (record st {
                  sensors_table = some t';
                  sensorgroup_table = some u';
                  status = status;
                })))
        × ConfiguredUnlessRunning st.status status
        × Represents t' (with_key (without_key f old) id (described json values id name type s))
        × Represents u' g'
        × ((q : Bytes) → Loses old (g q) (g' q))
  unfolding update_sensors_configuration
  update_sensors_configuration-replaces free =
      let (sens, found) = some_of (f old) there in
      let (t₁, u', e, r₁, r₁') =
        delete_sensors_configuration-Represents json values old st at groups_at r r' room sens
          found in
      let st₁ = record st { sensors_table = some t₁; sensorgroup_table = some u' } in
      let (t', e', r₂) = create_sensors_configuration-new json p st₁ refl r₁ free in
      let (status, se, follows) =
        configured_unless_running-Status (record st₁ { sensors_table = some t' }) in
      (
        t',
        u',
        status,
        left_groups,
        rw (e, e') (ap (λ v. done (succeed v)) se),
        follows,
        r₂,
        r₁',
        λ q. left_groups-Loses q (g q) refl,
      )

  -- When the tables represent maps, every group's array has room for its members, and a PUT names
  -- by its id query a sensor that is there and carries a readable description with the identifier
  -- of another sensor: the PUT is answered with an error message, but the sensor that it names is
  -- gone, and has left the groups as by a deletion.
  pub update_sensors_configuration-taken :
      (other : Sensor)
      → without_key f old id ≡ some other
      → (t' : Table Sensor) × (u' : Table Sensorgroup) × (update_sensors_configuration json values
            (by_id old)
            st
          ≡ done (
              create_error_message json
                (codes "A sensor with that id already exists")
                (record st { sensors_table = some t'; sensorgroup_table = some u' })))
        × Represents t' (without_key f old)
        × Represents u' left_groups
  unfolding update_sensors_configuration
  update_sensors_configuration-taken other taken =
      let (sens, found) = some_of (f old) there in
      let (t', u', e, r₁, r₁') =
        delete_sensors_configuration-Represents json values old st at groups_at r r' room sens
          found in
      let st₁ = record st { sensors_table = some t'; sensorgroup_table = some u' } in
      (
        t',
        u',
        rw (e, create_sensors_configuration-taken json p st₁ refl r₁ other taken) refl,
        r₁,
        r₁',
      )
