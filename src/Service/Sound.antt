-- ===== src/Service/Sound.antt =====
-- The invariant of the service, and that the operations on the tables keep it.
pub mod Sensors
pub mod Groups
pub mod GroupRemoval
pub mod Total
pub mod Requests
use can_monitor.Base.{
  Bool-cases, true, ◌<◌, Bytes, Option, none, some, str_eq, Option-cases, Outcome, done, Safe,
  Safe-done, ◌≡◌, ◌⊎◌, inl, inr, refl, sym, ◌∙◌, ap, arith,
}
use can_monitor.Service.Removal.Deletion.{
  IsRoomy, without_member, without_member-IsRoomy, leave_groups-map,
}
use can_monitor.Service.Removal.{leave_groups}
use can_monitor.Service.State.{State}
use can_monitor.Tables.Defs.{live, Table}
use can_monitor.Tables.Map.{Represents, with_key, without_key, put-Represents, delete-Represents}
use can_monitor.Tables.Sensorgroups.{Sensorgroup, htsg_get, htsg_put, htsg_delete}
use can_monitor.Tables.Sensors.{Sensor, hts_get, hts_put, hts_delete}
use can_monitor.Tables.Values.{map_table, map_table-Represents}
use mathlib.Core.Option
use mathlib.Core.Path.{subst}

-- The table of sensors is made, and is a finite map: no node holds freed memory, and no key is
-- there twice.
pub record HasSensors (o : Option (Table Sensor)) : Type 0 where
  pub t : Table Sensor
  pub f : Bytes → Option Sensor
  pub at : o ≡ some t
  pub represents : Represents t f

-- The same of the table of groups, and every group's array has room for its members.
pub record HasGroups (o : Option (Table Sensorgroup)) : Type 0 where
  pub u : Table Sensorgroup
  pub g : Bytes → Option Sensorgroup
  pub at : o ≡ some u
  pub represents : Represents u g
  pub roomy : (q : Bytes) (sg : Sensorgroup) → g q ≡ some sg → IsRoomy sg

pub record IsSound (st : State) : Type 0 where
  pub sensors : HasSensors st.sensors_table
  pub groups : HasGroups st.sensorgroup_table

-- The tables are as they were.
pub record SameTables (st st' : State) : Type 0 where
  pub same_sensors : st'.sensors_table ≡ st.sensors_table
  pub same_groups : st'.sensorgroup_table ≡ st.sensorgroup_table

pub SameTables-IsSound : {st st' : State} → IsSound st → SameTables st st' → IsSound st'
SameTables-IsSound s e = record {
  sensors = subst HasSensors (sym e.same_sensors) s.sensors;
  groups = subst HasGroups (sym e.same_groups) s.groups;
}

live_none : {V : Type 0} (o : Option V) → Option.map live o ≡ none → o ≡ none
live_none none e = refl
live_none (some v) e = cc

-- A sensor goes.
pub hts_delete-HasSensors :
    {o : Option (Table Sensor)} → HasSensors o → (id : Bytes) → HasSensors (hts_delete o id).1
unfolding hts_delete
hts_delete-HasSensors {o} h id =
    let (t', e, r') = delete-Represents h.represents id in
    record { t = t'; f = without_key h.f id; at = rw (h.at) (ap (λ p. p.1) e); represents = r' }

-- A sensor comes, under a key that is absent.
pub hts_put-HasSensors :
    {o : Option (Table Sensor)}
    → HasSensors o
    → (id : Bytes) (s : Sensor) → hts_get o id ≡ none
    → Safe (λ r. HasSensors r.1) (hts_put true o id s)
unfolding hts_put
hts_put-HasSensors {o} h id s absent =
    let missing : Option.map live (h.f id) ≡ none =
      sym (h.represents.reads id) ∙ (unfold hts_get in rw (h.at) at absent) in
    let (t', e, r') = put-Represents h.represents id s (live_none (h.f id) missing) in
    rw (h.at, e) (Safe-done (record { t = t'; f = with_key h.f id s; at = refl; represents = r' }))

-- A group goes.
pub htsg_delete-HasGroups :
    {o : Option (Table Sensorgroup)} → HasGroups o → (id : Bytes) → HasGroups (htsg_delete o id).1
unfolding htsg_delete
htsg_delete-HasGroups {o} h id =
    let (u', e, r') = delete-Represents h.represents id in
    record {
      u = u';
      g = without_key h.g id;
      at = rw (h.at) (ap (λ p. p.1) e);
      represents = r';
      roomy = λ q sg there. h.roomy q sg (ground arith);
    }

-- A group comes, with room for its members.
pub htsg_put-HasGroups :
    {o : Option (Table Sensorgroup)}
    → HasGroups o
    → (id : Bytes) (sg : Sensorgroup) → IsRoomy sg
    → htsg_get o id ≡ none
    → Safe (λ r. HasGroups r.1) (htsg_put true o id sg)
unfolding htsg_put
htsg_put-HasGroups {o} h id sg room absent =
    let missing : Option.map live (h.g id) ≡ none =
      sym (h.represents.reads id) ∙ (unfold htsg_get in rw (h.at) at absent) in
    let (u', e, r') = put-Represents h.represents id sg (live_none (h.g id) missing) in
    rw (h.at, e)
      (Safe-done (record {
        u = u';
        g = with_key h.g id sg;
        at = refl;
        represents = r';
        roomy = λ q sg' there. elim (Bool-cases (str_eq id q)) [
          | inl same ↦ let here : sg ≡ sg' = ground arith in subst IsRoomy here room
          | inr other ↦ h.roomy q sg' (ground arith)
        ];
      }))

-- A sensor leaves the groups.
pub leave_groups-HasGroups :
    {o : Option (Table Sensorgroup)}
    → HasGroups o
    → (id : Bytes) → Safe HasGroups (leave_groups id o)
leave_groups-HasGroups {o} h id =
    rw (h.at, leave_groups-map id h.represents h.roomy)
      (Safe-done (record {
        u = map_table (without_member id) h.u;
        g = λ q. Option.map (without_member id) (h.g q);
        at = refl;
        represents = map_table-Represents (without_member id) h.represents;
        roomy = without_member-IsRoomy id h.g h.roomy;
      }))
