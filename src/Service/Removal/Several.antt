-- ===== src/Service/Removal/Several.antt =====
-- Deleting several sensors in one request.
use can_monitor.Base.{
  ◌++◌, List, [], ◌∷◌, Bytes, Option, none, some, codes, str_eq_refl, done, Option-cases, ◌≡◌, ◌≢◌,
  inl, inr, refl, ◌∙◌, ap,
}
use can_monitor.Service.Json.{Json}
use can_monitor.Service.Removal.Deletion.{IsRoomy, without_member, leave_groups-map}
use can_monitor.Service.Removal.{delete_sensor_queries, delete_sensors_configuration}
use can_monitor.Service.Sensors.{QueryPair}
use can_monitor.Service.State.{State, Response}
use can_monitor.Tables.Defs.{live, Table}
use can_monitor.Tables.Map.{Represents, without_key, delete-Represents}
use can_monitor.Tables.Sensorgroups.{Sensorgroup}
use can_monitor.Tables.Sensors.{Sensor, hts_delete}
use can_monitor.Tables.Values.{map_table, map_table-Represents}
use mathlib.Core.Option

-- A query for each identifier.
abbrev pub by_ids : List Bytes → List QueryPair
by_ids [] = []
by_ids (id ∷ ids) = record { name = codes "id"; value = id } ∷ by_ids ids

abbrev pub without_keys : (Bytes → Option Sensor) → List Bytes → Bytes → Option Sensor
without_keys f [] = f
without_keys f (id ∷ ids) = without_keys (without_key f id) ids

-- Every identifier is that of a sensor when its turn comes.
abbrev pub AllThere : (Bytes → Option Sensor) → List Bytes → Type 0
AllThere f [] = Unit
AllThere f (id ∷ ids) = (f id ≢ none) × AllThere (without_key f id) ids

-- The identifier of the last query, and `before` where there is none.
abbrev last_of : Option Bytes → List Bytes → Option Bytes
last_of before [] = before
last_of before (id ∷ ids) = last_of (some id) ids

last_of-append :
    (ids : List Bytes) (id : Bytes) (before : Option Bytes)
    → last_of before (ids ++ (id ∷ [])) ≡ some id
last_of-append [] id before = refl
last_of-append (x ∷ ids) id before = last_of-append ids id (some x)

-- The call that deletes a sensor that is there.
hts_delete-there :
    (o : Option (Table Sensor)) (id : Bytes) {t : Table Sensor} {f : Bytes → Option Sensor}
    → o ≡ some t
    → Represents t f
    → f id ≢ none
    → (s : Sensor) × (t' : Table Sensor) × (hts_delete o id ≡ (some (live s), some t'))
      × Represents t' (without_key f id)
unfolding hts_delete
hts_delete-there o id {t} {f} at r there = elim (Option-cases (f id)) [
  | inl absent ↦ absurd (there absent)
  | inr (s, found) ↦
      let (t', e, r') = delete-Represents r id in
      (s, t', rw at (e ∙ ap (λ v. (Option.map live v, some t')) found), r')
]

module _ (json : Json) where
  delete_sensor_queries-Represents :
      (ids : List Bytes) (before : Option Bytes) (st : State) {t : Table Sensor}
      {f : Bytes → Option Sensor}
      → st.sensors_table ≡ some t
      → Represents t f
      → AllThere f ids
      → (t' : Table Sensor) × (delete_sensor_queries json (by_ids ids) before st
          ≡ inl (last_of before ids, record st { sensors_table = some t' }))
        × Represents t' (without_keys f ids)
  unfolding delete_sensor_queries
  delete_sensor_queries-Represents [] before st {t} at r there =
      (t, ap (λ (o : Option (Table Sensor)). inl (before, record st { sensors_table = o })) at, r)
  delete_sensor_queries-Represents (id ∷ ids) before st at r there =
      let (s, t', deleted, r') = hts_delete-there st.sensors_table id at r there.0 in
      let (t'', e, r'') =
        delete_sensor_queries-Represents ids (some id) (record st { sensors_table = some t' }) refl
          r' there.1 in
      (t'', rw (str_eq_refl (codes "id"), deleted) e, r'')

  -- When the tables represent maps, every group's array has room for its members, and the id
  -- queries of a deletion, of which there is at least one, each name a sensor that is there when
  -- its turn comes: the deletion succeeds, all these sensors are gone and no other sensor changes,
  -- and each group has lost what the loop over it removes for the last of the identifiers only.
  pub delete_sensors_configuration-several :
      (values id : Bytes) (ids : List Bytes) (st : State) {t : Table Sensor} {u : Table Sensorgroup}
      {f : Bytes → Option Sensor} {g : Bytes → Option Sensorgroup}
      → st.sensors_table ≡ some t
      → st.sensorgroup_table ≡ some u
      → Represents t f
      → Represents u g
      → ((q : Bytes) (sg : Sensorgroup) → g q ≡ some sg → IsRoomy sg)
      → AllThere f (ids ++ (id ∷ []))
      → (t' : Table Sensor) × (u' : Table Sensorgroup) × (delete_sensors_configuration json values
            (by_ids (ids ++ (id ∷ [])))
            st
          ≡ done (record {
            response = Response.ok;
            text = values;
            state = record st { sensors_table = some t'; sensorgroup_table = some u' };
          }))
        × Represents t' (without_keys f (ids ++ (id ∷ [])))
        × Represents u' (λ q. Option.map (without_member id) (g q))
  unfolding delete_sensors_configuration
  delete_sensors_configuration-several values id ids st {u = u} at groups_at r r' room there =
      let (t', e, reads) = delete_sensor_queries-Represents (ids ++ (id ∷ [])) none st at r there in
      (
        t',
        map_table (without_member id) u,
        rw (e, last_of-append ids id none, groups_at, leave_groups-map id r' room),
        reads,
        map_table-Represents (without_member id) r',
      )
