-- ===== src/Service/Sound/Total.antt =====
-- While the invariant holds, a DELETE returns, and what it enters into the ledger.
use can_monitor.Base.{
  List, [], ◌∷◌, ◌++◌, Bytes, Option, none, some, codes, str_eq, Bool-cases, Outcome, done, ◌≡◌,
  ◌⊎◌, inl, inr, refl,
}
use can_monitor.Frame.Parse.{overrun}
use can_monitor.Base.{length, ◌+◌}
use can_monitor.Rest.Callbacks.{delete_handler}
use can_monitor.Service.GroupRemoval.{
  delete_group_queries, groups_deleted, delete_sensorgroups_subscription,
}
use can_monitor.Service.Json.{Json, is_some}
use can_monitor.Service.Removal.Deletion.{leave_groups-map}
use can_monitor.Service.Removal.{
  delete_sensor_queries, delete_from_groups, delete_sensors_configuration,
}
use can_monitor.Service.Sensors.{QueryPair}
use can_monitor.Service.Sound.Sensors.{EndsSound, delete_sensor_queries-IsSound}
use can_monitor.Service.Sound.{IsSound}
use can_monitor.Service.State.Ledger.{Recorded, error-Recorded}
use can_monitor.Service.State.{State, Reply, log_copy}
use can_monitor.Tables.Sensorgroups.{htsg_get, htsg_delete}
use can_monitor.Tables.Sensors.{hts_delete}

-- A call that returns, and enters writes into the ledger exactly when it answers with an error.
abbrev pub Returns : State → Outcome Reply → Type 0
Returns st o = (r : Reply) × (o ≡ done r) × Recorded st r

-- The loop over the queries enters nothing before it ends with an error.
abbrev EndsRecorded : State → (Option Bytes × State) ⊎ Reply → Type 0
EndsRecorded st (inl (id, st')) = st'.overruns ≡ st.overruns
EndsRecorded st (inr reply) = Recorded st reply

module _ (json : Json) where
  delete_sensor_queries-EndsRecorded :
      (queries : List QueryPair) (id : Option Bytes) (st : State)
      → EndsRecorded st (delete_sensor_queries json queries id st)
  unfolding delete_sensor_queries
  delete_sensor_queries-EndsRecorded [] id st = refl
  delete_sensor_queries-EndsRecorded (q ∷ qs) id st =
      let r = hts_delete st.sensors_table q.value in
      let st' : State = record st { sensors_table = r.1 } in
      elim (Bool-cases (str_eq q.name (codes "id"))) [
        | inr other ↦ rw other (delete_sensor_queries-EndsRecorded qs id st)
        | inl named ↦ elim (Bool-cases (is_some r.0)) [
          | inl there ↦ rw (named, there) (delete_sensor_queries-EndsRecorded qs (some q.value) st')
          | inr absent ↦
              let message = codes "There is no sensor with id " ++ q.value in
              rw (named, absent)
                (error-Recorded json message st (log_copy 50 message st')
                  (overrun 50 (length message + 1), refl))
        ]
      ]

  delete_group_queries-EndsRecorded :
      (queries : List QueryPair) (id : Option Bytes) (st : State)
      → EndsRecorded st (delete_group_queries json queries id st)
  unfolding delete_group_queries
  delete_group_queries-EndsRecorded [] id st = refl
  delete_group_queries-EndsRecorded (q ∷ qs) id st =
      let r = htsg_delete st.sensorgroup_table q.value in
      let st' : State = record st { sensorgroup_table = r.1 } in
      elim (Bool-cases (str_eq q.name (codes "id"))) [
        | inr other ↦ rw other (delete_group_queries-EndsRecorded qs id st)
        | inl named ↦ elim (Bool-cases (is_some (htsg_get st.sensorgroup_table q.value))) [
          | inr absent ↦
              let message = codes "There is no sensorgroup with id " ++ q.value in
              rw (named, absent)
                (error-Recorded json message st (log_copy 50 message st)
                  (overrun 50 (length message + 1), refl))
          | inl there ↦ elim (Bool-cases (is_some r.0)) [
            | inl gone ↦
                rw (named, there, gone) (delete_group_queries-EndsRecorded qs (some q.value) st')
            | inr stays ↦
                rw (named, there, stays)
                  (error-Recorded json (codes "Error deleting the sensorgroup") st st' ([], refl))
          ]
        ]
      ]

  delete_from_groups-Returns :
      (values : Bytes) (st : State) (ended : (Option Bytes × State) ⊎ Reply)
      → EndsSound ended
      → EndsRecorded st ended
      → Returns st (delete_from_groups json values ended)
  unfolding delete_from_groups
  delete_from_groups-Returns values st (inr reply) s e = (reply, refl, e)
  delete_from_groups-Returns values st (inl (none, st')) s e =
      (_, refl, error-Recorded json (codes "There is no id query.") st st' ([], e))
  delete_from_groups-Returns values st (inl (some id, st')) s e =
      rw (s.groups.at, leave_groups-map id s.groups.represents s.groups.roomy)
        (_, refl, inr ((λ h. cc), e))

  groups_deleted-Recorded :
      (values : Bytes) (st : State) (ended : (Option Bytes × State) ⊎ Reply)
      → EndsRecorded st ended
      → Recorded st (groups_deleted json values ended)
  unfolding groups_deleted
  groups_deleted-Recorded values st (inr reply) e = e
  groups_deleted-Recorded values st (inl (none, st')) e =
      error-Recorded json (codes "There is no id query.") st st' ([], e)
  groups_deleted-Recorded values st (inl (some id, st')) e = inr ((λ h. cc), e)

  -- While the two tables are finite maps and every group has room for its members, the model of a
  -- DELETE request gives a reply for any URL and any queries: when the reply is an error, the
  -- ledger has grown by at least one write past the end of a buffer, which C leaves undefined, and
  -- when it is anything else, nothing was written past a buffer.
  pub delete_handler-Returns :
      (url : Bytes) (queries : List QueryPair) (st : State)
      → IsSound st
      → Returns st (delete_handler json url queries st)
  unfolding delete_handler delete_sensors_configuration delete_sensorgroups_subscription
  delete_handler-Returns url queries st s =
      elim (Bool-cases (str_eq url (codes "monitoring-agent/config/sensors"))) [
        | inl sensors ↦ rw sensors (
            delete_from_groups-Returns (codes "") st _
              (delete_sensor_queries-IsSound json queries none s)
              (delete_sensor_queries-EndsRecorded queries none st))
        | inr other ↦
            elim (Bool-cases (str_eq url (codes "monitoring-agent/config/sensorgroups"))) [
              | inl groups ↦
                  rw (other, groups)
                    (
                      _,
                      refl,
                      groups_deleted-Recorded (codes "") st _
                          (delete_group_queries-EndsRecorded queries none st),
                    )
              | inr neither ↦ rw (other, neither) (_, refl, inr ((λ h. cc), refl))
            ]
      ]
