-- ===== src/Service/Sound/GroupRemoval.antt =====
-- Deleting and updating groups keeps the invariant.
use can_monitor.Service.Sound.Groups.{create_sensorgroups_subscription-IsSound}
use can_monitor.Base.{
  List, [], ◌∷◌, Bytes, Option, none, some, codes, str_eq, Bool-cases, Safe, Safe-done, Safe-bind,
  Safe-if, ◌⊎◌, inl, inr,
}
use can_monitor.Service.GroupRemoval.{
  delete_group_queries, groups_deleted, delete_sensorgroups_subscription,
  update_sensorgroups_subscription,
}
use can_monitor.Service.Groups.{create_sensorgroups_subscription}
use can_monitor.Service.Json.{Json, is_some}
use can_monitor.Service.Removal.{is_ok}
use can_monitor.Service.Sensors.{QueryPair}
use can_monitor.Service.Sound.Sensors.{IsSoundReply, error-IsSound, EndsSound, quiet-IsSound}
use can_monitor.Service.Sound.{IsSound, htsg_delete-HasGroups}
use can_monitor.Service.State.{State, Reply}
use can_monitor.Tables.Sensorgroups.{htsg_get, htsg_delete}

module _ (json : Json) where
  delete_group_queries-IsSound :
      (qs : List QueryPair) (id : Option Bytes) {st : State}
      → IsSound st
      → EndsSound (delete_group_queries json qs id st)
  unfolding delete_group_queries
  delete_group_queries-IsSound [] id s = s
  delete_group_queries-IsSound (q ∷ qs) id {st} s =
      let st' = record st { sensorgroup_table = (htsg_delete st.sensorgroup_table q.value).1 } in
      let s' : IsSound st' = record {
        sensors = s.sensors;
        groups = htsg_delete-HasGroups s.groups q.value;
      } in
      elim (Bool-cases (str_eq q.name (codes "id"))) [
        | inr other ↦ rw other (delete_group_queries-IsSound qs id s)
        | inl named ↦
            rw named (elim (Bool-cases (is_some (htsg_get st.sensorgroup_table q.value))) [
              | inr absent ↦
                  rw absent
                    (error-IsSound json (record { sensors = s.sensors; groups = s.groups }) _)
              | inl there ↦
                  rw there
                    (elim (Bool-cases (is_some (htsg_delete st.sensorgroup_table q.value).0)) [
                      | inl gone ↦ rw gone (delete_group_queries-IsSound qs (some q.value) s')
                      | inr stays ↦ rw stays (error-IsSound json s' _)
                    ])
            ])
      ]

  groups_deleted-IsSound :
      (values : Bytes) (ended : (Option Bytes × State) ⊎ Reply)
      → EndsSound ended
      → IsSound (groups_deleted json values ended).state
  unfolding groups_deleted
  groups_deleted-IsSound values (inr reply) s = s
  groups_deleted-IsSound values (inl (none, st)) s = error-IsSound json s _
  groups_deleted-IsSound values (inl (some id, st)) s = s

  pub delete_sensorgroups_subscription-IsSound :
      {st : State}
      → IsSound st
      → (values : Bytes) (queries : List QueryPair)
      → IsSound (delete_sensorgroups_subscription json values queries st).state
  unfolding delete_sensorgroups_subscription
  delete_sensorgroups_subscription-IsSound s values queries =
      groups_deleted-IsSound values _ (delete_group_queries-IsSound queries none s)

  pub update_sensorgroups_subscription-IsSound :
      {st : State}
      → IsSound st
      → (values : Bytes) (queries : List QueryPair)
      → Safe IsSoundReply (update_sensorgroups_subscription json values queries st)
  unfolding update_sensorgroups_subscription
  update_sensorgroups_subscription-IsSound {st} s values queries =
      let deleted = delete_sensorgroups_subscription json values queries st in
      let sound = delete_sensorgroups_subscription-IsSound s values queries in
      Safe-if (is_ok json deleted.response)
        (λ _.
          Safe-bind (create_sensorgroups_subscription json deleted.text deleted.state) _
            (create_sensorgroups_subscription-IsSound json sound deleted.text) (quiet-IsSound json))
        λ _. Safe-done sound
