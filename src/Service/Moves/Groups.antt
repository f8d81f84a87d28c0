-- ===== src/Service/Moves/Groups.antt =====
-- The handlers of the groups: what they do to the status.
use can_monitor.Base.{
  ℕ, zero, suc, ◌+◌, ◌==◌, ◌&&◌, ◌||◌, not, List, [], ◌∷◌, Bytes, Option, none, some, true, codes,
  str_eq, Bool-cases, done, Safe, Safe-done, Safe-bind, Safe-any, Safe-if, Safe-weaken, ◌⊎◌, inl,
  inr, refl, ◌∙◌,
}
use can_monitor.Service.Connection.{Loop, next, stop}
use can_monitor.Service.GroupRemoval.{
  delete_group_queries, groups_deleted, delete_sensorgroups_subscription,
  update_sensorgroups_subscription,
}
use can_monitor.Service.Groups.{
  Members, Place, minus_one, unplaced, make_way, place_settings, store_member, finish_member,
  complete_member, known_member, group_member, group_members, finish_group,
  create_sensorgroups_subscription, has,
}
use can_monitor.Service.Json.{Json, is_some, deref}
use can_monitor.Service.Moves.Sensors.{EndsStill, quiet-Move}
use can_monitor.Service.Moves.{kept, MoveReply, SameStatus, configured-Move, refused-Move}
use can_monitor.Service.Removal.{is_ok}
use can_monitor.Service.Sensors.{QueryPair}
use can_monitor.Service.State.{State, Reply, create_error_message}
use can_monitor.Tables.Sensorgroups.{htsg_get, htsg_put, htsg_delete}
use can_monitor.Tables.Sensors.{Sensor, hts_get, hts_put}

-- The members of a group leave the status as it was.
abbrev Still : State → Members → Type 0
Still st (inl (ids, st')) = SameStatus st st'
Still st (inr reply) = SameStatus st reply.state

Still-trans : (a b : State) → SameStatus a b → (m : Members) → Still b m → Still a m
Still-trans a b e (inl (ids, st)) e' = e' ∙ e
Still-trans a b e (inr reply) e' = e' ∙ e

module _ (json : Json) where
  module _ (ids : List Bytes) (st : State) where
    store_member-Still : (sens : Sensor) → Safe (Still st) (store_member json sens ids st)
    unfolding store_member
    store_member-Still sens =
        Safe-any (hts_put true st.sensors_table sens.id sens) _ λ r. Safe-done refl

    finish_member-Still :
        (object : Option (Json.Object json)) (id name type : Bytes) (l : Loop Place)
        → Safe (Still st) (finish_member json object ids id name type st l)
    unfolding finish_member create_error_message
    finish_member-Still object id name type (stop p) = Safe-done refl
    finish_member-Still object id name type (next p) =
        Safe-if (p.can_id == minus_one || (p.init_bit == minus_one || p.end_bit == minus_one))
          (λ _. Safe-done refl) λ _. store_member-Still _

    known_member-Still :
        (object : Option (Json.Object json)) → Safe (Still st) (known_member json object ids st)
    unfolding known_member create_error_message
    known_member-Still object =
        Safe-any (deref (json.json_object_get_string object (codes "sensor-id"))) _ λ id.
          Safe-if (is_some (hts_get st.sensors_table id)) (λ _. Safe-done refl) λ _. Safe-done refl

  complete_member-Still :
      (ids : List Bytes) (st : State) (object : Option (Json.Object json))
      → Safe (Still st) (complete_member json object ids st)
  unfolding complete_member create_error_message
  complete_member-Still ids st object =
      let settings = json.json_object_get_array object (codes "sensor-settings") in
      Safe-any (deref (json.json_object_get_string object (codes "sensor-id"))) _ λ id.
        let cleared = record st { sensors_table = make_way st.sensors_table id } in
        Safe-any (deref (json.json_object_get_string object (codes "sensor-name"))) _ λ name.
          Safe-any (deref (json.json_object_get_string object (codes "sensor-type"))) _ λ type.
            Safe-if (json.json_array_get_count settings == 3)
              (λ _. Safe-any (place_settings json 3 0 settings unplaced) _ λ l.
                Safe-weaken _ (finish_member-Still ids cleared object id name type l)
                  (Still-trans st cleared refl))
              λ _. Safe-done refl

  group_member-Still :
      (v : Option (Json.Value json)) (ids : List Bytes) (st : State)
      → Safe (Still st) (group_member json v ids st)
  unfolding group_member create_error_message
  group_member-Still v ids st =
      let object = json.json_value_get_object v in
      Safe-if
        (has json object (codes "sensor-id")
          && (has json object (codes "sensor-name")
              && (has json object (codes "sensor-type")
                  && (has json object (codes "sensor-settings")
                      && has json object (codes "sampling-rate")))))
        (λ _. complete_member-Still ids st object)
        λ _.
          Safe-if
            (has json object (codes "sensor-id")
              && (not (has json object (codes "sensor-name"))
                  && (not (has json object (codes "sensor-type"))
                      && (not (has json object (codes "sensor-settings"))
                          && not (has json object (codes "sampling-rate"))))))
            (λ _. known_member-Still ids st object) λ _. Safe-done refl

  group_members-Still :
      (left i : ℕ) (a : Option (Json.Array json)) (ids : List Bytes) (st : State)
      → Safe (Still st) (group_members json left i a ids st)
  unfolding group_members
  group_members-Still zero i a ids st = Safe-done refl
  group_members-Still (suc left) i a ids st =
      Safe-bind (group_member json (json.json_array_get_value a i) ids st) _
        (group_member-Still (json.json_array_get_value a i) ids st)
        (go_on (group_members-Still left (i + 1) a))
    where
      go_on :
          ((ids' : List Bytes) (st' : State)
            → Safe (Still st') (group_members json left (i + 1) a ids' st'))
          → (r : Members) → Still st r
          → Safe (Still st) (elim r [
            | inl m ↦ group_members json left (i + 1) a m.0 m.1
            | inr reply ↦ done (inr reply)
          ])
      go_on ih (inr reply) e = Safe-done e
      go_on ih (inl (ids', st')) e = Safe-weaken _ (ih ids' st') (Still-trans st st' e)

  finish_group-Move :
      (jobj : Option (Json.Object json)) (id : Bytes) (count : ℕ) (st : State) (m : Members)
      → Still st m
      → Safe (MoveReply st) (finish_group json jobj id count m)
  unfolding finish_group
  finish_group-Move jobj id count st (inr reply) e = Safe-done (kept e)
  finish_group-Move jobj id count st (inl (ids, st')) e =
      Safe-any (htsg_put true st'.sensorgroup_table id _) _
        λ r. Safe-done (configured-Move st.status (record st' { sensorgroup_table = r.1 }) e)

  pub create_sensorgroups_subscription-Move :
      (values : Bytes) (st : State)
      → Safe (MoveReply st) (create_sensorgroups_subscription json values st)
  unfolding create_sensorgroups_subscription
  create_sensorgroups_subscription-Move values st =
      let jobj = json.json_value_get_object (json.json_parse_string values) in
      let a = json.json_object_get_array jobj (codes "sensor-list") in
      let count = json.json_array_get_count a in
      Safe-if
        (has json jobj (codes "sensorgroup-id")
          && (has json jobj (codes "publish-rate") && has json jobj (codes "sensor-list")))
        (λ _. Safe-any (deref (json.json_object_get_string jobj (codes "sensorgroup-id"))) _ λ id.
          Safe-if (is_some (htsg_get st.sensorgroup_table id)) (λ _. refused-Move json st st refl _)
            λ _.
              Safe-bind (group_members json count 0 a [] st) _ (group_members-Still count 0 a [] st)
                (finish_group-Move jobj id count st))
        λ _. refused-Move json st st refl _

  delete_group_queries-EndsStill :
      (qs : List QueryPair) (id : Option Bytes) (st : State)
      → EndsStill st (delete_group_queries json qs id st)
  unfolding delete_group_queries create_error_message
  delete_group_queries-EndsStill [] id st = refl
  delete_group_queries-EndsStill (q ∷ qs) id st =
      let st' = record st { sensorgroup_table = (htsg_delete st.sensorgroup_table q.value).1 } in
      elim (Bool-cases (str_eq q.name (codes "id"))) [
        | inr other ↦ rw other (delete_group_queries-EndsStill qs id st)
        | inl named ↦
            rw named (elim (Bool-cases (is_some (htsg_get st.sensorgroup_table q.value))) [
              | inr absent ↦ rw absent refl
              | inl there ↦
                  rw there
                    (elim (Bool-cases (is_some (htsg_delete st.sensorgroup_table q.value).0)) [
                      | inl gone ↦ rw gone (delete_group_queries-EndsStill qs (some q.value) st')
                      | inr stays ↦ rw stays refl
                    ])
            ])
      ]

  groups_deleted-SameStatus :
      (values : Bytes) (st : State) (ended : (Option Bytes × State) ⊎ Reply)
      → EndsStill st ended
      → SameStatus st (groups_deleted json values ended).state
  unfolding groups_deleted create_error_message
  groups_deleted-SameStatus values st (inr reply) e = e
  groups_deleted-SameStatus values st (inl (none, st')) e = e
  groups_deleted-SameStatus values st (inl (some id, st')) e = e

  pub delete_sensorgroups_subscription-SameStatus :
      (values : Bytes) (queries : List QueryPair) (st : State)
      → SameStatus st (delete_sensorgroups_subscription json values queries st).state
  unfolding delete_sensorgroups_subscription
  delete_sensorgroups_subscription-SameStatus values queries st =
      groups_deleted-SameStatus values st _ (delete_group_queries-EndsStill queries none st)

  pub update_sensorgroups_subscription-Move :
      (values : Bytes) (queries : List QueryPair) (st : State)
      → Safe (MoveReply st) (update_sensorgroups_subscription json values queries st)
  unfolding update_sensorgroups_subscription
  update_sensorgroups_subscription-Move values queries st =
      let deleted = delete_sensorgroups_subscription json values queries st in
      let e = delete_sensorgroups_subscription-SameStatus values queries st in
      Safe-if (is_ok json deleted.response)
        (λ _.
          Safe-bind (create_sensorgroups_subscription json deleted.text deleted.state) _
            (create_sensorgroups_subscription-Move deleted.text deleted.state)
            (quiet-Move json st deleted.state e))
        λ _. Safe-done (kept e)
