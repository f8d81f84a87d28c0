-- ===== src/Service/GroupRemoval.antt =====
-- `delete_sensorgroups_subscription` and `update_sensorgroups_subscription` of
-- src/CanMonitor/implementation/sensorgroup.c.
pub mod Deletion
pub mod Replacement
use can_monitor.Base.{
  List, [], ◌∷◌, ◌++◌, Bytes, Option, none, some, codes, str_eq, if◌then◌else◌, Outcome, done,
  ◌>>=◌, ◌⊎◌, inl, inr,
}
use can_monitor.Service.Groups.{create_sensorgroups_subscription}
use can_monitor.Service.Json.{Json, is_some}
use can_monitor.Service.Removal.{is_ok}
use can_monitor.Service.Sensors.{QueryPair}
use can_monitor.Service.State.{State, Response, Reply, log_copy, create_error_message}
use can_monitor.Tables.Sensorgroups.{htsg_get, htsg_delete}

module _ (json : Json) where
  -- The loop over the queries: the last identifier that was deleted, or the reply that ends it.
  -- The message is written to `char message[50]`.
  unfoldable pub delete_group_queries :
      List QueryPair → Option Bytes → State → (Option Bytes × State) ⊎ Reply
  unfolding htsg_get htsg_delete create_error_message
  delete_group_queries [] id st = inl (id, st)
  delete_group_queries (q ∷ qs) id st =
      let r = htsg_delete st.sensorgroup_table q.value in
      let st' = record st { sensorgroup_table = r.1 } in
      let message = codes "There is no sensorgroup with id " ++ q.value in
      let gone = delete_group_queries qs (some q.value) st' in
      let other = delete_group_queries qs id st in
      if str_eq q.name (codes "id")
      then if is_some (htsg_get st.sensorgroup_table q.value)
        then if is_some r.0
          then gone
          else inr (create_error_message json (codes "Error deleting the sensorgroup") st')
        else inr (create_error_message json message (log_copy 50 message st))
      else other

  -- What follows the loop. The text is that of the request.
  unfoldable pub groups_deleted : Bytes → (Option Bytes × State) ⊎ Reply → Reply
  unfolding create_error_message
  groups_deleted values (inr reply) = reply
  groups_deleted values (inl (none, st)) =
      create_error_message json (codes "There is no id query.") st
  groups_deleted values (inl (some id, st)) = record {
    response = Response.ok;
    text = values;
    state = st;
  }

  unfoldable pub delete_sensorgroups_subscription : Bytes → List QueryPair → State → Reply
  unfolding delete_group_queries groups_deleted
  delete_sensorgroups_subscription values queries st =
      groups_deleted values (delete_group_queries queries none st)

  unfoldable pub update_sensorgroups_subscription : Bytes → List QueryPair → State → Outcome Reply
  unfolding delete_sensorgroups_subscription create_sensorgroups_subscription
  update_sensorgroups_subscription values queries st =
      let deleted = delete_sensorgroups_subscription values queries st in
      if is_ok json deleted.response
      then (create_sensorgroups_subscription json deleted.text deleted.state >>= λ created.
          done
            (if is_ok json created.response then record created { text = codes "" } else created))
      else done deleted
