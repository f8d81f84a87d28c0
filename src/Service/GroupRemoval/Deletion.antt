-- ===== src/Service/GroupRemoval/Deletion.antt =====
-- Deleting a group by its identifier.
use can_monitor.Base.{Bytes, Option, some, codes, str_eq_refl, ◌≡◌, ◌∙◌, ap}
use can_monitor.Service.GroupRemoval.{delete_sensorgroups_subscription}
use can_monitor.Service.Json.{Json}
use can_monitor.Service.Removal.Deletion.{by_id}
use can_monitor.Service.State.{State, Response}
use can_monitor.Tables.Defs.{live, Table}
use can_monitor.Tables.Map.{Represents, without_key, delete-Represents}
use can_monitor.Tables.Sensorgroups.{Sensorgroup, htsg_get, htsg_delete}
use mathlib.Core.Option

-- When the table of groups represents a map, deleting one group that is there, by a single id
-- query, succeeds: the group is gone, and nothing else changes, its sensors included.
pub delete_sensorgroups_subscription-Represents :
    (json : Json) (values id : Bytes) (st : State) (u : Table Sensorgroup)
    (g : Bytes → Option Sensorgroup) (sg : Sensorgroup)
    → st.sensorgroup_table ≡ some u
    → Represents u g
    → g id ≡ some sg
    → (u' : Table Sensorgroup) × (delete_sensorgroups_subscription json values (by_id id) st
        ≡ record {
          response = Response.ok;
          text = values;
          state = record st { sensorgroup_table = some u' };
        })
      × Represents u' (without_key g id)
unfolding delete_sensorgroups_subscription
delete_sensorgroups_subscription-Represents json values id st u g sg at r h =
    let (u', e, r') = delete-Represents r id in
    let found : htsg_get st.sensorgroup_table id ≡ some (live sg) =
      unfold htsg_get in rw at (r.reads id ∙ ap (Option.map live) h) in
    let deleted : htsg_delete st.sensorgroup_table id ≡ (some (live sg), some u') =
      unfold htsg_delete in rw at (e ∙ ap (λ o. (Option.map live o, some u')) h) in
    (u', rw (str_eq_refl (codes "id"), found, deleted), r')
