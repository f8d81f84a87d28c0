-- ===== src/Service/Groups/Created.antt =====
-- `create_sensorgroups_subscription` as a whole: what an OK promises.
use can_monitor.Base.{
  ℕ, List, [], Bytes, Option, none, some, true, ◌&&◌, codes, take, take-length, Bool-cases,
  Option-cases, Outcome, done, ◌>>=◌, >>=-eq-done, done-injective, ◌≡◌, ◌≢◌, inl, inr, refl, sym,
  ◌∙◌, ap, arith,
}
use can_monitor.Service.Command.{is_running}
use can_monitor.Service.Groups.Creation.{Filled, group_members-Filled, group_members-error}
use can_monitor.Service.Groups.{
  Members, group_members, finish_group, create_sensorgroups_subscription, has,
}
use can_monitor.Service.Json.{Json, deref}
use can_monitor.Service.Removal.Deletion.{AllKnown, IsRoomy}
use can_monitor.Service.Removal.Members.{members}
use can_monitor.Service.Sensors.{configured_unless_running}
use can_monitor.Service.State.{State, Response, Reply, create_error_message, succeed}
use can_monitor.Tables.Defs.{live, Table}
use can_monitor.Tables.Map.{Represents, with_key, put-Represents}
use can_monitor.Tables.Sensorgroups.{Sensorgroup, htsg_get, htsg_put}
use can_monitor.Tables.Sensors.{Sensor}
use mathlib.Core.Option
use mathlib.Core.Path.{subst}

-- One new group is there, all its members are sensors, and no sensor is gone.
pub record Created (f : Bytes → Option Sensor) (g : Bytes → Option Sensorgroup) (r : Reply)
    : Type 0 where
  pub t : Table Sensor
  pub u : Table Sensorgroup
  pub f' : Bytes → Option Sensor
  pub sg : Sensorgroup
  pub at : r.state.sensors_table ≡ some t
  pub groups_at : r.state.sensorgroup_table ≡ some u
  pub represents : Represents t f'
  pub fresh : g sg.id ≡ none
  pub groups : Represents u (with_key g sg.id sg)
  pub kept : (q : Bytes) → f q ≢ none → f' q ≢ none
  pub known : AllKnown f' (members sg)
  pub roomy : IsRoomy sg

tables_of_configured :
    (st : State)
    → ((configured_unless_running st).sensors_table ≡ st.sensors_table)
      × ((configured_unless_running st).sensorgroup_table ≡ st.sensorgroup_table)
tables_of_configured st = elim (Bool-cases (is_running st.status)) [
  | inl on ↦ rw on (refl, refl)
  | inr off ↦ rw off (refl, refl)
]

response_clash : Response.error ≢ Response.ok
response_clash e = cc

module _ (json : Json) where
  finish_group-Created :
      (f : Bytes → Option Sensor) (g : Bytes → Option Sensorgroup)
      (jobj : Option (Json.Object json)) (id : Bytes) (count : ℕ) (st : State)
      (u : Table Sensorgroup)
      → Represents u g
      → st.sensorgroup_table ≡ some u
      → g id ≡ none
      → (m : List Bytes × State) → Filled f [] count st m
      → (r : Reply) → finish_group json jobj id count (inl m) ≡ done r
      → Created f g r
  unfolding finish_group
  finish_group-Created f g jobj id count st u ru at absent m w r h =
      let sg : Sensorgroup = record {
        id = id;
        publish_rate = json.to_int (json.json_object_get_number jobj (codes "publish-rate"));
        sensorcount = count;
        sensor_list = m.0;
        last_publish_time = record { tv_sec = 0; tv_usec = 0 };
      } in
      let (u', e, ru') = put-Represents ru id sg absent in
      let stored : htsg_put true m.1.sensorgroup_table id sg ≡ done (0, some u') =
        unfold htsg_put in rw (w.groups, at) e in
      let after = record m.1 { sensorgroup_table = some u' } in
      let run : finish_group json jobj id count (inl m)
          ≡ done (succeed (configured_unless_running after)) =
        rw stored in
      let (same_sensors, same_groups) = tables_of_configured after in
      let all : take count m.0 ≡ m.0 =
        ap (λ n. take n m.0) (omega (arith, w.size)) ∙ take-length m.0 in
      subst (Created f g) (done-injective (sym run ∙ h)) (record {
        t = w.t;
        u = u';
        f' = w.g;
        sg = sg;
        at = same_sensors ∙ w.at;
        groups_at = same_groups;
        represents = w.represents;
        fresh = absent;
        groups = ru';
        kept = w.kept;
        known = rw all w.known;
        roomy = omega (arith, w.size);
      })

  -- The part behind the test of the identifier.
  abbrev filled : Option (Json.Object json) → Bytes → State → Outcome Reply
  filled jobj id st =
      let a = json.json_object_get_array jobj (codes "sensor-list") in
      let count = json.json_array_get_count a in
      group_members json count 0 a [] st >>= finish_group json jobj id count

  filled-Created :
      (f : Bytes → Option Sensor) (g : Bytes → Option Sensorgroup)
      (jobj : Option (Json.Object json)) (id : Bytes) (st : State) (t : Table Sensor)
      (u : Table Sensorgroup)
      → Represents t f
      → Represents u g
      → st.sensors_table ≡ some t
      → st.sensorgroup_table ≡ some u
      → g id ≡ none
      → (r : Reply) → r.response ≡ Response.ok
      → filled jobj id st ≡ done r
      → Created f g r
  unfolding finish_group
  filled-Created f g jobj id st t u rt ru at groups_at absent r ok h =
      let a = json.json_object_get_array jobj (codes "sensor-list") in
      let count = json.json_array_get_count a in
      let (m, e, e') =
        >>=-eq-done (group_members json count 0 a [] st) (finish_group json jobj id count) h in
      by_outcome m e e'
    where
      by_outcome :
          (m : Members)
          → group_members json
              (json.json_array_get_count (json.json_object_get_array jobj (codes "sensor-list")))
              0
              (json.json_object_get_array jobj (codes "sensor-list"))
              []
              st
            ≡ done m
          → finish_group json jobj id
              (json.json_array_get_count (json.json_object_get_array jobj (codes "sensor-list")))
              m
            ≡ done r
          → Created f g r
      by_outcome (inl m) e e' =
          let a = json.json_object_get_array jobj (codes "sensor-list") in
          let count = json.json_array_get_count a in
          finish_group-Created f g jobj id count st u ru groups_at absent m
            (group_members-Filled json count 0 a f [] st t rt at tt m e) r e'
      by_outcome (inr reply) e e' =
          let a = json.json_object_get_array jobj (codes "sensor-list") in
          let count = json.json_array_get_count a in
          let failed = group_members-error json count 0 a [] st reply e in
          let same : reply ≡ r = done-injective e' in
          absurd (response_clash (sym failed ∙ ap (λ (x : Reply). x.response) same ∙ ok))

  create_error_message-ne-ok :
      (message : Bytes) (st : State) (r : Reply)
      → done (create_error_message json message st) ≡ done r
      → r.response ≢ Response.ok
  unfolding create_error_message
  create_error_message-ne-ok message st r e ok = ground arith

  -- When the tables represent maps and a request for a group is answered OK, the table of groups
  -- holds one group more under an identifier that was absent, no sensor is gone, and every member
  -- of the new group is a sensor.
  pub create_sensorgroups_subscription-Created :
      (values : Bytes) (st : State) (t : Table Sensor) (u : Table Sensorgroup)
      (f : Bytes → Option Sensor) (g : Bytes → Option Sensorgroup)
      → Represents t f
      → Represents u g
      → st.sensors_table ≡ some t
      → st.sensorgroup_table ≡ some u
      → (r : Reply) → r.response ≡ Response.ok
      → create_sensorgroups_subscription json values st ≡ done r
      → Created f g r
  unfolding create_sensorgroups_subscription
  create_sensorgroups_subscription-Created values st t u f g rt ru at groups_at r ok h =
      let jobj = json.json_value_get_object (json.json_parse_string values) in
      let keys =
        has json jobj (codes "sensorgroup-id")
        && (has json jobj (codes "publish-rate") && has json jobj (codes "sensor-list")) in
      elim (Bool-cases keys) [
        | inr missing ↦ absurd (
            create_error_message-ne-ok (codes "The sensorgroup information is not valid") st r
              (rw (missing, create_sensorgroups_subscription) at h) ok)
        | inl there ↦
            let (id, e, h') =
              >>=-eq-done (deref (json.json_object_get_string jobj (codes "sensorgroup-id"))) _
                (rw (there, create_sensorgroups_subscription) at h) in
            let found : htsg_get st.sensorgroup_table id ≡ Option.map live (g id) =
              unfold htsg_get in rw groups_at (ru.reads id) in
            elim (Option-cases (g id)) [
              | inl absent ↦
                  filled-Created f g jobj id st t u rt ru at groups_at absent r ok
                    (rw (found, absent) at h')
              | inr (sg, taken) ↦ absurd (
                  create_error_message-ne-ok (codes "A sensorgroup with that id already exists") st
                    r (rw (found, taken) at h') ok)
            ]
      ]
