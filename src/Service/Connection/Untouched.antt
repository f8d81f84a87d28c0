-- ===== src/Service/Connection/Untouched.antt =====
-- What an update of the connection leaves as it was, whatever its answer.
use can_monitor.Base.{
  not, ◌&&◌, ◌==◌, ◌∙◌, Bool-cases, Option-cases, ℕ, zero, suc, ◌+◌, Bytes, Option, none, some,
  codes, str_eq, done, Safe, Safe-done, Safe-bind, Safe-any, Safe-if, Safe-weaken, ◌≡◌, inl, inr,
  refl,
}
use can_monitor.Service.Connection.{
  Loop, next, stop, take_down, connection_setting, connection_settings, connection_done,
  configure_connection, update_connection_configuration,
}
use can_monitor.Service.Json.{Json, is_some, deref}
use can_monitor.Service.State.{State, Reply, create_error_message}

-- The tables and the status are as they were.
pub record Untouched (st st' : State) : Type 0 where
  pub sensors_table : st'.sensors_table ≡ st.sensors_table
  pub sensorgroup_table : st'.sensorgroup_table ≡ st.sensorgroup_table
  pub status : st'.status ≡ st.status

untouched :
    {st st' : State}
    → st'.sensors_table ≡ st.sensors_table
    → st'.sensorgroup_table ≡ st.sensorgroup_table
    → st'.status ≡ st.status
    → Untouched st st'
untouched e e' e'' = record { sensors_table = e; sensorgroup_table = e'; status = e'' }

abbrev Same : State → Loop State → Type 0
Same st (next st') = Untouched st st'
Same st (stop st') = Untouched st st'

Same-trans : (a b : State) → Untouched a b → (l : Loop State) → Same b l → Same a l
Same-trans a b s (next st) s' =
    untouched (s'.sensors_table ∙ s.sensors_table) (s'.sensorgroup_table ∙ s.sensorgroup_table)
      (s'.status ∙ s.status)
Same-trans a b s (stop st) s' =
    untouched (s'.sensors_table ∙ s.sensors_table) (s'.sensorgroup_table ∙ s.sensorgroup_table)
      (s'.status ∙ s.status)

abbrev SameReply : State → Reply → Type 0
SameReply st r = Untouched st r.state

module _ (json : Json) where
  refused-Same :
      (st st' : State)
      → Untouched st st'
      → (m : Bytes) → Safe (SameReply st) (done (create_error_message json m st'))
  unfolding create_error_message
  refused-Same st st' s m = Safe-done (untouched s.sensors_table s.sensorgroup_table s.status)

  setting-Same :
      (v : Option (Json.Value json)) (st : State) → Safe (Same st) (connection_setting json v st)
  unfolding connection_setting
  setting-Same v st =
      let object = json.json_value_get_object v in
      Safe-if
        (is_some (json.json_object_get_value object (codes "key"))
          && is_some (json.json_object_get_value object (codes "value")))
        (λ _. Safe-any (deref (json.json_object_get_string object (codes "key"))) _ λ key.
          Safe-if (str_eq key (codes "canport"))
            (λ _.
              Safe-any (deref (json.json_object_get_string object (codes "value"))) _
                λ port. Safe-done (untouched refl refl refl))
            λ _.
              Safe-if (str_eq key (codes "bitrate")) (λ _. Safe-done (untouched refl refl refl))
                λ _. Safe-done (untouched refl refl refl))
        λ _. Safe-done (untouched refl refl refl)

  settings-Same :
      (left i : ℕ) (a : Option (Json.Array json)) (st : State)
      → Safe (Same st) (connection_settings json left i a st)
  unfolding connection_settings
  settings-Same zero i a st = Safe-done (untouched refl refl refl)
  settings-Same (suc left) i a st =
      Safe-bind (connection_setting json (json.json_array_get_value a i) st) _
        (setting-Same (json.json_array_get_value a i) st) (go_on (settings-Same left (i + 1) a))
    where
      go_on :
          ((st' : State) → Safe (Same st') (connection_settings json left (i + 1) a st'))
          → (l : Loop State) → Same st l
          → Safe (Same st) (elim l [
            | next st' ↦ connection_settings json left (i + 1) a st'
            | stop st' ↦ done (stop st')
          ])
      go_on ih (stop st') s = Safe-done s
      go_on ih (next st') s = Safe-weaken _ (ih st') (Same-trans st st' s)

  done-Same :
      (values : Bytes) (st : State) (l : Loop State)
      → Same st l
      → Untouched st (connection_done json values l).state
  unfolding connection_done create_error_message
  done-Same values st (stop st') s = untouched s.sensors_table s.sensorgroup_table s.status
  done-Same values st (next st') s = elim (Option-cases st'.canport) [
    | inl no_port ↦ rw no_port (untouched s.sensors_table s.sensorgroup_table s.status)
    | inr (port, there) ↦ rw there (elim (Bool-cases (st'.bitrate == 0)) [
      | inl no_rate ↦ rw no_rate (untouched s.sensors_table s.sensorgroup_table s.status)
      | inr rate ↦ rw rate (untouched s.sensors_table s.sensorgroup_table s.status)
    ])
  ]

  configure-Same :
      (values : Bytes) (st : State) → Safe (SameReply st) (configure_connection json values st)
  unfolding configure_connection
  configure-Same values st =
      let jobj = json.json_value_get_object (json.json_parse_string values) in
      let settings = json.json_object_get_array jobj (codes "connection-settings") in
      Safe-if
        (is_some (json.json_object_get_value jobj (codes "id"))
          && (is_some (json.json_object_get_value jobj (codes "monitor-agent-type"))
              && is_some (json.json_object_get_value jobj (codes "connection-settings"))))
        (λ _. Safe-any (deref (json.json_object_get_string jobj (codes "id"))) _ λ id.
          Safe-any (deref (json.json_object_get_string jobj (codes "monitor-agent-type"))) _
            λ agent_type.
              Safe-if (not (str_eq agent_type (codes "can")))
                (λ _.
                  refused-Same st (record st { can_conf_id = some id }) (untouched refl refl refl)
                    _)
                λ _.
                  Safe-if (not (json.json_array_get_count settings == 2))
                    (λ _.
                      refused-Same st (record st { can_conf_id = some id })
                        (untouched refl refl refl) _)
                    λ _.
                      let cleared = record st {
                        can_conf_id = some id;
                        canport = none;
                        bitrate = 0;
                      } in
                      Safe-bind (connection_settings json 2 0 settings cleared) _
                        (settings-Same 2 0 settings cleared)
                        λ l s. Safe-done (
                          done-Same values st l
                            (Same-trans st cleared (untouched refl refl refl) l s)))
        λ _. refused-Same st st (untouched refl refl refl) _

  take_down-Same : (st : State) → Safe (Untouched st) (take_down json st)
  unfolding take_down
  take_down-Same st =
      Safe-if (st.can_up == 1)
        (λ _. Safe-any (deref st.canport) _ λ port. Safe-done (untouched refl refl refl))
        λ _. Safe-done (untouched refl refl refl)

  pub update_connection_configuration-Untouched :
      (values : Bytes) (st : State)
      → Safe (λ r. Untouched st r.state) (update_connection_configuration json values st)
  unfolding update_connection_configuration
  update_connection_configuration-Untouched values st =
      Safe-bind (take_down json st) _ (take_down-Same st) λ st' down.
        Safe-weaken _ (configure-Same values st') λ r same.
          untouched (same.sensors_table ∙ down.sensors_table)
            (same.sensorgroup_table ∙ down.sensorgroup_table) (same.status ∙ down.status)
