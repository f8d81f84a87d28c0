-- ===== src/Service/Moves/Sensors.antt =====
-- The handlers of the sensors: what they do to the status.
use can_monitor.Base.{
  ◌==◌, ◌&&◌, not, List, [], ◌∷◌, Bytes, Option, none, some, true, codes, str_eq, Bool-cases,
  if◌then◌else◌, done, Safe, Safe-done, Safe-bind, Safe-any, Safe-if, ◌⊎◌, inl, inr, refl,
}
use can_monitor.Service.Connection.{Loop, next, stop}
use can_monitor.Service.Json.{Json, is_some, deref}
use can_monitor.Service.Moves.{Move, kept, MoveReply, SameStatus, configured-Move, refused-Move}
use can_monitor.Service.Removal.{
  delete_sensor_queries, delete_from_groups, delete_sensors_configuration, leave_groups, is_ok,
  update_sensors_configuration,
}
use can_monitor.Service.Sensors.{
  QueryPair, Settings, sensor_settings, no_settings, add_sensor, finish_sensor, create_sensor,
  create_sensors_configuration, has,
}
use can_monitor.Service.State.{State, Reply, create_error_message}
use can_monitor.Tables.Sensors.{Sensor, hts_get, hts_put, hts_delete}
use mathlib.Core.Path.{subst}

-- What the loop over the queries of a deletion comes to.
abbrev pub EndsStill : State → (Option Bytes × State) ⊎ Reply → Type 0
EndsStill st (inl (id, st')) = SameStatus st st'
EndsStill st (inr reply) = SameStatus st reply.state

-- After a creation within an update, the text of an OK is emptied.
pub quiet-Move :
    (json : Json) (st st' : State)
    → SameStatus st st'
    → (created : Reply) → MoveReply st' created
    → Safe
        (MoveReply st)
        (done (if is_ok json created.response then record created { text = codes "" } else created))
quiet-Move json st st' e created m =
    let moved : MoveReply st created = subst (λ s. Move s created.state.status) e m in
    elim (Bool-cases (is_ok json created.response)) [
      | inl ok ↦ rw ok (Safe-done moved)
      | inr failed ↦ rw failed (Safe-done moved)
    ]

module _ (json : Json) where
  module _ (st : State) where
    add_sensor-Move : (sens : Sensor) → Safe (MoveReply st) (add_sensor json sens st)
    unfolding add_sensor
    add_sensor-Move sens =
        Safe-any (hts_put true st.sensors_table sens.id sens) _
          λ r. Safe-done (configured-Move st.status (record st { sensors_table = r.1 }) refl)

    finish_sensor-Move :
        (jobj : Option (Json.Object json)) (id name type : Bytes) (l : Loop Settings)
        → Safe (MoveReply st) (finish_sensor json jobj id name type st l)
    unfolding finish_sensor
    finish_sensor-Move jobj id name type (stop l) = refused-Move json st st refl _
    finish_sensor-Move jobj id name type (next l) =
        Safe-if (not (l.flag == 3)) (λ _. refused-Move json st st refl _) λ _. add_sensor-Move _

    create_sensor-Move :
        (jobj : Option (Json.Object json)) → Safe (MoveReply st) (create_sensor json jobj st)
    unfolding create_sensor
    create_sensor-Move jobj =
        let settings = json.json_object_get_array jobj (codes "sensor-settings") in
        Safe-any (deref (json.json_object_get_string jobj (codes "sensor-id"))) _ λ id.
          Safe-if (is_some (hts_get st.sensors_table id)) (λ _. refused-Move json st st refl _)
            λ _. Safe-any (deref (json.json_object_get_string jobj (codes "sensor-name"))) _ λ name.
              Safe-any (deref (json.json_object_get_string jobj (codes "sensor-type"))) _ λ type.
                Safe-if (json.json_array_get_count settings == 3)
                  (λ _.
                    Safe-any (sensor_settings json 3 0 settings (no_settings json)) _
                      (finish_sensor-Move jobj id name type))
                  λ _. refused-Move json st st refl _

    pub create_sensors_configuration-Move :
        (values : Bytes) → Safe (MoveReply st) (create_sensors_configuration json values st)
    unfolding create_sensors_configuration
    create_sensors_configuration-Move values =
        let jobj = json.json_value_get_object (json.json_parse_string values) in
        Safe-if
          (has json jobj (codes "sensor-id")
            && (has json jobj (codes "sensor-name")
                && (has json jobj (codes "sensor-type")
                    && (has json jobj (codes "sampling-rate")
                        && has json jobj (codes "sensor-settings")))))
          (λ _. create_sensor-Move jobj) λ _. refused-Move json st st refl _

  delete_sensor_queries-EndsStill :
      (qs : List QueryPair) (id : Option Bytes) (st : State)
      → EndsStill st (delete_sensor_queries json qs id st)
  unfolding delete_sensor_queries create_error_message
  delete_sensor_queries-EndsStill [] id st = refl
  delete_sensor_queries-EndsStill (q ∷ qs) id st =
      let st' = record st { sensors_table = (hts_delete st.sensors_table q.value).1 } in
      elim (Bool-cases (str_eq q.name (codes "id"))) [
        | inr other ↦ rw other (delete_sensor_queries-EndsStill qs id st)
        | inl named ↦
            rw named (elim (Bool-cases (is_some (hts_delete st.sensors_table q.value).0)) [
              | inl there ↦ rw there (delete_sensor_queries-EndsStill qs (some q.value) st')
              | inr absent ↦ rw absent refl
            ])
      ]

  delete_from_groups-SameStatus :
      (values : Bytes) (st : State) (ended : (Option Bytes × State) ⊎ Reply)
      → EndsStill st ended
      → Safe (λ r. SameStatus st r.state) (delete_from_groups json values ended)
  unfolding delete_from_groups create_error_message
  delete_from_groups-SameStatus values st (inr reply) e = Safe-done e
  delete_from_groups-SameStatus values st (inl (none, st')) e = Safe-done e
  delete_from_groups-SameStatus values st (inl (some id, st')) e =
      Safe-any (leave_groups id st'.sensorgroup_table) _ λ groups. Safe-done e

  pub delete_sensors_configuration-SameStatus :
      (values : Bytes) (queries : List QueryPair) (st : State)
      → Safe (λ r. SameStatus st r.state) (delete_sensors_configuration json values queries st)
  unfolding delete_sensors_configuration
  delete_sensors_configuration-SameStatus values queries st =
      delete_from_groups-SameStatus values st _ (delete_sensor_queries-EndsStill queries none st)

  pub update_sensors_configuration-Move :
      (values : Bytes) (queries : List QueryPair) (st : State)
      → Safe (MoveReply st) (update_sensors_configuration json values queries st)
  unfolding update_sensors_configuration
  update_sensors_configuration-Move values queries st =
      Safe-bind (delete_sensors_configuration json values queries st) _
        (delete_sensors_configuration-SameStatus values queries st)
        λ deleted e.
          Safe-if (is_ok json deleted.response)
            (λ _.
              Safe-bind (create_sensors_configuration json deleted.text deleted.state) _
                (create_sensors_configuration-Move deleted.state deleted.text)
                (quiet-Move json st deleted.state e))
            λ _. Safe-done (kept e)
