-- ===== src/Service/Sound/Sensors.antt =====
-- The handlers of the sensors keep the invariant.
use can_monitor.Base.{
  Safe-if, ◌==◌, ◌&&◌, not, List, [], ◌∷◌, Bytes, Option, none, some, false, codes, str_eq,
  Bool-cases, if◌then◌else◌, Outcome, done, Safe, Safe-done, Safe-bind, Safe-any, ◌≡◌, ◌⊎◌, inl,
  inr, refl,
}
use can_monitor.Service.Command.{is_running}
use can_monitor.Service.Connection.{Loop, next, stop}
use can_monitor.Service.Json.{Json, is_some, deref}
use can_monitor.Service.Removal.{
  delete_sensor_queries, delete_from_groups, delete_sensors_configuration, is_ok,
  update_sensors_configuration,
}
use can_monitor.Service.Sensors.{
  QueryPair, Settings, configured_unless_running, sensor_settings, add_sensor, finish_sensor,
  create_sensor, create_sensors_configuration, has, no_settings,
}
use can_monitor.Service.Sound.{
  IsSound, hts_put-HasSensors, hts_delete-HasSensors, leave_groups-HasGroups,
}
use can_monitor.Service.State.{State, Reply, create_error_message}
use can_monitor.Tables.Sensors.{Sensor, hts_get, hts_delete}

pub nothing_of : {A : Type 0} (o : Option A) → is_some o ≡ false → o ≡ none
nothing_of none e = refl
nothing_of (some a) e = cc

abbrev pub IsSoundReply : Reply → Type 0
IsSoundReply r = IsSound r.state

pub configured-IsSound : (st : State) → IsSound st → IsSound (configured_unless_running st)
configured-IsSound st s = elim (Bool-cases (is_running st.status)) [
  | inl on ↦ rw on s
  | inr off ↦ rw off (record { sensors = s.sensors; groups = s.groups })
]

-- What the loop over the queries of a deletion comes to.
abbrev pub EndsSound : (Option Bytes × State) ⊎ Reply → Type 0
EndsSound (inl (id, st)) = IsSound st
EndsSound (inr reply) = IsSound reply.state

-- After a creation within an update, the text of an OK is emptied.
pub quiet-IsSound :
    (json : Json) (created : Reply)
    → IsSound created.state
    → Safe IsSoundReply
        (done (if is_ok json created.response then record created { text = codes "" } else created))
quiet-IsSound json created s = elim (Bool-cases (is_ok json created.response)) [
  | inl ok ↦ rw ok (Safe-done s)
  | inr failed ↦ rw failed (Safe-done s)
]

module _ (json : Json) where
  pub error-IsSound :
      {st : State} → IsSound st → (m : Bytes) → IsSound (create_error_message json m st).state
  unfolding create_error_message
  error-IsSound s m = record { sensors = s.sensors; groups = s.groups }

  pub refused :
      {st : State}
      → IsSound st
      → (m : Bytes) → Safe IsSoundReply (done (create_error_message json m st))
  refused s m = Safe-done (error-IsSound s m)

  add_sensor-IsSound :
      {st : State}
      → IsSound st
      → (sens : Sensor) → hts_get st.sensors_table sens.id ≡ none
      → Safe IsSoundReply (add_sensor json sens st)
  unfolding add_sensor
  add_sensor-IsSound {st} s sens absent =
      Safe-bind _ _ (hts_put-HasSensors s.sensors sens.id sens absent) λ r h. Safe-done (
        configured-IsSound (record st { sensors_table = r.1 })
          (record { sensors = h; groups = s.groups }))

  finish_sensor-IsSound :
      {st : State}
      → IsSound st
      → (jobj : Option (Json.Object json)) (id name type : Bytes)
      → hts_get st.sensors_table id ≡ none
      → (l : Loop Settings) → Safe IsSoundReply (finish_sensor json jobj id name type st l)
  unfolding finish_sensor
  finish_sensor-IsSound s jobj id name type absent (stop l) = refused s _
  finish_sensor-IsSound s jobj id name type absent (next l) =
      Safe-if (not (l.flag == 3)) (λ _. refused s _) λ _. add_sensor-IsSound s _ absent

  abbrev pub text_at : Option (Json.Object json) → Bytes → Outcome Bytes
  text_at jobj key = deref (json.json_object_get_string jobj key)

  create_sensor-IsSound :
      {st : State}
      → IsSound st
      → (jobj : Option (Json.Object json)) → Safe IsSoundReply (create_sensor json jobj st)
  unfolding create_sensor
  create_sensor-IsSound {st} s jobj =
      let settings = json.json_object_get_array jobj (codes "sensor-settings") in
      Safe-any (text_at jobj (codes "sensor-id")) _ λ id.
        Safe-if (is_some (hts_get st.sensors_table id)) (λ _. refused s _)
          λ absent. Safe-any (text_at jobj (codes "sensor-name")) _ λ name.
            Safe-any (text_at jobj (codes "sensor-type")) _ λ type.
              Safe-if (json.json_array_get_count settings == 3)
                (λ _.
                  Safe-any (sensor_settings json 3 0 settings (no_settings json)) _
                    (finish_sensor-IsSound s jobj id name type (nothing_of _ absent)))
                λ _. refused s _

  pub create_sensors_configuration-IsSound :
      {st : State}
      → IsSound st
      → (values : Bytes) → Safe IsSoundReply (create_sensors_configuration json values st)
  unfolding create_sensors_configuration
  create_sensors_configuration-IsSound s values =
      let jobj = json.json_value_get_object (json.json_parse_string values) in
      Safe-if
        (has json jobj (codes "sensor-id")
          && (has json jobj (codes "sensor-name")
              && (has json jobj (codes "sensor-type")
                  && (has json jobj (codes "sampling-rate")
                      && has json jobj (codes "sensor-settings")))))
        (λ _. create_sensor-IsSound s jobj) λ _. refused s _

  -- The loop over the queries.
  pub delete_sensor_queries-IsSound :
      (qs : List QueryPair) (id : Option Bytes) {st : State}
      → IsSound st
      → EndsSound (delete_sensor_queries json qs id st)
  unfolding delete_sensor_queries
  delete_sensor_queries-IsSound [] id s = s
  delete_sensor_queries-IsSound (q ∷ qs) id {st} s =
      let s' : IsSound (record st { sensors_table = (hts_delete st.sensors_table q.value).1 }) =
        record { sensors = hts_delete-HasSensors s.sensors q.value; groups = s.groups } in
      elim (Bool-cases (str_eq q.name (codes "id"))) [
        | inr other ↦ rw other (delete_sensor_queries-IsSound qs id s)
        | inl named ↦
            rw named (elim (Bool-cases (is_some (hts_delete st.sensors_table q.value).0)) [
              | inl there ↦ rw there (delete_sensor_queries-IsSound qs (some q.value) s')
              | inr absent ↦
                  rw absent (error-IsSound (record { sensors = s'.sensors; groups = s'.groups }) _)
            ])
      ]

  delete_from_groups-IsSound :
      (values : Bytes) (ended : (Option Bytes × State) ⊎ Reply)
      → EndsSound ended
      → Safe IsSoundReply (delete_from_groups json values ended)
  unfolding delete_from_groups
  delete_from_groups-IsSound values (inr reply) s = Safe-done s
  delete_from_groups-IsSound values (inl (none, st)) s = refused s _
  delete_from_groups-IsSound values (inl (some id, st)) s =
      Safe-bind _ _ (leave_groups-HasGroups s.groups id)
        λ groups h. Safe-done (record { sensors = s.sensors; groups = h })

  pub delete_sensors_configuration-IsSound :
      {st : State}
      → IsSound st
      → (values : Bytes) (queries : List QueryPair)
      → Safe IsSoundReply (delete_sensors_configuration json values queries st)
  unfolding delete_sensors_configuration
  delete_sensors_configuration-IsSound s values queries =
      delete_from_groups-IsSound values _ (delete_sensor_queries-IsSound queries none s)

  pub update_sensors_configuration-IsSound :
      {st : State}
      → IsSound st
      → (values : Bytes) (queries : List QueryPair)
      → Safe IsSoundReply (update_sensors_configuration json values queries st)
  unfolding update_sensors_configuration
  update_sensors_configuration-IsSound {st} s values queries =
      Safe-bind (delete_sensors_configuration json values queries st) _
        (delete_sensors_configuration-IsSound s values queries)
        λ deleted sound.
          Safe-if (is_ok json deleted.response)
            (λ _.
              Safe-bind (create_sensors_configuration json deleted.text deleted.state) _
                (create_sensors_configuration-IsSound sound deleted.text) (quiet-IsSound json))
            λ _. Safe-done sound
