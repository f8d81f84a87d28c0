-- ===== src/Service/Groups.antt =====
-- `create_sensorgroups_subscription` of src/CanMonitor/implementation/sensorgroup.c.
pub mod Known
pub mod Creation
pub mod Created
pub mod Naming
use can_monitor.Base.{
  ℕ, zero, suc, ◌+◌, ◌-◌, ◌^◌, List, [], ◌∷◌, ◌++◌, Bytes, Option, none, some, Bool, true, false,
  not, ◌&&◌, ◌||◌, codes, str_eq, ◌==◌, if◌then◌else◌, Outcome, done, fault, ◌>>=◌, ◌⊎◌, inl, inr,
}
use can_monitor.Libc.Scan.{atoi}
use can_monitor.Service.Connection.{Loop, next, stop}
use can_monitor.Service.Json.{Json, is_some, deref}
use can_monitor.Service.Sensors.{configured_unless_running}
use can_monitor.Service.State.{State, Response, Reply, log_copy, create_error_message, succeed}
use can_monitor.Tables.Defs.{Table}
use can_monitor.Tables.Sensorgroups.{Sensorgroup, htsg_get, htsg_put}
use can_monitor.Tables.Sensors.{Sensor, hts_get, hts_put, hts_delete}

-- The local variables of the loop over a sensor's settings, bit patterns of `int32_t`.
pub record Place : Type 0 where
  pub can_id : ℕ
  pub init_bit : ℕ
  pub end_bit : ℕ

abbrev pub minus_one : ℕ
minus_one = 2 ^ 32 - 1

abbrev pub unplaced : Place
unplaced = record { can_id = minus_one; init_bit = minus_one; end_bit = minus_one }

-- The sensor that is about to be replaced leaves the table.
unfoldable pub make_way : Option (Table Sensor) → Bytes → Option (Table Sensor)
unfolding hts_get hts_delete
make_way t id = if is_some (hts_get t id) then (hts_delete t id).1 else t

-- The sensors that the request has named so far leave the table.
unfoldable pub forget : List Bytes → Option (Table Sensor) → Option (Table Sensor)
unfolding hts_delete
forget [] t = t
forget (id ∷ ids) t = forget ids (hts_delete t id).1

-- The identifiers that stand in `sensor_list`, and the state; or the reply that ends the function.
abbrev pub Members : Type 0
Members = (List Bytes × State) ⊎ Reply

-- The identifier is copied into a buffer of the size of a pointer.
abbrev pub listed : List Bytes → Bytes → State → Members
listed ids id st = inl (ids ++ (id ∷ []), log_copy 8 id st)

module _ (json : Json) where
  open json use {
    Object, Array, Value, json_parse_string, json_value_get_object, json_object_get_value,
    json_object_get_string, json_object_get_number, json_object_get_array, json_array_get_count,
    json_array_get_value, to_int, to_uint32,
  }

  abbrev pub has : Option Object → Bytes → Bool
  has jobj key = is_some (json_object_get_value jobj key)

  abbrev read_int : Option Object → Outcome ℕ
  read_int object =
      deref (json_object_get_string object (codes "value")) >>= λ text. done (atoi text)

  -- One round of the loop over the settings of a sensor.
  unfoldable pub place_setting : Option Value → Place → Outcome (Loop Place)
  place_setting setting p =
      let object = json_value_get_object setting in
      if has object (codes "key") && has object (codes "value")
      then (deref (json_object_get_string object (codes "key")) >>= λ key.
          if str_eq key (codes "can-id")
          then (read_int object >>= λ v. done (next (record p { can_id = v })))
          else if str_eq key (codes "init-bit")
          then (read_int object >>= λ v. done (next (record p { init_bit = v })))
          else if str_eq key (codes "end-bit")
          then (read_int object >>= λ v. done (next (record p { end_bit = v })))
          else done (stop p))
      else done (stop p)

  unfoldable pub place_settings : ℕ → ℕ → Option Array → Place → Outcome (Loop Place)
  unfolding place_setting
  place_settings zero i settings p = done (next p)
  place_settings (suc left) i settings p =
      place_setting (json_array_get_value settings i) p >>= λ r. elim r [
        | next p' ↦ place_settings left (i + 1) settings p'
        | stop p' ↦ done (stop p')
      ]

  abbrev pub wrong : State → Reply
  wrong st =
      create_error_message json (codes "One of the sensors of the sensorgroup is not correct") st

  -- The new sensor goes into the table and into the list.
  unfoldable pub store_member : Sensor → List Bytes → State → Outcome Members
  unfolding hts_put
  store_member sens ids st = hts_put true st.sensors_table sens.id sens >>= λ r.
      done (listed ids sens.id (record st { sensors_table = r.1 }))

  -- What follows the loop over the settings.
  unfoldable pub finish_member :
      Option Object → List Bytes → Bytes → Bytes → Bytes → State → Loop Place → Outcome Members
  unfolding create_error_message store_member forget
  finish_member object ids id name type st (stop p) = done (inr (wrong st))
  finish_member object ids id name type st (next p) =
      if p.can_id == minus_one || (p.init_bit == minus_one || p.end_bit == minus_one)
      then done (inr (wrong (record st { sensors_table = forget ids st.sensors_table })))
      else store_member
          (record {
            id = id;
            name = name;
            type = type;
            can_id = p.can_id;
            init_bit = p.init_bit;
            end_bit = p.end_bit;
            sampling_rate = to_uint32 (json_object_get_number object (codes "sampling-rate"));
            value = codes "";
            timestamp = 0;
          })
          ids st

  -- A sensor that is given in full.
  unfoldable pub complete_member : Option Object → List Bytes → State → Outcome Members
  unfolding create_error_message place_settings finish_member make_way
  complete_member object ids st =
      deref (json_object_get_string object (codes "sensor-id")) >>= λ id.
      let cleared = record st { sensors_table = make_way st.sensors_table id } in
      deref (json_object_get_string object (codes "sensor-name")) >>= λ name.
      deref (json_object_get_string object (codes "sensor-type")) >>= λ type.
      let settings = json_object_get_array object (codes "sensor-settings") in
      if json_array_get_count settings == 3
      then (place_settings 3 0 settings unplaced >>= finish_member object ids id name type cleared)
      else done (inr (wrong cleared))

  -- A sensor that is named only.
  unfoldable pub known_member : Option Object → List Bytes → State → Outcome Members
  unfolding create_error_message hts_get
  known_member object ids st = deref (json_object_get_string object (codes "sensor-id")) >>= λ id.
      if is_some (hts_get st.sensors_table id)
      then done (listed ids id st)
      else done (inr (wrong st))

  abbrev pub malformed : State → Reply
  malformed st = create_error_message json (codes "The sensorgroup information is not valid") st

  -- One round of the loop over the sensors of the request.
  unfoldable pub group_member : Option Value → List Bytes → State → Outcome Members
  unfolding create_error_message complete_member known_member
  group_member value ids st =
      let object = json_value_get_object value in
      if has object (codes "sensor-id")
        && (has object (codes "sensor-name")
            && (has object (codes "sensor-type")
                && (has object (codes "sensor-settings") && has object (codes "sampling-rate"))))
      then complete_member object ids st
      else if has object (codes "sensor-id")
          && (not (has object (codes "sensor-name"))
              && (not (has object (codes "sensor-type"))
                  && (not (has object (codes "sensor-settings"))
                      && not (has object (codes "sampling-rate")))))
      then known_member object ids st
      else done (inr (malformed st))

  unfoldable pub group_members : ℕ → ℕ → Option Array → List Bytes → State → Outcome Members
  unfolding group_member
  group_members zero i a ids st = done (inl (ids, st))
  group_members (suc left) i a ids st = group_member (json_array_get_value a i) ids st >>= λ r.
      elim r [ inl m ↦ group_members left (i + 1) a m.0 m.1 | inr reply ↦ done (inr reply) ]

  -- What follows the loop over the sensors.
  unfoldable pub finish_group : Option Object → Bytes → ℕ → Members → Outcome Reply
  unfolding htsg_put
  finish_group jobj id count (inr reply) = done reply
  finish_group jobj id count (inl (ids, st)) =
      let sg : Sensorgroup = record {
        id = id;
        publish_rate = to_int (json_object_get_number jobj (codes "publish-rate"));
        sensorcount = count;
        sensor_list = ids;
        last_publish_time = record { tv_sec = 0; tv_usec = 0 };
      } in
      htsg_put true st.sensorgroup_table id sg >>= λ r.
      done (succeed (configured_unless_running (record st { sensorgroup_table = r.1 })))

  unfoldable pub create_sensorgroups_subscription : Bytes → State → Outcome Reply
  unfolding create_error_message group_members finish_group htsg_get
  create_sensorgroups_subscription values st =
      let jobj = json_value_get_object (json_parse_string values) in
      if has jobj (codes "sensorgroup-id")
        && (has jobj (codes "publish-rate") && has jobj (codes "sensor-list"))
      then (deref (json_object_get_string jobj (codes "sensorgroup-id")) >>= λ id.
          if is_some (htsg_get st.sensorgroup_table id)
          then done
              (create_error_message json (codes "A sensorgroup with that id already exists") st)
          else let a = json_object_get_array jobj (codes "sensor-list") in
            let count = json_array_get_count a in
            (group_members count 0 a [] st >>= finish_group jobj id count))
      else done (malformed st)
