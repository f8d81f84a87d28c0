-- ===== src/Service/Sensors/Creation.antt =====
-- Creating a sensor: the reply, the table, and the status.
use can_monitor.Service.State.{Reply, Response}
use can_monitor.Base.{◌↔◌, ◌≢◌, Option-cases, inl, inr, refl, sym}
use can_monitor.Base.{
  ℕ, zero, suc, ◌+◌, ◌%◌, ◌^◌, ◌<◌, Bytes, Option, none, some, true, codes, if◌then◌else◌, done,
  >>=-eq-done, ◌≡◌, ◌∙◌, ap, arith,
}
use can_monitor.Service.Connection.{Loop, next, stop}
use can_monitor.Service.Json.{Json, is_some}
use can_monitor.Service.Sensors.{
  Settings, no_settings, configured_unless_running, sensor_setting, sensor_settings, add_sensor,
  finish_sensor, create_sensors_configuration, has,
}
use can_monitor.Service.State.{State, create_error_message, succeed}
use can_monitor.Tables.Defs.{live, Table, put}
use can_monitor.Tables.Map.{Represents, with_key, put-Represents}
use can_monitor.Tables.Sensors.{Sensor, hts_get}
use mathlib.Core.Option

some_ne_none : {A : Type 0} {a : A} → some a ≢ none
some_ne_none e = cc

module _ (json : Json) where
  open json use {
    Object, Array, Value, json_parse_string, json_value_get_object, json_object_get_value,
    json_object_get_string, json_object_get_number, json_object_get_array, json_array_get_count,
    json_array_get_value, to_int,
  }

  wraps : (a left b : ℕ) → b ≡ (a + 1) % 2 ^ 8 → (b + left) % 2 ^ 8 ≡ (a + suc left) % 2 ^ 8
  wraps a left b e = omega (arith, e)

  -- A round that goes on has counted one setting.
  setting-flag :
      (v : Option Value) (s s' : Settings)
      → sensor_setting json v s ≡ done (next s')
      → s'.flag ≡ (s.flag + 1) % 2 ^ 8
  unfolding sensor_setting
  setting-flag v s s' h = ground arith

  -- When the loop over the settings of a sensor ends without an error, the flag, which has 8 bits,
  -- has grown by the number of rounds modulo 256, whichever keys the settings had.
  pub settings-flag :
      (left i : ℕ) (a : Option Array) (s s' : Settings)
      → s.flag < 2 ^ 8
      → sensor_settings json left i a s ≡ done (next s')
      → s'.flag ≡ (s.flag + left) % 2 ^ 8
  unfolding sensor_settings
  settings-flag zero i a s s' small h = ground arith
  settings-flag (suc left) i a s s' small h =
      let (r, first, rest) = >>=-eq-done (sensor_setting json (json_array_get_value a i) s) _ h in
      go_on (λ t. settings-flag left (i + 1) a t s') r first rest
    where
      go_on :
          ((t : Settings)
            → t.flag < 2 ^ 8
            → sensor_settings json left (i + 1) a t ≡ done (next s')
            → s'.flag ≡ (t.flag + left) % 2 ^ 8)
          → (r : Loop Settings) → sensor_setting json (json_array_get_value a i) s ≡ done r
          → (elim r [ next t ↦ sensor_settings json left (i + 1) a t | stop t ↦ done (stop t) ])
            ≡ done (next s')
          → s'.flag ≡ (s.flag + suc left) % 2 ^ 8
      go_on ih (next t) e e' =
          let counted = setting-flag (json_array_get_value a i) s t e in
          let small_t : t.flag < 2 ^ 8 = omega (arith, counted) in
          ih t small_t e' ∙ wraps s.flag left t.flag counted
      go_on ih (stop t) e e' = cc

  -- A request that can be read: the five keys, three texts, and three settings.
  pub record IsPayload (values id name type : Bytes) (s : Settings) : Type 0 where
    pub keys :
        let jobj = json_value_get_object (json_parse_string values) in
        (has json jobj (codes "sensor-id") ≡ true)
        × (has json jobj (codes "sensor-name") ≡ true)
        × (has json jobj (codes "sensor-type") ≡ true)
        × (has json jobj (codes "sampling-rate") ≡ true)
        × (has json jobj (codes "sensor-settings") ≡ true)
    pub texts :
        let jobj = json_value_get_object (json_parse_string values) in
        (json_object_get_string jobj (codes "sensor-id") ≡ some id)
        × (json_object_get_string jobj (codes "sensor-name") ≡ some name)
        × (json_object_get_string jobj (codes "sensor-type") ≡ some type)
    pub settings :
        let jobj = json_value_get_object (json_parse_string values) in
        let a = json_object_get_array jobj (codes "sensor-settings") in
        (json_array_get_count a ≡ 3)
        × (sensor_settings json 3 0 a (no_settings json) ≡ done (next s))

  -- The sensor that the request describes.
  abbrev pub described : Bytes → Bytes → Bytes → Bytes → Settings → Sensor
  described values id name type s =
      let jobj = json_value_get_object (json_parse_string values) in
      record {
        id = id;
        name = name;
        type = type;
        can_id = s.can_id;
        init_bit = s.init_bit;
        end_bit = s.end_bit;
        sampling_rate = to_int (json_object_get_number jobj (codes "sampling-rate"));
        value = codes "";
        timestamp = 0;
      }

  -- The document of an error message, as it goes out.
  abbrev pub error_text : Bytes → Bytes
  error_text message =
      json.json_serialize_to_string
        (json.json_object_set_string json.json_value_init_object (codes "message") message)

  module _ {values id name type : Bytes} {s : Settings} (p : IsPayload values id name type s) where
    flag_is_three : s.flag ≡ 3
    flag_is_three = settings-flag 3 0 _ (no_settings json) s (omega arith) p.settings.1

    create_from_payload :
        (st : State)
        → create_sensors_configuration json values st ≡ (
            if is_some (hts_get st.sensors_table id)
            then done (create_error_message json (codes "A sensor with that id already exists") st)
            else add_sensor json (described values id name type s) st)
    unfolding create_sensors_configuration
    create_from_payload st =
        let (k₁, k₂, k₃, k₄, k₅) = p.keys in
        let (t₁, t₂, t₃) = p.texts in
        rw
          (k₁, k₂, k₃, k₄, k₅, t₁, t₂, t₃, p.settings.0, p.settings.1, finish_sensor, flag_is_three)

    module _ (st : State) {t : Table Sensor} {f : Bytes → Option Sensor}
        (at : st.sensors_table ≡ some t) (r : Represents t f) where
      stored :
          (t' : Table Sensor)
          → put true (some t) id (described values id name type s) ≡ done (0, some t')
          → add_sensor json (described values id name type s) st
            ≡ done (succeed (configured_unless_running (record st { sensors_table = some t' })))
      unfolding add_sensor
      stored t' e = rw (at, e)

      -- When the table represents a map, a readable request with a new identifier is answered OK
      -- with an empty text; the table holds the described sensor besides those it held, and the
      -- status is configured unless it is running.
      pub create_sensors_configuration-new :
          f id ≡ none
          → (t' : Table Sensor) × (create_sensors_configuration json values st
              ≡ done (succeed (configured_unless_running (record st { sensors_table = some t' }))))
            × Represents t' (with_key f id (described values id name type s))
      create_sensors_configuration-new h =
          let absent : hts_get st.sensors_table id ≡ none =
            unfold hts_get in rw at (r.reads id ∙ ap (Option.map live) h) in
          let (t', e, r') = put-Represents r id (described values id name type s) h in
          (t', create_from_payload st ∙ rw absent (stored t' e), r')

      -- When the table represents a map, a readable request with an identifier that is taken is
      -- answered with an error message, and besides the ledger nothing changes.
      pub create_sensors_configuration-taken :
          (old : Sensor)
          → f id ≡ some old
          → create_sensors_configuration json values st
            ≡ done (create_error_message json (codes "A sensor with that id already exists") st)
      create_sensors_configuration-taken old h =
          let there : hts_get st.sensors_table id ≡ some (live old) =
            unfold hts_get in rw at (r.reads id ∙ ap (Option.map live) h) in
          create_from_payload st ∙ rw there

      -- When the table represents a map, a readable request is answered, and with OK exactly when
      -- its identifier is that of no sensor; when it is that of one, the answer is an error whose
      -- text is the document with the message that the identifier is taken, and besides the ledger
      -- nothing in the state has changed.
      pub create_sensors_configuration_iff :
          (r' : Reply) × (create_sensors_configuration json values st ≡ done r')
          × ((r'.response ≡ Response.ok) ↔ (f id ≡ none))
          × (f id ≢ none
              → (r'.response ≡ Response.error)
                × (r'.text ≡ error_text (codes "A sensor with that id already exists"))
                × (r'.state ≡ record st { overruns = r'.state.overruns }))
      unfolding create_error_message
      create_sensors_configuration_iff = elim (Option-cases (f id)) [
        | inl absent ↦
            let (t', e, _) = create_sensors_configuration-new absent in
            (_, e, ((λ h. absent), λ h. refl), λ taken. absurd (taken absent))
        | inr (old, there) ↦ (
          _,
          create_sensors_configuration-taken old there,
          ((λ h. cc), λ absent. absurd (some_ne_none (sym there ∙ absent))),
          λ taken. (refl, refl, refl),
        )
      ]
