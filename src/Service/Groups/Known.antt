-- ===== src/Service/Groups/Known.antt =====
-- The members of a new group are sensors.
use can_monitor.Service.Groups.{
  minus_one, wrong, Place, Members, listed, make_way, store_member, finish_member, complete_member,
  known_member, group_member, place_settings, unplaced,
}
use mathlib.Core.Path.{subst}
use can_monitor.Base.{
  List, [], ◌∷◌, ◌++◌, Bytes, Option, none, some, true, ◌||◌, codes, str_eq_iff, str_eq_refl, ◌==◌,
  if◌then◌else◌, Bool-cases, Option-cases, Outcome, done, ◌>>=◌, >>=-eq-done, done-injective, ◌≡◌,
  ◌≢◌, inl, inr, refl, sym, ◌∙◌, ap, arith,
}
use can_monitor.Service.Connection.{Loop, next, stop}
use can_monitor.Service.Json.{Json, deref}
use can_monitor.Service.State.{State, log_copy}
use can_monitor.Tables.Defs.{live, Table}
use can_monitor.Tables.Map.{Represents, with_key, without_key, put-Represents, delete-Represents}
use can_monitor.Tables.Sensors.{Sensor, hts_get, hts_put}
use mathlib.Core.Option

-- A round has added one identifier, that of a sensor that is there now, and no sensor is gone.
pub record Added (f : Bytes → Option Sensor) (ids : List Bytes) (st : State)
    (m : List Bytes × State) : Type 0 where
  pub t : Table Sensor
  pub g : Bytes → Option Sensor
  pub id : Bytes
  pub at : m.1.sensors_table ≡ some t
  pub represents : Represents t g
  pub kept : (q : Bytes) → f q ≢ none → g q ≢ none
  pub there : g id ≢ none
  pub list : m.0 ≡ ids ++ (id ∷ [])
  pub groups : m.1.sensorgroup_table ≡ st.sensorgroup_table

-- The table without the sensor.
pub make_way-Represents :
    {t : Table Sensor} {f : Bytes → Option Sensor}
    → Represents t f
    → (id : Bytes)
    → (t' : Table Sensor) × (make_way (some t) id ≡ some t') × Represents t' (without_key f id)
unfolding make_way
make_way-Represents {t} {f} r id =
    let found : hts_get (some t) id ≡ Option.map live (f id) = unfold hts_get in r.reads id in
    elim (Option-cases (f id)) [
      | inl absent ↦ (
        t,
        rw (found, absent),
        record { valid = r.valid; reads = λ q. ground (arith, r.reads q, str_eq_iff id q) },
      )
      | inr (s, there) ↦
          let (t', e, r') = delete-Represents r id in (t', rw (found, there) (ap (λ p. p.1) e), r')
    ]

with_key-kept :
    (f : Bytes → Option Sensor) (id : Bytes) (s : Sensor) (q : Bytes)
    → f q ≢ none
    → with_key (without_key f id) id s q ≢ none
with_key-kept f id s q h = ground arith

abbrev pub going : List Bytes × State → Members
going m = inl m

pub inl_inj : {p m : List Bytes × State} → going p ≡ going m → p ≡ m
inl_inj e = cc

module _ (json : Json) where
  store_member-Added :
      (f : Bytes → Option Sensor) (ids : List Bytes) (st₀ st : State) (sens : Sensor)
      (t : Table Sensor)
      → Represents t (without_key f sens.id)
      → st.sensors_table ≡ some t
      → st.sensorgroup_table ≡ st₀.sensorgroup_table
      → (m : List Bytes × State) → store_member json sens ids st ≡ done (inl m)
      → Added f ids st₀ m
  unfolding store_member
  store_member-Added f ids st₀ st sens t r at same m h =
      let absent : without_key f sens.id sens.id ≡ none = rw (str_eq_refl sens.id) in
      let (t', e, r') = put-Represents r sens.id sens absent in
      let stored : hts_put true st.sensors_table sens.id sens ≡ done (0, some t') =
        unfold hts_put in rw at e in
      let made : Members = listed ids sens.id (record st { sensors_table = some t' }) in
      let run : store_member json sens ids st ≡ done made = rw stored in
      let pair : List Bytes × State =
        (ids ++ (sens.id ∷ []), log_copy 8 sens.id (record st { sensors_table = some t' })) in
      let same_m : going pair ≡ going m = done-injective (sym run ∙ h) in
      subst (Added f ids st₀) (inl_inj same_m) (record {
        t = t';
        g = with_key (without_key f sens.id) sens.id sens;
        id = sens.id;
        at = refl;
        represents = r';
        kept = with_key-kept f sens.id sens;
        there = λ bad. ground (arith, str_eq_refl sens.id);
        list = refl;
        groups = same;
      })

  finish_member-Added :
      (f : Bytes → Option Sensor) (object : Option (Json.Object json)) (ids : List Bytes)
      (id name type : Bytes) (st₀ st : State) (t : Table Sensor)
      → Represents t (without_key f id)
      → st.sensors_table ≡ some t
      → st.sensorgroup_table ≡ st₀.sensorgroup_table
      → (p : Loop Place) (m : List Bytes × State)
      → finish_member json object ids id name type st p ≡ done (inl m)
      → Added f ids st₀ m
  unfolding finish_member
  finish_member-Added f object ids id name type st₀ st t r at same (stop p) m h = cc
  finish_member-Added f object ids id name type st₀ st t r at same (next p) m h =
      let bad = p.can_id == minus_one || (p.init_bit == minus_one || p.end_bit == minus_one) in
      elim (Bool-cases bad) [
        | inl refuse ↦ cc (rw (refuse, finish_member) at h)
        | inr accept ↦
            store_member-Added f ids st₀ st _ t r at same m (rw (accept, finish_member) at h)
      ]

  -- The part of `complete_member` behind its texts.
  abbrev pub settled :
      Option (Json.Object json) → List Bytes → Bytes → Bytes → Bytes → State → Outcome Members
  settled object ids id name type st =
      let settings = json.json_object_get_array object (codes "sensor-settings") in
      if json.json_array_get_count settings == 3
      then (place_settings json 3 0 settings unplaced
          >>= finish_member json object ids id name type st)
      else done (inr (wrong json st))

  settled-Added :
      (f : Bytes → Option Sensor) (object : Option (Json.Object json)) (ids : List Bytes)
      (id name type : Bytes) (st₀ st : State) (t : Table Sensor)
      → Represents t (without_key f id)
      → st.sensors_table ≡ some t
      → st.sensorgroup_table ≡ st₀.sensorgroup_table
      → (m : List Bytes × State) → settled object ids id name type st ≡ done (inl m)
      → Added f ids st₀ m
  settled-Added f object ids id name type st₀ st t r at same m h =
      let settings = json.json_object_get_array object (codes "sensor-settings") in
      elim (Bool-cases (json.json_array_get_count settings == 3)) [
        | inl three ↦
            let (p, e₄, h₄) =
              >>=-eq-done (place_settings json 3 0 settings unplaced)
                (finish_member json object ids id name type st) (rw three at h) in
            finish_member-Added f object ids id name type st₀ st t r at same p m h₄
        | inr other ↦ cc (rw other at h)
      ]

  complete_member-Added :
      (f : Bytes → Option Sensor) (object : Option (Json.Object json)) (ids : List Bytes)
      (st : State) (t : Table Sensor)
      → Represents t f
      → st.sensors_table ≡ some t
      → (m : List Bytes × State) → complete_member json object ids st ≡ done (inl m)
      → Added f ids st m
  unfolding complete_member
  complete_member-Added f object ids st t r at m h =
      let (id, e₁, h₁) =
        >>=-eq-done (deref (json.json_object_get_string object (codes "sensor-id"))) _ h in
      let (t', cleared, r') = make_way-Represents r id in
      let (name, e₂, h₂) =
        >>=-eq-done (deref (json.json_object_get_string object (codes "sensor-name"))) _ h₁ in
      let (type, e₃, h₃) =
        >>=-eq-done (deref (json.json_object_get_string object (codes "sensor-type"))) _ h₂ in
      settled-Added f object ids id name type st
        (record st { sensors_table = make_way st.sensors_table id }) t' r' (rw at cleared) refl m h₃

  known_member-Added :
      (f : Bytes → Option Sensor) (object : Option (Json.Object json)) (ids : List Bytes)
      (st : State) (t : Table Sensor)
      → Represents t f
      → st.sensors_table ≡ some t
      → (m : List Bytes × State) → known_member json object ids st ≡ done (inl m)
      → Added f ids st m
  unfolding known_member
  known_member-Added f object ids st t r at m h =
      let (id, e₁, h₁) =
        >>=-eq-done (deref (json.json_object_get_string object (codes "sensor-id"))) _ h in
      let found : hts_get st.sensors_table id ≡ Option.map live (f id) =
        unfold hts_get in rw at (r.reads id) in
      elim (Option-cases (f id)) [
        | inl absent ↦ cc (rw (found, absent) at h₁)
        | inr (s, there) ↦
            let pair : List Bytes × State = (ids ++ (id ∷ []), log_copy 8 id st) in
            let same_m : going pair ≡ going m = done-injective (rw (found, there) at h₁) in
            subst (Added f ids st) (inl_inj same_m) (record {
              t = t;
              g = f;
              id = id;
              at = at;
              represents = r;
              kept = λ q k. k;
              there = λ e. cc;
              list = refl;
              groups = refl;
            })
      ]

  -- One round that goes on adds one identifier, of a sensor that is there then; no sensor goes.
  pub group_member-Added :
      (f : Bytes → Option Sensor) (v : Option (Json.Value json)) (ids : List Bytes) (st : State)
      (t : Table Sensor)
      → Represents t f
      → st.sensors_table ≡ some t
      → (m : List Bytes × State) → group_member json v ids st ≡ done (inl m)
      → Added f ids st m
  unfolding group_member
  group_member-Added f v ids st t r at m h =
      let object = json.json_value_get_object v in
      ground (
        arith,
        complete_member-Added f object ids st t r at m,
        known_member-Added f object ids st t r at m,
      )
