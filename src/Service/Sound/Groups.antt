-- ===== src/Service/Sound/Groups.antt =====
-- The handlers of the groups keep the invariant.
use can_monitor.Base.{
  Safe-weaken, ℕ, zero, suc, ◌+◌, ◌==◌, ◌&&◌, ◌||◌, not, List, [], ◌∷◌, length, length-append,
  Bytes, Option, none, some, codes, str_eq_refl, done, Safe, Safe-done, Safe-bind, Safe-any,
  Safe-if, ◌≡◌, inl, inr, refl, sym, ◌∙◌, ap, arith,
}
use can_monitor.Service.Connection.{Loop, next, stop}
use can_monitor.Service.Groups.Known.{make_way-Represents}
use can_monitor.Service.Groups.{
  Members, Place, minus_one, unplaced, make_way, forget, listed, place_settings, store_member,
  finish_member, complete_member, known_member, group_member, group_members, finish_group,
  create_sensorgroups_subscription, has,
}
use can_monitor.Service.Json.{Json, is_some}
use can_monitor.Service.Sound.Sensors.{
  IsSoundReply, configured-IsSound, refused, nothing_of, text_at,
}
use can_monitor.Service.Sound.{
  HasSensors, HasGroups, IsSound, hts_put-HasSensors, hts_delete-HasSensors, htsg_put-HasGroups,
}
use can_monitor.Service.State.{State, create_error_message}
use can_monitor.Tables.Defs.{Table}
use can_monitor.Tables.Map.{without_key}
use can_monitor.Tables.Sensorgroups.{htsg_get}
use can_monitor.Tables.Sensors.{Sensor, hts_get}
use mathlib.Core.Path.{subst}

-- Sensors may have come or gone; the groups are as they were.
pub record Kept (st st' : State) : Type 0 where
  pub sensors : HasSensors st'.sensors_table
  pub groups : st'.sensorgroup_table ≡ st.sensorgroup_table

-- What rounds of the loop over the members come to: so many identifiers more, or a reply.
abbrev pub Adds : State → List Bytes → ℕ → Members → Type 0
Adds st ids n (inl (ids', st')) = Kept st st' × (length ids' ≡ length ids + n)
Adds st ids n (inr reply) = Kept st reply.state

Adds-suc :
    (st st' : State) (ids' ids : List Bytes) (n : ℕ)
    → st'.sensorgroup_table ≡ st.sensorgroup_table
    → length ids' ≡ length ids + 1
    → (r : Members) → Adds st' ids' n r
    → Adds st ids (suc n) r
Adds-suc st st' ids' ids n e size (inl m) (k, size') =
    (record { sensors = k.sensors; groups = k.groups ∙ e }, omega (arith, size, size'))
Adds-suc st st' ids' ids n e size (inr reply) k = record {
  sensors = k.sensors;
  groups = k.groups ∙ e;
}

make_way-HasSensors :
    {o : Option (Table Sensor)}
    → HasSensors o
    → (id : Bytes) → HasSensors (make_way o id) × (hts_get (make_way o id) id ≡ none)
make_way-HasSensors {o} h id =
    let (t', e, r) = make_way-Represents h.represents id in
    let made : make_way o id ≡ some t' = rw (h.at) e in
    (
      record { t = t'; f = without_key h.f id; at = made; represents = r },
      rw made (unfold hts_get in r.reads id ∙ rw (str_eq_refl id) refl),
    )

forget-HasSensors :
    (ids : List Bytes) {o : Option (Table Sensor)} → HasSensors o → HasSensors (forget ids o)
unfolding forget
forget-HasSensors [] h = h
forget-HasSensors (id ∷ ids) h = forget-HasSensors ids (hts_delete-HasSensors h id)

module _ (json : Json) where
  error-Kept :
      {st st' : State} → Kept st st' → (m : Bytes) → Kept st (create_error_message json m st').state
  unfolding create_error_message
  error-Kept k m = record { sensors = k.sensors; groups = k.groups }

  module _ (ids : List Bytes) {st : State} where
    refused-Adds :
        {st' : State}
        → Kept st st'
        → (m : Bytes) → Safe (Adds st ids 1) (done (inr (create_error_message json m st')))
    refused-Adds k m = Safe-done (error-Kept k m)

    listed-Adds :
        {st' : State} → Kept st st' → (id : Bytes) → Safe (Adds st ids 1) (done (listed ids id st'))
    listed-Adds k id =
        Safe-done (record { sensors = k.sensors; groups = k.groups }, length-append ids (id ∷ []))

    store_member-Adds :
        {st' : State}
        → Kept st st'
        → (sens : Sensor) → hts_get st'.sensors_table sens.id ≡ none
        → Safe (Adds st ids 1) (store_member json sens ids st')
    unfolding store_member
    store_member-Adds {st'} k sens absent =
        Safe-bind _ _ (hts_put-HasSensors k.sensors sens.id sens absent) λ r h.
          listed-Adds {st' = record st' { sensors_table = r.1 }}
            (record { sensors = h; groups = k.groups }) sens.id

    finish_member-Adds :
        {st' : State}
        → Kept st st'
        → (object : Option (Json.Object json)) (id name type : Bytes)
        → hts_get st'.sensors_table id ≡ none
        → (l : Loop Place) → Safe (Adds st ids 1) (finish_member json object ids id name type st' l)
    unfolding finish_member
    finish_member-Adds k object id name type absent (stop p) = refused-Adds k _
    finish_member-Adds {st'} k object id name type absent (next p) =
        Safe-if (p.can_id == minus_one || (p.init_bit == minus_one || p.end_bit == minus_one))
          (λ _.
            refused-Adds {st' = record st' { sensors_table = forget ids st'.sensors_table }}
              (record { sensors = forget-HasSensors ids k.sensors; groups = k.groups }) _)
          λ _. store_member-Adds k _ absent

    complete_member-Adds :
        Kept st st
        → (object : Option (Json.Object json))
        → Safe (Adds st ids 1) (complete_member json object ids st)
    unfolding complete_member
    complete_member-Adds k object =
        let settings = json.json_object_get_array object (codes "sensor-settings") in
        Safe-any (text_at json object (codes "sensor-id")) _ λ id.
          let (h, absent) = make_way-HasSensors k.sensors id in
          let cleared = record st { sensors_table = make_way st.sensors_table id } in
          let k' : Kept st cleared = record { sensors = h; groups = k.groups } in
          Safe-any (text_at json object (codes "sensor-name")) _ λ name.
            Safe-any (text_at json object (codes "sensor-type")) _ λ type.
              Safe-if (json.json_array_get_count settings == 3)
                (λ _.
                  Safe-any (place_settings json 3 0 settings unplaced) _
                    (finish_member-Adds {st' = cleared} k' object id name type absent))
                λ _. refused-Adds {st' = cleared} k' _

    known_member-Adds :
        Kept st st
        → (object : Option (Json.Object json))
        → Safe (Adds st ids 1) (known_member json object ids st)
    unfolding known_member
    known_member-Adds k object = Safe-any (text_at json object (codes "sensor-id")) _ λ id.
        Safe-if (is_some (hts_get st.sensors_table id)) (λ _. listed-Adds {st' = st} k id)
          λ _. refused-Adds {st' = st} k _

    group_member-Adds :
        Kept st st
        → (v : Option (Json.Value json)) → Safe (Adds st ids 1) (group_member json v ids st)
    unfolding group_member
    group_member-Adds k v =
        let object = json.json_value_get_object v in
        Safe-if
          (has json object (codes "sensor-id")
            && (has json object (codes "sensor-name")
                && (has json object (codes "sensor-type")
                    && (has json object (codes "sensor-settings")
                        && has json object (codes "sampling-rate")))))
          (λ _. complete_member-Adds k object)
          λ _.
            Safe-if
              (has json object (codes "sensor-id")
                && (not (has json object (codes "sensor-name"))
                    && (not (has json object (codes "sensor-type"))
                        && (not (has json object (codes "sensor-settings"))
                            && not (has json object (codes "sampling-rate"))))))
              (λ _. known_member-Adds k object) λ _. refused-Adds {st' = st} k _

  group_members-Adds :
      (left i : ℕ) (a : Option (Json.Array json)) (ids : List Bytes) {st : State}
      → Kept st st
      → Safe (Adds st ids left) (group_members json left i a ids st)
  unfolding group_members
  group_members-Adds zero i a ids k = Safe-done (k, omega arith)
  group_members-Adds (suc left) i a ids {st} k =
      Safe-bind (group_member json (json.json_array_get_value a i) ids st) _
        (group_member-Adds ids k (json.json_array_get_value a i))
        (go_on λ ids' st' k'. group_members-Adds left (i + 1) a ids' k')
    where
      go_on :
          ((ids' : List Bytes) (st' : State)
            → Kept st' st'
            → Safe (Adds st' ids' left) (group_members json left (i + 1) a ids' st'))
          → (r : Members) → Adds st ids 1 r
          → Safe (Adds st ids (suc left)) (elim r [
            | inl m ↦ group_members json left (i + 1) a m.0 m.1
            | inr reply ↦ done (inr reply)
          ])
      go_on ih (inr reply) k = Safe-done k
      go_on ih (inl (ids', st')) (k, n) =
          Safe-weaken _ (ih ids' st' (record { sensors = k.sensors; groups = refl }))
            (Adds-suc st st' ids' ids left k.groups n)

  finish_group-IsSound :
      {st : State}
      → IsSound st
      → (jobj : Option (Json.Object json)) (id : Bytes) (count : ℕ)
      → htsg_get st.sensorgroup_table id ≡ none
      → (m : Members) → Adds st [] count m
      → Safe IsSoundReply (finish_group json jobj id count m)
  unfolding finish_group
  finish_group-IsSound s jobj id count absent (inr reply) k =
      Safe-done (record { sensors = k.sensors; groups = subst HasGroups (sym k.groups) s.groups })
  finish_group-IsSound s jobj id count absent (inl (ids, st')) (k, n) =
      Safe-bind _ _
        (htsg_put-HasGroups (subst HasGroups (sym k.groups) s.groups) id _ (omega (arith, n))
          (ap (λ o. htsg_get o id) k.groups ∙ absent))
        λ r h. Safe-done (
          configured-IsSound (record st' { sensorgroup_table = r.1 })
            (record { sensors = k.sensors; groups = h }))

  pub create_sensorgroups_subscription-IsSound :
      {st : State}
      → IsSound st
      → (values : Bytes) → Safe IsSoundReply (create_sensorgroups_subscription json values st)
  unfolding create_sensorgroups_subscription
  create_sensorgroups_subscription-IsSound {st} s values =
      let jobj = json.json_value_get_object (json.json_parse_string values) in
      let a = json.json_object_get_array jobj (codes "sensor-list") in
      let count = json.json_array_get_count a in
      Safe-if
        (has json jobj (codes "sensorgroup-id")
          && (has json jobj (codes "publish-rate") && has json jobj (codes "sensor-list")))
        (λ _. Safe-any (text_at json jobj (codes "sensorgroup-id")) _ λ id.
          Safe-if (is_some (htsg_get st.sensorgroup_table id)) (λ _. refused json s _)
            λ absent.
              Safe-bind (group_members json count 0 a [] st) _
                (group_members-Adds count 0 a [] (record { sensors = s.sensors; groups = refl }))
                (finish_group-IsSound s jobj id count (nothing_of _ absent)))
        λ _. refused json s _
