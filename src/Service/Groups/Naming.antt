-- ===== src/Service/Groups/Naming.antt =====
-- A new group of sensors that are there, each named only.
use can_monitor.Base.{
  ℕ, ◌+◌, List, [], ◌∷◌, ◌++◌, Bytes, Option, none, some, true, false, codes, length, done, ◌≡◌,
  ◌≢◌, refl, sym, ◌∙◌, ap, some_of, inl,
}
use can_monitor.Frame.Parse.{Overrun}
use can_monitor.Service.Groups.{
  listed, group_member, group_members, known_member, finish_group, create_sensorgroups_subscription,
  has,
}
use can_monitor.Service.Json.{Json}
use can_monitor.Service.Removal.Deletion.{AllKnown}
use can_monitor.Service.Sensors.Status.{ConfiguredUnlessRunning, configured_unless_running-Status}
use can_monitor.Service.State.{State, MsStatus, log_copy, succeed}
use can_monitor.Tables.Defs.{live, Table}
use can_monitor.Tables.Map.{Represents, with_key, put-Represents}
use can_monitor.Tables.Sensorgroups.{Sensorgroup, htsg_get, htsg_put}
use can_monitor.Tables.Sensors.{Sensor, hts_get}
use mathlib.Core.List.{append-nil, append_assoc}
use mathlib.Core.Option

module _ (json : Json) where
  open json use {
    Object, Array, Value, json_parse_string, json_value_get_object, json_object_get_string,
    json_object_get_number, json_object_get_array, json_array_get_count, json_array_get_value,
    to_int,
  }

  -- The value has an identifier, and none of the other keys of a sensor.
  pub record Names (v : Option Value) (id : Bytes) : Type 0 where
    pub named : has json (json_value_get_object v) (codes "sensor-id") ≡ true
    pub nameless : has json (json_value_get_object v) (codes "sensor-name") ≡ false
    pub typeless : has json (json_value_get_object v) (codes "sensor-type") ≡ false
    pub unset : has json (json_value_get_object v) (codes "sensor-settings") ≡ false
    pub rateless : has json (json_value_get_object v) (codes "sampling-rate") ≡ false
    pub text : json_object_get_string (json_value_get_object v) (codes "sensor-id") ≡ some id

  -- From entry `i` on, the array names the sensors of a list.
  abbrev pub AllNamed : Option Array → ℕ → List Bytes → Type 0
  AllNamed a i [] = Unit
  AllNamed a i (id ∷ ids) = Names (json_array_get_value a i) id × AllNamed a (i + 1) ids

  -- The group that the request describes.
  abbrev pub described_group : Bytes → Bytes → List Bytes → Sensorgroup
  described_group values id ids = record {
    id = id;
    publish_rate = to_int (
        json_object_get_number (json_value_get_object (json_parse_string values))
          (codes "publish-rate"));
    sensorcount = length ids;
    sensor_list = ids;
    last_publish_time = record { tv_sec = 0; tv_usec = 0 };
  }

  module _ {t : Table Sensor} {f : Bytes → Option Sensor} (r : Represents t f) where
    known_member-listed :
        (v : Option Value) (id : Bytes) (ids : List Bytes) (st : State)
        → st.sensors_table ≡ some t
        → Names v id
        → f id ≢ none
        → group_member json v ids st ≡ done (listed ids id st)
    unfolding group_member known_member
    known_member-listed v id ids st at n there =
        let (s, found) = some_of (f id) there in
        let stored : hts_get st.sensors_table id ≡ some (live s) =
          unfold hts_get in rw at (r.reads id ∙ ap (Option.map live) found) in
        rw (n.named, n.nameless, n.typeless, n.unset, n.rateless, n.text, stored) refl

    group_members-named :
        (a : Option Array) (ids : List Bytes) (i : ℕ) (before : List Bytes) (st : State)
        → st.sensors_table ≡ some t
        → AllNamed a i ids
        → AllKnown f ids
        → (over : List Overrun) × (group_members json (length ids) i a before st
            ≡ done (inl (before ++ ids, record st { overruns = over })))
    unfolding group_members
    group_members-named a [] i before st at n k =
        (st.overruns, ap (λ (l : List Bytes). done (inl (l, st))) (sym (append-nil before)))
    group_members-named a (id ∷ ids) i before st at n k =
        let (over, e) =
          group_members-named a ids (i + 1) (before ++ (id ∷ [])) (log_copy 8 id st) at n.1 k.1 in
        (
          over,
          rw (known_member-listed (json_array_get_value a i) id before st at n.0 k.0) (
              e
              ∙ ap (λ (l : List Bytes). done (inl (l, record st { overruns = over })))
                  (append_assoc before (id ∷ []) ids)),
        )

    -- When the tables represent maps, and a request carries the three keys of a group, an
    -- identifier that no group has, and a list of values that name sensors that are there and have
    -- no other key of a sensor: it is answered OK with an empty text, the table of groups holds
    -- the described group, with these sensors in their order, besides those it held, a status that
    -- was running is kept and any other becomes configured, and nothing else but the ledger of
    -- overruns has changed.
    pub create_sensorgroups_subscription-named :
        (values id : Bytes) (ids : List Bytes) (st : State) {u : Table Sensorgroup}
        {g : Bytes → Option Sensorgroup}
        → st.sensors_table ≡ some t
        → st.sensorgroup_table ≡ some u
        → Represents u g
        → (let jobj = json_value_get_object (json_parse_string values) in
            (has json jobj (codes "sensorgroup-id") ≡ true)
            × (has json jobj (codes "publish-rate") ≡ true)
            × (has json jobj (codes "sensor-list") ≡ true)
            × (json_object_get_string jobj (codes "sensorgroup-id") ≡ some id))
        → (let a =
              json_object_get_array
                (json_value_get_object (json_parse_string values))
                (codes "sensor-list") in
            (json_array_get_count a ≡ length ids) × AllNamed a 0 ids)
        → AllKnown f ids
        → g id ≡ none
        → (u' : Table Sensorgroup) × (over : List Overrun) × (status : MsStatus)
          × (create_sensorgroups_subscription json values st
              ≡ done (
                  succeed
                    (record st { sensorgroup_table = some u'; overruns = over; status = status })))
          × ConfiguredUnlessRunning st.status status
          × Represents u' (with_key g id (described_group values id ids))
    unfolding create_sensorgroups_subscription finish_group
    create_sensorgroups_subscription-named values id ids st at groups_at ru keys list known absent =
        let (k₁, k₂, k₃, text) = keys in
        let free : htsg_get st.sensorgroup_table id ≡ none =
          unfold htsg_get in rw groups_at (ru.reads id ∙ ap (Option.map live) absent) in
        let (over, e) = group_members-named _ ids 0 [] st at list.1 known in
        let (u', e', ru') = put-Represents ru id (described_group values id ids) absent in
        let stored : htsg_put true st.sensorgroup_table id (described_group values id ids)
            ≡ done (0, some u') =
          unfold htsg_put in rw groups_at e' in
        let (status, se, follows) =
          configured_unless_running-Status
            (record st { sensorgroup_table = some u'; overruns = over }) in
        (
          u',
          over,
          status,
          rw (k₁, k₂, k₃, text, free, list.0, e, stored) (ap (λ v. done (succeed v)) se),
          follows,
          ru',
        )
