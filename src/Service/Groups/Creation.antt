-- ===== src/Service/Groups/Creation.antt =====
-- Creating a group: the two tables afterwards.
use can_monitor.Service.State.{create_error_message, State, Response, Reply}
use can_monitor.Service.Connection.{Loop, next, stop}
use can_monitor.Service.Groups.Known.{settled, inl_inj, group_member-Added}
use can_monitor.Service.Groups.{
  wrong, finish_member, known_member, Place, place_settings, unplaced, make_way, Members,
  group_member, group_members, complete_member,
}
use can_monitor.Base.{
  ℕ, zero, suc, ◌+◌, List, [], ◌∷◌, ◌++◌, Bytes, Option, none, some, codes, ◌==◌, length,
  length-append, Bool-cases, Outcome, done, >>=-eq-done, done-injective, ◌≡◌, ◌≢◌, inl, inr, refl,
  ◌∙◌, ap, arith,
}
use can_monitor.Service.Json.{Json, deref}
use can_monitor.Service.Removal.Deletion.{AllKnown}
use can_monitor.Tables.Defs.{Table}
use can_monitor.Tables.Map.{Represents}
use can_monitor.Tables.Sensors.{Sensor}
use mathlib.Core.Path.{subst}

-- The list that the loop leaves behind: so many more entries, all of them sensors that are there.
pub record Filled (f : Bytes → Option Sensor) (ids : List Bytes) (n : ℕ) (st : State)
    (m : List Bytes × State) : Type 0 where
  pub t : Table Sensor
  pub g : Bytes → Option Sensor
  pub at : m.1.sensors_table ≡ some t
  pub represents : Represents t g
  pub kept : (q : Bytes) → f q ≢ none → g q ≢ none
  pub known : AllKnown g m.0
  pub size : length m.0 ≡ length ids + n
  pub groups : m.1.sensorgroup_table ≡ st.sensorgroup_table

AllKnown-kept :
    (f g : Bytes → Option Sensor)
    → ((q : Bytes) → f q ≢ none → g q ≢ none)
    → (xs : List Bytes) → AllKnown f xs
    → AllKnown g xs
AllKnown-kept f g k [] h = tt
AllKnown-kept f g k (x ∷ xs) h = (k x h.0, AllKnown-kept f g k xs h.1)

AllKnown-append :
    (f : Bytes → Option Sensor) (xs : List Bytes) (x : Bytes)
    → AllKnown f xs
    → f x ≢ none
    → AllKnown f (xs ++ (x ∷ []))
AllKnown-append f [] x h k = (k, tt)
AllKnown-append f (y ∷ xs) x h k = (h.0, AllKnown-append f xs x h.1 k)

module _ (json : Json) where
  pub group_members-Filled :
      (left i : ℕ) (a : Option (Json.Array json)) (f : Bytes → Option Sensor) (ids : List Bytes)
      (st : State) (t : Table Sensor)
      → Represents t f
      → st.sensors_table ≡ some t
      → AllKnown f ids
      → (m : List Bytes × State) → group_members json left i a ids st ≡ done (inl m)
      → Filled f ids left st m
  unfolding group_members
  group_members-Filled zero i a f ids st t r at k m h =
      subst (Filled f ids 0 st) (inl_inj (done-injective h)) (record {
        t = t;
        g = f;
        at = at;
        represents = r;
        kept = λ q e. e;
        known = k;
        size = omega arith;
        groups = refl;
      })
  group_members-Filled (suc left) i a f ids st t r at k m h =
      let (round, first, rest) =
        >>=-eq-done (group_member json (json.json_array_get_value a i) ids st) _ h in
      go_on (λ f' m' t' r' at' k'. group_members-Filled left (i + 1) a f' m'.0 m'.1 t' r' at' k' m)
        round first rest
    where
      go_on :
          ((f' : Bytes → Option Sensor) (m' : List Bytes × State) (t' : Table Sensor)
            → Represents t' f'
            → m'.1.sensors_table ≡ some t'
            → AllKnown f' m'.0
            → group_members json left (i + 1) a m'.0 m'.1 ≡ done (inl m)
            → Filled f' m'.0 left m'.1 m)
          → (round : Members)
          → group_member json (json.json_array_get_value a i) ids st ≡ done round
          → (elim round [
            | inl m' ↦ group_members json left (i + 1) a m'.0 m'.1
            | inr reply ↦ done (inr reply)
          ])
            ≡ done (inl m)
          → Filled f ids (suc left) st m
      go_on ih (inl m') e e' =
          let s = group_member-Added json f (json.json_array_get_value a i) ids st t r at m' e in
          let before = AllKnown-kept f s.g s.kept ids k in
          let now : AllKnown s.g m'.0 = rw (s.list) (AllKnown-append s.g ids s.id before s.there) in
          let w = ih s.g m' s.t s.represents s.at now e' in
          record {
            t = w.t;
            g = w.g;
            at = w.at;
            represents = w.represents;
            kept = λ q here. w.kept q (s.kept q here);
            known = w.known;
            size = omega (arith, w.size, ap length s.list, length-append ids (s.id ∷ []));
            groups = w.groups ∙ s.groups;
          }
      go_on ih (inr reply) e e' = cc

  abbrev refusal : Reply → Outcome Members
  refusal reply = done (inr reply)

  wrong-error :
      (st : State) (reply : Reply)
      → refusal (wrong json st) ≡ refusal reply
      → reply.response ≡ Response.error
  unfolding create_error_message
  wrong-error st reply e = ground arith

  finish_member-error :
      (object : Option (Json.Object json)) (ids : List Bytes) (id name type : Bytes) (st : State)
      (p : Loop Place) (reply : Reply)
      → finish_member json object ids id name type st p ≡ done (inr reply)
      → reply.response ≡ Response.error
  unfolding finish_member
  finish_member-error object ids id name type st (stop p) reply h = ground arith
  finish_member-error object ids id name type st (next p) reply h = ground arith

  settled-error :
      (object : Option (Json.Object json)) (ids : List Bytes) (id name type : Bytes) (st : State)
      (reply : Reply)
      → settled json object ids id name type st ≡ done (inr reply)
      → reply.response ≡ Response.error
  settled-error object ids id name type st reply h =
      let settings = json.json_object_get_array object (codes "sensor-settings") in
      elim (Bool-cases (json.json_array_get_count settings == 3)) [
        | inl three ↦
            let (p, e, h') =
              >>=-eq-done (place_settings json 3 0 settings unplaced)
                (finish_member json object ids id name type st) (rw three at h) in
            finish_member-error object ids id name type st p reply h'
        | inr other ↦ wrong-error st reply (rw other at h)
      ]

  complete_member-error :
      (object : Option (Json.Object json)) (ids : List Bytes) (st : State) (reply : Reply)
      → complete_member json object ids st ≡ done (inr reply)
      → reply.response ≡ Response.error
  unfolding complete_member
  complete_member-error object ids st reply h =
      let (id, e₁, h₁) =
        >>=-eq-done (deref (json.json_object_get_string object (codes "sensor-id"))) _ h in
      let (name, e₂, h₂) =
        >>=-eq-done (deref (json.json_object_get_string object (codes "sensor-name"))) _ h₁ in
      let (type, e₃, h₃) =
        >>=-eq-done (deref (json.json_object_get_string object (codes "sensor-type"))) _ h₂ in
      settled-error object ids id name type
        (record st { sensors_table = make_way st.sensors_table id }) reply h₃

  known_member-error :
      (object : Option (Json.Object json)) (ids : List Bytes) (st : State) (reply : Reply)
      → known_member json object ids st ≡ done (inr reply)
      → reply.response ≡ Response.error
  unfolding known_member
  known_member-error object ids st reply h = ground arith

  group_member-error :
      (v : Option (Json.Value json)) (ids : List Bytes) (st : State) (reply : Reply)
      → group_member json v ids st ≡ done (inr reply)
      → reply.response ≡ Response.error
  unfolding group_member
  group_member-error v ids st reply h =
      let object = json.json_value_get_object v in
      ground
        (arith, complete_member-error object ids st reply, known_member-error object ids st reply)

  pub group_members-error :
      (left i : ℕ) (a : Option (Json.Array json)) (ids : List Bytes) (st : State) (reply : Reply)
      → group_members json left i a ids st ≡ done (inr reply)
      → reply.response ≡ Response.error
  unfolding group_members
  group_members-error zero i a ids st reply h = ground arith
  group_members-error (suc left) i a ids st reply h =
      let (round, first, rest) =
        >>=-eq-done (group_member json (json.json_array_get_value a i) ids st) _ h in
      go_on (λ m. group_members-error left (i + 1) a m.0 m.1 reply) round first rest
    where
      go_on :
          ((m : List Bytes × State)
            → group_members json left (i + 1) a m.0 m.1 ≡ done (inr reply)
            → reply.response ≡ Response.error)
          → (round : Members)
          → group_member json (json.json_array_get_value a i) ids st ≡ done round
          → (elim round [
            | inl m ↦ group_members json left (i + 1) a m.0 m.1
            | inr other ↦ done (inr other)
          ])
            ≡ done (inr reply)
          → reply.response ≡ Response.error
      go_on ih (inl m) e e' = ih m e'
      go_on ih (inr other) e e' =
          group_member-error (json.json_array_get_value a i) ids st reply (e ∙ e')
