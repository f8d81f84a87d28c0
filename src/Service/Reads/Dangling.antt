-- ===== src/Service/Reads/Dangling.antt =====
-- What a deletion of several sensors does to the next reading of the groups.
use can_monitor.Base.{
  List, [], ◌∷◌, ◌++◌, Bytes, Option, none, some, false, Bool-cases, str_eq, str_eq_iff, Outcome,
  done, fault, ◌≡◌, ◌≢◌, inl, inr, refl, ap, arith,
}
use can_monitor.Service.Json.{Json}
use can_monitor.Service.Reads.Known.{read_sensorgroups_subscription_iff}
use can_monitor.Service.Reads.{read_sensorgroups_subscription}
use can_monitor.Service.Removal.Deletion.{
  AllKnown, IsRoomy, without_member, without_member-IsRoomy, members-without_member,
}
use can_monitor.Service.Removal.Members.{members, remove_first}
use can_monitor.Service.Removal.Several.{
  by_ids, without_keys, AllThere, delete_sensors_configuration-several,
}
use can_monitor.Service.Removal.{delete_sensors_configuration}
use can_monitor.Service.State.{State, Reply, Response}
use can_monitor.Tables.Defs.{Table}
use can_monitor.Tables.Map.{Represents, without_key}
use can_monitor.Tables.Sensorgroups.{Sensorgroup}
use can_monitor.Tables.Sensors.{Sensor}
use mathlib.Core.List.{Memᴰ}
use mathlib.Core.Option

-- A key that is absent stays absent.
without_keys-absent :
    (ids : List Bytes) (f : Bytes → Option Sensor) (x : Bytes)
    → f x ≡ none
    → without_keys f ids x ≡ none
without_keys-absent [] f x h = h
without_keys-absent (id ∷ ids) f x h = without_keys-absent ids (without_key f id) x (ground arith)

without_keys-gone :
    (ids : List Bytes) (f : Bytes → Option Sensor) (x : Bytes)
    → Memᴰ x ids
    → without_keys f ids x ≡ none
without_keys-gone [] f x m = elim m [ ]
without_keys-gone (id ∷ ids) f x (Memᴰ.head same) =
    without_keys-absent ids (without_key f id) x (ground (arith, str_eq_iff id x))
without_keys-gone (id ∷ ids) f x (Memᴰ.tail m) = without_keys-gone ids (without_key f id) x m

remove_first-keeps :
    (id x : Bytes) (xs : List Bytes) → x ≢ id → Memᴰ x xs → Memᴰ x (remove_first id xs)
unfolding remove_first
remove_first-keeps id x [] other m = elim m [ ]
remove_first-keeps id x (y ∷ ys) other (Memᴰ.head same) =
    let differs : str_eq y id ≡ false = ground (arith, str_eq_iff y id) in
    rw differs (Memᴰ.head same)
remove_first-keeps id x (y ∷ ys) other (Memᴰ.tail m) = elim (Bool-cases (str_eq y id)) [
  | inl gone ↦ rw gone m
  | inr stays ↦ rw stays (Memᴰ.tail (remove_first-keeps id x ys other m))
]

AllKnown-member :
    (f : Bytes → Option Sensor) (x : Bytes) (xs : List Bytes)
    → AllKnown f xs
    → Memᴰ x xs
    → f x ≢ none
AllKnown-member f x [] k m = elim m [ ]
AllKnown-member f x (y ∷ ys) k (Memᴰ.head same) = rw same k.0
AllKnown-member f x (y ∷ ys) k (Memᴰ.tail m) = AllKnown-member f x ys k.1 m

fault_unless {ℓ} : {A : Type ℓ} (o : Outcome A) → ((a : A) → o ≢ done a) → o ≡ fault
fault_unless (done a) h = absurd (h a refl)
fault_unless fault h = refl

Memᴰ-left {ℓ} : {A : Type ℓ} (x : A) (a b : List A) → Memᴰ x a → Memᴰ x (a ++ b)
Memᴰ-left x [] b m = elim m [ ]
Memᴰ-left x (y ∷ a) b (Memᴰ.head same) = Memᴰ.head same
Memᴰ-left x (y ∷ a) b (Memᴰ.tail m) = Memᴰ.tail (Memᴰ-left x a b m)

module _ (json : Json) where
  -- When the tables represent maps, every group's array has room for its members, and a deletion
  -- names several sensors that are there, one of which, not the last, is a member of a group: the
  -- deletion is answered OK, and reading the groups is undefined afterwards.
  pub read_sensorgroups_subscription-dangling :
      (values id x : Bytes) (ids : List Bytes) (st : State) {t : Table Sensor}
      {u : Table Sensorgroup} {f : Bytes → Option Sensor} {g : Bytes → Option Sensorgroup}
      (q : Bytes) (sg : Sensorgroup)
      → st.sensors_table ≡ some t
      → st.sensorgroup_table ≡ some u
      → Represents t f
      → Represents u g
      → ((q : Bytes) (sg : Sensorgroup) → g q ≡ some sg → IsRoomy sg)
      → AllThere f (ids ++ (id ∷ []))
      → g q ≡ some sg
      → Memᴰ x ids
      → x ≢ id
      → Memᴰ x (members sg)
      → (r : Reply) × (delete_sensors_configuration json values (by_ids (ids ++ (id ∷ []))) st
          ≡ done r)
        × (r.response ≡ Response.ok)
        × (read_sensorgroups_subscription json r.state ≡ fault)
  read_sensorgroups_subscription-dangling values id x ids st {f = f} {g = g} q sg at groups_at r r'
        room there listed among other within =
      let (t', u', e, rt, ru) =
        delete_sensors_configuration-several json values id ids st at groups_at r r' room there in
      let room' = without_member-IsRoomy id g room in
      let after = record st { sensors_table = some t'; sensorgroup_table = some u' } in
      let absent : without_keys f (ids ++ (id ∷ [])) x ≡ none =
        without_keys-gone (ids ++ (id ∷ [])) f x (Memᴰ-left x ids (id ∷ []) among) in
      let still : Memᴰ x (members (without_member id sg)) =
        rw ((members-without_member id sg (room q sg listed)).0)
          (remove_first-keeps id x (members sg) other within) in
      (
        _,
        e,
        refl,
        fault_unless (read_sensorgroups_subscription json after) λ reply returns.
            AllKnown-member _ x _
              ((read_sensorgroups_subscription_iff json rt after refl refl ru room').0
                (reply, returns) q (without_member id sg)
                (ap (Option.map (without_member id)) listed))
              still absent,
      )
