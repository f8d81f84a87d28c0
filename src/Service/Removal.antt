-- ===== src/Service/Removal.antt =====
-- `delete_sensors_configuration` and `update_sensors_configuration` of
-- src/CanMonitor/implementation/sensor.c.
pub mod Members
pub mod Deletion
pub mod Several
pub mod Update
use can_monitor.Base.{
  ◌⊎◌, inl, inr, ℕ, zero, suc, ◌+◌, ◌-◌, List, [], ◌∷◌, Bytes, Option, none, some, Bool, true,
  false, codes, str_eq, ◌==◌, ltb, get_elem?, set, length, if◌then◌else◌, Outcome, done, fault,
  ◌>>=◌, ◌++◌,
}
use can_monitor.Service.Connection.{Loop, next, stop}
use can_monitor.Service.Json.{Json, is_some, deref}
use can_monitor.Service.Sensors.{QueryPair, create_sensors_configuration}
use can_monitor.Service.State.{State, Response, Reply, log_copy, create_error_message, succeed}
use can_monitor.Tables.Defs.{Slot, live, freed, Node, Table}
use can_monitor.Tables.Sensorgroups.{Sensorgroup}
use can_monitor.Tables.Sensors.{Sensor, hts_delete}

-- The search for `id` among the entries from `j` on, `left` of them; past the last, not found.
unfoldable pub index_of : Bytes → ℕ → ℕ → List Bytes → Outcome ℕ
index_of id zero j ids = done j
index_of id (suc left) j ids = elim (get_elem? ids j) [
  | none ↦ fault
  | some x ↦ elim (str_eq x id) [ true ↦ done j | false ↦ index_of id left (j + 1) ids ]
]

-- Entry `k` takes the text of entry `k + 1`, in `left` rounds.
unfoldable pub shift_left : ℕ → ℕ → List Bytes → Outcome (List Bytes)
shift_left zero k ids = done ids
shift_left (suc left) k ids = elim (get_elem? ids (k + 1)) [
  | none ↦ fault
  | some x ↦ shift_left left (k + 1) (set ids k x)
]

-- The first entry with the identifier leaves the group.
unfoldable pub leave_group : Bytes → Sensorgroup → Outcome Sensorgroup
unfolding index_of shift_left
leave_group id sg = index_of id sg.sensorcount 0 sg.sensor_list >>= λ j.
    if j == sg.sensorcount
    then done sg
    else (shift_left (sg.sensorcount - 1 - j) j sg.sensor_list >>= λ ids.
        done (record sg { sensor_list = ids; sensorcount = sg.sensorcount - 1 }))

unfoldable pub leave_chain : Bytes → List (Node Sensorgroup) → Outcome (List (Node Sensorgroup))
unfolding leave_group
leave_chain id [] = done []
leave_chain id (n ∷ ns) = elim n.slot [
  | freed ↦ fault
  | live sg ↦ leave_group id sg >>= λ sg'.
      leave_chain id ns >>= λ rest. done (record n { slot = live sg' } ∷ rest)
]

unfoldable pub leave_cells :
    Bytes → ℕ → List (List (Node Sensorgroup)) → Outcome (List (List (Node Sensorgroup)))
unfolding leave_chain
leave_cells id zero cs = done cs
leave_cells id (suc left) [] = fault
leave_cells id (suc left) (c ∷ cs) =
    leave_chain id c >>= λ c'. leave_cells id left cs >>= λ rest. done (c' ∷ rest)

-- The loops over the table of groups.
unfoldable pub leave_groups :
    Bytes → Option (Table Sensorgroup) → Outcome (Option (Table Sensorgroup))
unfolding leave_cells
leave_groups id none = fault
leave_groups id (some t) =
    leave_cells id t.size t.array >>= λ cells. done (some (record t { array = cells }))

module _ (json : Json) where
  -- The loop over the queries: the last identifier that was deleted, or the reply that ends it.
  -- The message is written to `char message[50]`.
  unfoldable pub delete_sensor_queries :
      List QueryPair → Option Bytes → State → (Option Bytes × State) ⊎ Reply
  unfolding hts_delete create_error_message
  delete_sensor_queries [] id st = inl (id, st)
  delete_sensor_queries (q ∷ qs) id st =
      let r = hts_delete st.sensors_table q.value in
      let st' = record st { sensors_table = r.1 } in
      let message = codes "There is no sensor with id " ++ q.value in
      let gone = delete_sensor_queries qs (some q.value) st' in
      let other = delete_sensor_queries qs id st in
      if str_eq q.name (codes "id")
      then if is_some r.0
        then gone
        else inr (create_error_message json message (log_copy 50 message st'))
      else other

  -- What follows the loop. The text is that of the request.
  unfoldable pub delete_from_groups : Bytes → (Option Bytes × State) ⊎ Reply → Outcome Reply
  unfolding leave_groups create_error_message
  delete_from_groups values (inr reply) = done reply
  delete_from_groups values (inl (none, st)) =
      done (create_error_message json (codes "There is no id query.") st)
  delete_from_groups values (inl (some id, st)) = leave_groups id st.sensorgroup_table >>= λ groups.
      done (record {
        response = Response.ok;
        text = values;
        state = record st { sensorgroup_table = groups };
      })

  unfoldable pub delete_sensors_configuration : Bytes → List QueryPair → State → Outcome Reply
  unfolding delete_sensor_queries delete_from_groups
  delete_sensors_configuration values queries st =
      delete_from_groups values (delete_sensor_queries queries none st)

  abbrev pub is_ok : Response → Bool
  is_ok Response.ok = true
  is_ok _ = false

  unfoldable pub update_sensors_configuration : Bytes → List QueryPair → State → Outcome Reply
  unfolding delete_sensors_configuration create_sensors_configuration
  update_sensors_configuration values queries st =
      delete_sensors_configuration values queries st >>= λ deleted.
      if is_ok deleted.response
      then (create_sensors_configuration json deleted.text deleted.state >>= λ created.
          done (if is_ok created.response then record created { text = codes "" } else created))
      else done deleted
