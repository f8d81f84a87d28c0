-- ===== src/Monitor/Publish.antt =====
-- The publishing of the groups in the loop of `main`, src/CanMonitor/CanMonitor.c.
pub mod Pass
pub mod Delivery
pub mod InPlace
use can_monitor.Base.{
  ℕ, zero, suc, ◌+◌, ◌-◌, ◌*◌, ◌/◌, ◌%◌, ◌^◌, List, [], ◌∷◌, ◌++◌, Bytes, Option, none, some, Bool,
  codes, leb, length, if◌then◌else◌, Outcome, done, fault, ◌>>=◌,
}
use can_monitor.Frame.Parse.{Overrun, overrun}
use can_monitor.Monitor.Mqtt.{Message, publish}
use can_monitor.Monitor.Payload.{base_topic, create_data_payload}
use can_monitor.Service.Json.{Json, deref}
use can_monitor.Service.State.{State}
use can_monitor.Tables.Defs.{Slot, live, freed, Node, Table}
use can_monitor.Tables.Sensorgroups.{Sensorgroup, Timeval}

-- Milliseconds, as a `uint64_t`.
abbrev pub milliseconds : Timeval → ℕ
milliseconds t = (t.tv_sec * 1000 + t.tv_usec / 1000) % 2 ^ 64

-- `current_ms - last_published_ms >= sg->publish_rate`, on `uint64_t`.
abbrev pub is_due : Timeval → Sensorgroup → Bool
is_due now sg =
    leb sg.publish_rate ((milliseconds now + 2 ^ 64 - milliseconds sg.last_publish_time) % 2 ^ 64)

-- The messages of a pass, and its writes past the end of a buffer.
pub record Sent : Type 0 where
  pub messages : List Message
  pub over : List Overrun

abbrev pub nothing_sent : Sent
nothing_sent = record { messages = []; over = [] }

abbrev pub also_sent : Sent → Sent → Sent
also_sent a b = record { messages = a.messages ++ b.messages; over = a.over ++ b.over }

-- `clock` is what `gettimeofday` says when the loop comes to the group of an identifier.
module _ (json : Json) (clock : Bytes → Timeval) (st : State) where
  -- One group. `char mqtt_data_topic[200]`.
  unfoldable pub publish_group : Sensorgroup → Outcome (Sensorgroup × Sent)
  unfolding create_data_payload
  publish_group sg =
      if is_due (clock sg.id) sg
      then (deref st.monitor_id >>= λ monitor_id.
          let topic = base_topic monitor_id ++ (codes "/" ++ sg.id) in
          create_data_payload json st.sensors_table sg >>= λ payload. done (
            record sg { last_publish_time = clock sg.id },
            record {
              messages = publish st topic payload ∷ [];
              over = overrun 200 (length topic + 1);
            },
          ))
      else done (sg, nothing_sent)

  unfoldable pub publish_chain : List (Node Sensorgroup) → Outcome (List (Node Sensorgroup) × Sent)
  unfolding publish_group
  publish_chain [] = done ([], nothing_sent)
  publish_chain (n ∷ ns) = elim n.slot [
    | freed ↦ fault
    | live sg ↦ publish_group sg >>= λ r. publish_chain ns >>= λ rest.
        done (record n { slot = live r.0 } ∷ rest.0, also_sent r.1 rest.1)
  ]

  unfoldable pub publish_cells :
      ℕ → List (List (Node Sensorgroup)) → Outcome (List (List (Node Sensorgroup)) × Sent)
  unfolding publish_chain
  publish_cells zero cs = done (cs, nothing_sent)
  publish_cells (suc left) [] = fault
  publish_cells (suc left) (c ∷ cs) = publish_chain c >>= λ r.
      publish_cells left cs >>= λ rest. done (r.0 ∷ rest.0, also_sent r.1 rest.1)

  -- The loops over the table of groups.
  unfoldable pub publish_table : Option (Table Sensorgroup) → Outcome (List Message × State)
  unfolding publish_cells
  publish_table none = fault
  publish_table (some t) = publish_cells t.size t.array >>= λ r. done (
    r.1.messages,
    record st {
      sensorgroup_table = some (record t { array = r.0 });
      overruns = r.1.over ++ st.overruns;
    },
  )

  unfoldable pub publish_groups : Outcome (List Message × State)
  unfolding publish_table
  publish_groups = publish_table st.sensorgroup_table
