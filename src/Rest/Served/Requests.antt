-- ===== src/Rest/Served/Requests.antt =====
-- Whole requests, from the calls of the HTTP library to the state.
use can_monitor.Base.{
  suc, List, [], ◌∷◌, ◌++◌, flatten, Bytes, Option, none, some, true, false, codes, str_eq, ◌==◌,
  length, replicate, done, ◌>>=◌, ◌≡◌, ◌≢◌, ◌↔◌, ◌⊎◌, inl, inr, refl, ◌∙◌, ap, arith,
}
use can_monitor.Rest.Callbacks.{put_handler, post_handler}
use can_monitor.Rest.Info.{service_handlers}
use can_monitor.Rest.Metrics.{Usage}
use can_monitor.Rest.Server.{HttpReply, http_ok, conflict, plain, handle_request}
use can_monitor.Rest.Served.{program_handlers}
use can_monitor.Rest.Specific.{answer_post, answer_put}
use can_monitor.Rest.Upload.Assembly.{AllNonEmpty, run_calls-handle_request}
use can_monitor.Rest.Upload.{run_calls}
use can_monitor.Service.Command.Transitions.{
  Order, SameData, Executed, cmd_execute_configuration-Executed, cmd_execute_configuration_iff,
}
use can_monitor.Service.Command.{cmd_execute_configuration}
use can_monitor.Service.Json.{Json, is_some}
use can_monitor.Service.Sensors.Creation.{IsPayload, described, create_sensors_configuration-new}
use can_monitor.Service.Sensors.Status.{ConfiguredUnlessRunning, configured_unless_running-Status}
use can_monitor.Service.Sensors.{Settings, create_sensors_configuration}
use can_monitor.Service.State.{State, MsStatus, Reply, Response}
use can_monitor.Tables.Defs.{Table}
use can_monitor.Tables.Map.{Represents, with_key}
use can_monitor.Tables.Sensors.{Sensor}

abbrev pub sensors_url : Bytes
sensors_url = codes "/adms/v2/monitoring-agent/config/sensors"

abbrev pub command_url : Bytes
command_url = codes "/adms/v2/monitoring-agent/cmd-execute"

not_empty : (piece rest : Bytes) → piece ≢ [] → (length (piece ++ rest) == 0) ≡ false
not_empty [] rest h = absurd (h refl)
not_empty (c ∷ piece) rest h = ground arith

-- The calls for a request: one without data, one for each piece, and a last one.
abbrev pub calls : List Bytes → List Bytes
calls pieces = [] ∷ (pieces ++ ([] ∷ []))

-- Only the last of the calls sends a reply.
abbrev pub one_reply : List Bytes → HttpReply → List (Option HttpReply)
one_reply pieces reply = replicate (suc (length pieces)) none ++ (some reply ∷ [])

-- The code that a PUT is answered with, and the state.
answer_put-order :
    (json : Json) (st : State) (r : Reply)
    → Executed json st r
    → ((((answer_put r r.response).0.status ≡ http_ok) × Order st.status r.state.status)
        ⊎ (((answer_put r r.response).0.status ≡ conflict) × (r.state.status ≡ st.status)))
      × ((answer_put r r.response).1 ≡ r.state)
      × (((answer_put r r.response).0.status ≡ http_ok) ↔ (r.response ≡ Response.ok))
unfolding answer_put
answer_put-order json st r (inl (ok, order), same) =
    rw ok (inl (refl, order), refl, (λ e. refl, λ e. refl))
answer_put-order json st r (inr (error, still), same) =
    rw error (inr (refl, still), refl, (λ e. cc, λ e. cc))

module _ (json : Json) (address : Option Bytes) (usage : Usage json) where
  -- The dispatcher hands a POST for the sensors, and a PUT for a command, to the callback.
  post_sensors :
      (values : Bytes) (st : State)
      → (length values == 0) ≡ false
      → is_some (json.json_parse_string values) ≡ true
      → handle_request
          (program_handlers json address usage)
          sensors_url
          (codes "POST")
          []
          (some values)
          st
        ≡ (create_sensors_configuration json values st >>= λ r. done (answer_post r r.response))
  unfolding handle_request service_handlers post_handler str_eq
  post_sensors values st some_data parsed = rw (some_data, parsed) refl

  put_command :
      (values : Bytes) (st : State)
      → (length values == 0) ≡ false
      → is_some (json.json_parse_string values) ≡ true
      → handle_request
          (program_handlers json address usage)
          command_url
          (codes "PUT")
          []
          (some values)
          st
        ≡ (cmd_execute_configuration json values st >>= λ r. done (answer_put r r.response))
  unfolding handle_request service_handlers put_handler str_eq
  put_command values st some_data parsed = rw (some_data, parsed) refl

  module _ (piece : Bytes) (pieces : List Bytes) (all_data : AllNonEmpty (piece ∷ pieces))
      (parsed : is_some (json.json_parse_string (flatten (piece ∷ pieces))) ≡ true) where
    -- When the table of sensors represents a map, and the data of a POST to the URL of the
    -- sensors, in one or more pieces that are not empty, is JSON and a readable description of a
    -- sensor with a new identifier: of the calls that the HTTP library makes only the last sends a
    -- reply, the code OK without a text; the table then holds the described sensor besides those
    -- it held, a status that was running is kept and any other becomes configured, and nothing
    -- else has changed.
    pub run_calls-create :
        {id name type : Bytes} {s : Settings} (st : State) {t : Table Sensor}
        {f : Bytes → Option Sensor}
        → IsPayload json (flatten (piece ∷ pieces)) id name type s
        → st.sensors_table ≡ some t
        → Represents t f
        → f id ≡ none
        → (t' : Table Sensor) × (status : MsStatus) × (run_calls
              (program_handlers json address usage)
              sensors_url
              (codes "POST")
              []
              none
              (calls (piece ∷ pieces))
              st
            ≡ done (
              one_reply (piece ∷ pieces) (plain http_ok),
              none,
              record st { sensors_table = some t'; status = status },
            ))
          × ConfiguredUnlessRunning st.status status
          × Represents t' (with_key f id (described json (flatten (piece ∷ pieces)) id name type s))
    unfolding flatten answer_post
    run_calls-create st p at r absent =
        let (t', e, r') = create_sensors_configuration-new json p st at r absent in
        let (status, se, follows) =
          configured_unless_running-Status (record st { sensors_table = some t' }) in
        (
          t',
          status,
          run_calls-handle_request (program_handlers json address usage) sensors_url (codes "POST")
                [] (piece ∷ pieces) st all_data
              ∙ rw
                  (
                    post_sensors (flatten (piece ∷ pieces)) st
                        (not_empty piece (flatten pieces) all_data.0) parsed,
                    e,
                  )
                  (ap (λ (v : State). done (one_reply (piece ∷ pieces) (plain http_ok), none, v))
                    se),
          follows,
          r',
        )

    -- When the data of a PUT to the URL of the commands, in one or more pieces that are not empty,
    -- is JSON with a text as its order: only the last of the calls sends a reply; its code is OK
    -- and the status goes from configured to running or back, or its code is "conflict" and the
    -- status stays; it is OK exactly when the order is "start" in the status configured or "stop"
    -- in the status running; all other data but the ledger of overruns is as it was.
    pub run_calls-order :
        (cmd : Bytes) (st : State)
        → (let jobj =
              json.json_value_get_object (json.json_parse_string (flatten (piece ∷ pieces))) in
            (is_some (json.json_object_get_value jobj (codes "order")) ≡ true)
            × (json.json_object_get_string jobj (codes "order") ≡ some cmd))
        → (reply : HttpReply) × (st' : State) × (run_calls
              (program_handlers json address usage)
              command_url
              (codes "PUT")
              []
              none
              (calls (piece ∷ pieces))
              st
            ≡ done (one_reply (piece ∷ pieces) reply, none, st'))
          × (((reply.status ≡ http_ok) × Order st.status st'.status)
              ⊎ ((reply.status ≡ conflict) × (st'.status ≡ st.status)))
          × ((reply.status ≡ http_ok) ↔ (
              ((cmd ≡ codes "start") × (st.status ≡ MsStatus.configured))
              ⊎ ((cmd ≡ codes "stop") × (st.status ≡ MsStatus.running))))
          × SameData st st'
    unfolding flatten
    run_calls-order cmd st ordered =
        let values = flatten (piece ∷ pieces) in
        let (r, e, ok) = cmd_execute_configuration_iff json values cmd st ordered in
        let executed = cmd_execute_configuration-Executed json values st r e in
        let (code, same, good) = answer_put-order json st r executed in
        (
          (answer_put r r.response).0,
          r.state,
          run_calls-handle_request (program_handlers json address usage) command_url (codes "PUT")
                [] (piece ∷ pieces) st all_data
              ∙ rw (put_command values st (not_empty piece (flatten pieces) all_data.0) parsed, e)
                  (ap
                    (λ (v : State).
                      done (one_reply (piece ∷ pieces) (answer_put r r.response).0, none, v))
                    same),
          code,
          (λ h. ok.0 (good.0 h), λ h. good.1 (ok.1 h)),
          executed.1,
        )
