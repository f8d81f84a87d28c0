-- ===== src/Rest/Specific.antt =====
-- The handlers that src/CanMonitor/common/adeptnessSvc.c registers, and the one for everything
-- below "/adms/v2/", which calls the callbacks of the service.
use can_monitor.Base.{
  ◌+◌, ℕ, List, [], Bytes, Option, none, some, true, false, codes, ◌==◌, length, if◌then◌else◌,
  Outcome, done, ◌>>=◌,
}
use can_monitor.Rest.Server.{
  HttpStatus, http_ok, bad_request, not_found, method_not_allowed, conflict, internal_server_error,
  HttpReply, plain, Handler, register_handler, method_get, method_post, method_put, method_delete,
}
use can_monitor.Service.Json.{Json, is_some}
use can_monitor.Service.Sensors.{QueryPair}
use can_monitor.Service.State.{State, MsStatus, Response, Reply}

-- `adeptness_callbacks`: the rest of the URL, the text of the request, the queries.
pub record Callbacks : Type 0 where
  pub gethandler : Bytes → List QueryPair → State → Outcome Reply
  pub puthandler : Bytes → Bytes → List QueryPair → State → Outcome Reply
  pub posthandler : Bytes → Bytes → List QueryPair → State → Outcome Reply
  pub deletehandler : Bytes → List QueryPair → State → Outcome Reply

-- A reply of a callback that is sent with its text, as JSON.
abbrev pub with_text : HttpStatus → Reply → HttpReply × State
with_text status r = (record { status = status; body = some r.text; json = true }, r.state)

abbrev pub without_text : HttpStatus → Reply → HttpReply × State
without_text status r = (plain status, r.state)

-- The branches on the response, a ladder for each method.
unfoldable pub answer_get : Reply → Response → HttpReply × State
answer_get r Response.ok = with_text http_ok r
answer_get r Response.error = with_text conflict r
answer_get r _ = without_text not_found r

unfoldable pub answer_put : Reply → Response → HttpReply × State
answer_put r Response.ok = without_text http_ok r
answer_put r Response.resource_not_found = without_text not_found r
answer_put r Response.error = with_text conflict r
answer_put r Response.incorrect_payload = without_text bad_request r
answer_put r _ = without_text internal_server_error r

unfoldable pub answer_post : Reply → Response → HttpReply × State
answer_post r Response.ok = without_text http_ok r
answer_post r Response.resource_not_found = without_text not_found r
answer_post r Response.incorrect_payload = without_text bad_request r
answer_post r Response.no_config_data = without_text conflict r
answer_post r Response.error = with_text conflict r

unfoldable pub answer_delete : Reply → Response → HttpReply × State
answer_delete r Response.ok = without_text http_ok r
answer_delete r Response.resource_not_found = without_text not_found r
answer_delete r Response.incorrect_payload = without_text bad_request r
answer_delete r Response.no_config_data = without_text conflict r
answer_delete r Response.error = with_text conflict r

module _ (json : Json) (userfns : Callbacks) where
  -- The data of a PUT or a POST: some, and JSON.
  unfoldable pub with_payload :
      Option Bytes → State → (Bytes → Outcome (HttpReply × State)) → Outcome (HttpReply × State)
  with_payload none st k = done (plain bad_request, st)
  with_payload (some upload) st k =
      if length upload == 0
      then done (plain bad_request, st)
      else if is_some (json.json_parse_string upload)
      then k upload
      else done (plain bad_request, st)

  unfoldable pub adeptness_specific_handler :
      Bytes → ℕ → List QueryPair → Option Bytes → State → Outcome (HttpReply × State)
  unfolding with_payload answer_get answer_put answer_post answer_delete
  adeptness_specific_handler url method queries upload st =
      if method == method_get
      then (userfns.gethandler url queries st >>= λ r. done (answer_get r r.response))
      else if method == method_put
      then with_payload upload st
          (λ text. userfns.puthandler url text queries st >>= λ r. done (answer_put r r.response))
      else if method == method_post
      then with_payload upload st
          (λ text. userfns.posthandler url text queries st >>= λ r. done (answer_post r r.response))
      else if method == method_delete
      then (userfns.deletehandler url queries st >>= λ r. done (answer_delete r r.response))
      else done (plain method_not_allowed, st)

  unfoldable pub adeptness_ping_handler :
      Bytes → Bytes → ℕ → List QueryPair → Option Bytes → State → Outcome (HttpReply × State)
  adeptness_ping_handler version url method queries upload st =
      done (record { status = http_ok; body = some version; json = false }, st)

  -- The text and the code by the status.
  unfoldable pub status_document : MsStatus → Json.Value json
  status_document MsStatus.error =
      json.json_object_set_string json.json_value_init_object (codes "status") (codes "error")
  status_document MsStatus.exit_ms =
      json.json_object_set_string json.json_value_init_object (codes "message")
        (codes "Unknown error")
  status_document _ =
      json.json_object_set_string json.json_value_init_object (codes "status") (codes "ready")

  unfoldable pub status_code : MsStatus → HttpStatus
  status_code MsStatus.error = conflict
  status_code MsStatus.exit_ms = conflict
  status_code _ = http_ok

  unfoldable pub adeptness_status_handler :
      Bytes → ℕ → List QueryPair → Option Bytes → State → Outcome (HttpReply × State)
  unfolding status_document status_code
  adeptness_status_handler url method queries upload st = done (
    record {
      status = status_code st.status;
      body = some (json.json_serialize_to_string (status_document st.status));
      json = true;
    },
    st,
  )

  -- The handlers of "microservice-info" and "performance", which report on the host, are given.
  module _ (version : Bytes)
      (info metrics : Bytes
        → ℕ
        → List QueryPair
        → Option Bytes
        → State
        → Outcome (HttpReply × State)) where
    abbrev pub any_method : ℕ
    any_method = method_get + method_put + method_post + method_delete

    unfoldable pub registered_handlers : List (Handler State)
    unfolding register_handler adeptness_specific_handler adeptness_ping_handler
        adeptness_status_handler
    registered_handlers =
        register_handler
          (record {
            url = codes "/adms/v2/status";
            methods = method_get;
            handler = adeptness_status_handler;
          })
          (register_handler
            (record { url = codes "/adms/v2/performance"; methods = method_get; handler = metrics })
            (register_handler
              (record {
                url = codes "/adms/v2/microservice-info";
                methods = method_get;
                handler = info;
              })
              (register_handler
                (record {
                  url = codes "/adms/v2/ping";
                  methods = method_get;
                  handler = adeptness_ping_handler version;
                })
                (register_handler
                  (record {
                    url = codes "/adms/v2/";
                    methods = any_method;
                    handler = adeptness_specific_handler;
                  })
                  []))))
