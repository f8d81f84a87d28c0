-- ===== src/Rest/Info/Kept.antt =====
-- What the callbacks of a service do to the state, its handlers do.
use can_monitor.Base.{==_iff}
use can_monitor.Base.{
  arith, ℕ, ◌==◌, List, Bytes, Option, none, some, length, Outcome, Safe, Safe-done, Safe-bind,
  Safe-any, Safe-if, ◌≡◌,
}
use can_monitor.Frame.Parse.{Overrun}
use can_monitor.Rest.Info.{adeptness_info_handler, service_handlers}
use can_monitor.Rest.Metrics.{Usage}
use can_monitor.Rest.Server.{HttpReply, method_get, method_put, method_post, method_delete}
use can_monitor.Rest.Specific.{
  Callbacks, answer_get, answer_put, answer_post, answer_delete, with_payload,
  adeptness_specific_handler,
}
use can_monitor.Rest.Upload.Kept.{AllKeep}
use can_monitor.Service.Json.{Json, is_some, deref}
use can_monitor.Service.Sensors.{QueryPair}
use can_monitor.Service.State.{State, Reply, Response}

-- The ladders on the response pass the callback's state on.
answer_get-state : (r : Reply) (x : Response) → (answer_get r x).1 ≡ r.state
unfolding answer_get
answer_get-state r x = ground arith

answer_put-state : (r : Reply) (x : Response) → (answer_put r x).1 ≡ r.state
unfolding answer_put
answer_put-state r x = ground arith

answer_post-state : (r : Reply) (x : Response) → (answer_post r x).1 ≡ r.state
unfolding answer_post
answer_post-state r x = ground arith

answer_delete-state : (r : Reply) (x : Response) → (answer_delete r x).1 ≡ r.state
unfolding answer_delete
answer_delete-state r x = ground arith

module _ (R : Bytes → ℕ → Option Bytes → State → State → Type 0) where
  -- The four callbacks, whatever they are asked.
  pub record CallbacksKeep (userfns : Callbacks) : Type 0 where
    pub on_get :
        (url : Bytes) (upload : Option Bytes) (queries : List QueryPair) (st : State)
        → Safe (λ r. R url method_get upload st r.state) (userfns.gethandler url queries st)
    pub on_put :
        (url text : Bytes) (queries : List QueryPair) (st : State)
        → Safe
            (λ r. R url method_put (some text) st r.state)
            (userfns.puthandler url text queries st)
    pub on_post :
        (url text : Bytes) (queries : List QueryPair) (st : State)
        → Safe
            (λ r. R url method_post (some text) st r.state)
            (userfns.posthandler url text queries st)
    pub on_delete :
        (url : Bytes) (upload : Option Bytes) (queries : List QueryPair) (st : State)
        → Safe (λ r. R url method_delete upload st r.state) (userfns.deletehandler url queries st)

  module _ (json : Json)
      (ledger : (url : Bytes) (method : ℕ) (upload : Option Bytes) (st : State)
          (over : List Overrun)
        → R url method upload st (record st { overruns = over }))
      (userfns : Callbacks) (kept : CallbacksKeep userfns) where
    with_payload-Keeps :
        (url : Bytes) (method : ℕ) (upload : Option Bytes) (st : State)
        (k : Bytes → Outcome (HttpReply × State))
        → ((text : Bytes) → Safe (λ r. R url method (some text) st r.1) (k text))
        → Safe (λ r. R url method upload st r.1) (with_payload json userfns upload st k)
    unfolding with_payload
    with_payload-Keeps url method none st k h = Safe-done (ledger url method none st st.overruns)
    with_payload-Keeps url method (some upload) st k h =
        Safe-if (length upload == 0)
          (λ _. Safe-done (ledger url method (some upload) st st.overruns))
          λ _.
            Safe-if (is_some (json.json_parse_string upload)) (λ _. h upload)
              λ _. Safe-done (ledger url method (some upload) st st.overruns)

    specific-Keeps :
        (url : Bytes) (method : ℕ) (queries : List QueryPair) (upload : Option Bytes) (st : State)
        → Safe
            (λ r. R url method upload st r.1)
            (adeptness_specific_handler json userfns url method queries upload st)
    unfolding adeptness_specific_handler
    specific-Keeps url method queries upload st =
        Safe-if (method == method_get)
          (λ e.
            Safe-bind (userfns.gethandler url queries st) _ (kept.on_get url upload queries st)
              λ r h.
                Safe-done (rw (answer_get-state r r.response, (==_iff method method_get).0 e) h))
          λ _.
            Safe-if (method == method_put)
              (λ e. with_payload-Keeps url method upload st _ λ text.
                Safe-bind (userfns.puthandler url text queries st) _
                  (kept.on_put url text queries st)
                  λ r h.
                    Safe-done
                      (rw (answer_put-state r r.response, (==_iff method method_put).0 e) h))
              λ _.
                Safe-if (method == method_post)
                  (λ e. with_payload-Keeps url method upload st _ λ text.
                    Safe-bind (userfns.posthandler url text queries st) _
                      (kept.on_post url text queries st)
                      λ r h.
                        Safe-done
                          (rw (answer_post-state r r.response, (==_iff method method_post).0 e) h))
                  λ _.
                    Safe-if (method == method_delete)
                      (λ e.
                        Safe-bind (userfns.deletehandler url queries st) _
                          (kept.on_delete url upload queries st)
                          λ r h. Safe-done (
                            rw (answer_delete-state r r.response, (==_iff method method_delete).0 e)
                              h))
                      λ _. Safe-done (ledger url method upload st st.overruns)

    info-Keeps :
        (address : Option Bytes) (url : Bytes) (method : ℕ) (queries : List QueryPair)
        (upload : Option Bytes) (st : State)
        → Safe
            (λ r. R url method upload st r.1)
            (adeptness_info_handler json address url method queries upload st)
    unfolding adeptness_info_handler
    info-Keeps address url method queries upload st =
        Safe-any (deref address) _
          λ ip. Safe-any (deref st.monitor_id) _ λ id. Safe-done (ledger url method upload st _)

    pub service_handlers-AllKeep :
        (address : Option Bytes) (usage : Usage json) (version : Bytes)
        → AllKeep R (service_handlers json address usage userfns version)
    unfolding service_handlers
    service_handlers-AllKeep address usage version = (
      λ url method queries upload st. Safe-done (ledger url method upload st st.overruns),
      (
        λ url method queries upload st. Safe-done (ledger url method upload st st.overruns),
        (
          info-Keeps address,
          (
            λ url method queries upload st. Safe-done (ledger url method upload st st.overruns),
            (specific-Keeps, tt),
          ),
        ),
      ),
    )
