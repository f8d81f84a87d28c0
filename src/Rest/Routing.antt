-- ===== src/Rest/Routing.antt =====
-- Which handler answers a request, and what is refused before one is called.
use Prim.Native.Nat.{bit_and}
use can_monitor.Base.{
  ℕ, List, [], Bytes, Option, none, some, true, false, ◌||◌, codes, str_eq, str_eq_iff, ◌==◌,
  length, Option-cases, Outcome, done, ◌≡◌, ◌≢◌, ◌⊎◌, inl, inr, refl, arith,
}
use can_monitor.Rest.Server.{
  HttpStatus, bad_request, not_found, method_not_allowed, conflict, HttpReply, plain, Handler,
  method_from_string, has_prefix, find_handler, handle_request, method_get, method_post, method_put,
  method_delete, method_patch, method_unknown,
}
use can_monitor.Rest.Specific.{Callbacks, adeptness_specific_handler, registered_handlers}
use can_monitor.Rest.Url.{normalize_url}
use can_monitor.Service.Json.{Json, is_some}
use can_monitor.Service.Sensors.{QueryPair}
use can_monitor.Service.State.{State, Response, Reply}

module _ {S : Type 0} (hs : List (Handler S)) (url methodname : Bytes)
    (pairs : List (Bytes × Option Bytes)) (upload : Option Bytes) (s : S)
    (below : (str_eq url [] || str_eq url (codes "/")) ≡ false) where
  unanswered :
      find_handler hs (normalize_url url) ≡ none
      → handle_request hs url methodname pairs upload s ≡ done (plain not_found, s)
  unfolding handle_request
  unanswered e = rw (below, e)

  refused :
      (h : Handler S)
      → find_handler hs (normalize_url url) ≡ some h
      → (bit_and (method_from_string methodname) h.methods == 0) ≡ true
      → handle_request hs url methodname pairs upload s ≡ done (plain method_not_allowed, s)
  unfolding handle_request
  refused h e m = rw (below, e, m)

-- Neither bit of PATCH nor that of an unknown method is among those of a handler.
foreign_bits :
    (method methods : ℕ)
    → (method ≡ method_patch) ⊎ (method ≡ method_unknown)
    → (methods ≡ 1) ⊎ (methods ≡ 23)
    → (bit_and method methods == 0) ≡ true
foreign_bits method methods (inl e) (inl e') = rw (e, e')
foreign_bits method methods (inl e) (inr e') = rw (e, e')
foreign_bits method methods (inr e) (inl e') = rw (e, e')
foreign_bits method methods (inr e) (inr e') = rw (e, e')

module _ (json : Json) (userfns : Callbacks) (version : Bytes)
    (info metrics : Bytes
      → ℕ
      → List QueryPair
      → Option Bytes
      → State
      → Outcome (HttpReply × State)) where
  abbrev pub handlers : List (Handler State)
  handlers = registered_handlers json userfns version info metrics

  registered-methods :
      (nurl : Bytes) (h : Handler State)
      → find_handler handlers nurl ≡ some h
      → (h.methods ≡ 1) ⊎ (h.methods ≡ 23)
  unfolding find_handler registered_handlers
  registered-methods nurl h e = ground arith

  -- Outside the root, a PATCH request and one with an unknown method are answered "not found" or
  -- "method not allowed" with no text, and the state is as it was.
  pub foreign_method-rejected :
      (url methodname : Bytes) (pairs : List (Bytes × Option Bytes)) (upload : Option Bytes)
      (st : State)
      → (str_eq url [] || str_eq url (codes "/")) ≡ false
      → (method_from_string methodname ≡ method_patch)
        ⊎ (method_from_string methodname ≡ method_unknown)
      → (code : HttpStatus) × (handle_request handlers url methodname pairs upload st
          ≡ done (plain code, st))
        × ((code ≡ not_found) ⊎ (code ≡ method_not_allowed))
  foreign_method-rejected url methodname pairs upload st below foreign =
      elim (Option-cases (find_handler handlers (normalize_url url))) [
        | inl missing ↦
            (not_found, unanswered handlers url methodname pairs upload st below missing, inl refl)
        | inr (h, found) ↦ (
          method_not_allowed,
          refused handlers url methodname pairs upload st below h found (
              foreign_bits (method_from_string methodname) h.methods foreign
                (registered-methods (normalize_url url) h found)),
          inr refl,
        )
      ]

  -- Every URL below "/adms/v2/" but the four fixed ones goes to the handler of the service.
  pub find_handler-specific :
      (nurl : Bytes)
      → has_prefix (codes "/adms/v2/") nurl ≡ true
      → nurl ≢ codes "/adms/v2/status"
      → nurl ≢ codes "/adms/v2/performance"
      → nurl ≢ codes "/adms/v2/microservice-info"
      → nurl ≢ codes "/adms/v2/ping"
      → find_handler handlers nurl
        ≡ some (record {
          url = codes "/adms/v2/";
          methods = 23;
          handler = adeptness_specific_handler json userfns;
        })
  unfolding find_handler registered_handlers
  find_handler-specific nurl h s p i g = ground (
    arith,
    str_eq_iff nurl (codes "/adms/v2/status"),
    str_eq_iff nurl (codes "/adms/v2/performance"),
    str_eq_iff nurl (codes "/adms/v2/microservice-info"),
    str_eq_iff nurl (codes "/adms/v2/ping"),
  )

  -- The four fixed URLs have the prefix of the service's handler, and still go to handlers of
  -- their own, which take GET only.
  pub find_handler-fixed :
      (nurl : Bytes)
      → (nurl ≡ codes "/adms/v2/status")
        ⊎ (nurl ≡ codes "/adms/v2/performance")
        ⊎ (nurl ≡ codes "/adms/v2/microservice-info")
        ⊎ (nurl ≡ codes "/adms/v2/ping")
      → (h : Handler State) × (find_handler handlers nurl ≡ some h)
        × (h.url ≡ nurl)
        × (h.methods ≡ method_get)
        × (has_prefix (codes "/adms/v2/") nurl ≡ true)
  unfolding find_handler registered_handlers str_eq
  find_handler-fixed nurl (inl e) = rw e (_, refl, refl, refl, refl)
  find_handler-fixed nurl (inr (inl e)) = rw e (_, refl, refl, refl, refl)
  find_handler-fixed nurl (inr (inr (inl e))) = rw e (_, refl, refl, refl, refl)
  find_handler-fixed nurl (inr (inr (inr e))) = rw e (_, refl, refl, refl, refl)

module _ (json : Json) (userfns : Callbacks) where
  -- A PUT or POST below the service's URL without data, or with data that is not JSON, is answered
  -- "bad request" and leaves the state as it was.
  pub specific-bad_request :
      (url : Bytes) (method : ℕ) (queries : List QueryPair) (upload : Option Bytes) (st : State)
      → (method ≡ method_put) ⊎ (method ≡ method_post)
      → (upload ≡ none)
        ⊎ ((text : Bytes) × (upload ≡ some text)
            × ((text ≡ []) ⊎ (json.json_parse_string text ≡ none)))
      → adeptness_specific_handler json userfns url method queries upload st
        ≡ done (plain bad_request, st)
  unfolding adeptness_specific_handler
  specific-bad_request url method queries upload st m u = ground arith

  -- With data that is JSON, an ERROR of a callback is answered "conflict" with the callback's text
  -- and state, for all four methods.
  pub specific-conflict :
      (url : Bytes) (method : ℕ) (queries : List QueryPair) (text : Bytes) (st : State) (r : Reply)
      → length text ≢ 0
      → is_some (json.json_parse_string text) ≡ true
      → r.response ≡ Response.error
      → ((method ≡ method_get) × (userfns.gethandler url queries st ≡ done r))
        ⊎ ((method ≡ method_put) × (userfns.puthandler url text queries st ≡ done r))
        ⊎ ((method ≡ method_post) × (userfns.posthandler url text queries st ≡ done r))
        ⊎ ((method ≡ method_delete) × (userfns.deletehandler url queries st ≡ done r))
      → adeptness_specific_handler json userfns url method queries (some text) st
        ≡ done (record { status = conflict; body = some r.text; json = true }, r.state)
  unfolding adeptness_specific_handler
  specific-conflict url method queries text st r n p e h = ground arith
