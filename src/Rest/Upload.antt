-- ===== src/Rest/Upload.antt =====
-- `http_handler` of src/CanMonitor/common/rest-server.c over the calls that the HTTP library makes
-- for one request: one without data, one for each piece of the data, and a last one.
pub mod Assembly
pub mod Kept
use can_monitor.Base.{List, [], ◌∷◌, ◌++◌, Bytes, Option, none, some, Outcome, done, ◌>>=◌}
use can_monitor.Rest.Server.{Handler, HttpReply, handle_request}

-- `http_context_t`, which is kept between the calls: the data so far, NULL at first.
abbrev pub Context : Type 0
Context = Option Bytes

-- `realloc` and `memcpy`. The byte behind a piece, which is copied too, is taken to be a NUL.
abbrev pub gathered : Context → Bytes → Context
gathered none piece = some piece
gathered (some m_data) piece = some (m_data ++ piece)

module _ {S : Type 0} (handlers : List (Handler S)) (url methodname : Bytes)
    (pairs : List (Bytes × Option Bytes)) where
  -- The reply, if one is sent; the context that the library keeps; the state.
  unfoldable pub http_handler :
      Option Context → Bytes → S → Outcome (Option HttpReply × Option Context × S)
  unfolding handle_request
  http_handler none piece s = done (none, some none, s)
  http_handler (some m_data) (c ∷ piece) s = done (none, some (gathered m_data (c ∷ piece)), s)
  http_handler (some m_data) [] s =
      handle_request handlers url methodname pairs m_data s >>= λ r. done (some r.0, none, r.1)

  -- A sequence of calls, each with the context that the one before has left.
  unfoldable pub run_calls :
      Option Context → List Bytes → S → Outcome (List (Option HttpReply) × Option Context × S)
  unfolding http_handler
  run_calls context [] s = done ([], context, s)
  run_calls context (piece ∷ pieces) s = http_handler context piece s >>= λ r.
      run_calls r.1 pieces r.2 >>= λ rest. done (r.0 ∷ rest.0, rest.1, rest.2)
