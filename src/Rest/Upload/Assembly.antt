-- ===== src/Rest/Upload/Assembly.antt =====
-- The calls for a request come to one call of the dispatcher on the whole data.
use can_monitor.Base.{
  fault, sym, suc, List, [], ◌∷◌, ◌++◌, flatten, Bytes, Option, none, some, length, replicate,
  Outcome, done, ◌>>=◌, ◌≡◌, ◌≢◌, refl, ◌∙◌, ap,
}
use mathlib.Core.List.{append-nil, append_assoc}
use can_monitor.Rest.Server.{Handler, HttpReply, handle_request}
use can_monitor.Rest.Upload.{Context, gathered, run_calls}

-- The library hands over no empty piece.
abbrev pub AllNonEmpty : List Bytes → Type 0
AllNonEmpty [] = Unit
AllNonEmpty (piece ∷ pieces) = (piece ≢ []) × AllNonEmpty pieces

-- The pieces behind what is there.
abbrev pub joined : Context → List Bytes → Context
joined context [] = context
joined context (piece ∷ pieces) = joined (gathered context piece) pieces

-- Of a request with data, they are the pieces in their order.
pub joined-flatten :
    (m : Bytes) (pieces : List Bytes) → joined (some m) pieces ≡ some (m ++ flatten pieces)
unfolding flatten
joined-flatten m [] = ap some (sym (append-nil m))
joined-flatten m (piece ∷ pieces) =
    joined-flatten (m ++ piece) pieces ∙ ap some (append_assoc m piece (flatten pieces))

-- The data of a request, from its pieces.
abbrev pub data_of : List Bytes → Context
data_of [] = none
data_of (piece ∷ pieces) = some (flatten (piece ∷ pieces))

module _ {S : Type 0} where
  -- The replies of calls that sent none, and the one of the last.
  abbrev pub served :
      List (Option HttpReply)
      → Outcome (HttpReply × S)
      → Outcome (List (Option HttpReply) × Option Context × S)
  served before o = o >>= λ r. done (before ++ (some r.0 ∷ []), none, r.1)

  served-cons :
      (before : List (Option HttpReply)) (o : Outcome (HttpReply × S))
      → (served before o >>= λ rest. done (none ∷ rest.0, rest.1, rest.2))
        ≡ served (none ∷ before) o
  served-cons before (done r) = refl
  served-cons before fault = refl

  module _ (handlers : List (Handler S)) (url methodname : Bytes)
      (pairs : List (Bytes × Option Bytes)) where
    last_call :
        (o : Outcome (HttpReply × S))
        → ((o >>= λ r. done (some r.0, none, r.1))
            >>= λ (r : Option HttpReply × Option Context × S).
                run_calls handlers url methodname pairs r.1 [] r.2 >>= λ rest.
                done (r.0 ∷ rest.0, rest.1, rest.2))
          ≡ served [] o
    unfolding run_calls
    last_call (done r) = refl
    last_call fault = refl

    run_calls-joined :
        (m : Context) (pieces : List Bytes) (s : S)
        → AllNonEmpty pieces
        → run_calls handlers url methodname pairs (some m) (pieces ++ ([] ∷ [])) s
          ≡ served
              (replicate (length pieces) none)
              (handle_request handlers url methodname pairs (joined m pieces) s)
    unfolding run_calls
    run_calls-joined m [] s h = last_call (handle_request handlers url methodname pairs m s)
    run_calls-joined m ([] ∷ pieces) s h = absurd (h.0 refl)
    run_calls-joined m ((c ∷ piece) ∷ pieces) s h =
        rw (run_calls-joined (gathered m (c ∷ piece)) pieces s h.1) (
          served-cons (replicate (length pieces) none)
            (handle_request handlers url methodname pairs (joined m ((c ∷ piece) ∷ pieces)) s))

    data_of-joined : (pieces : List Bytes) → joined none pieces ≡ data_of pieces
    unfolding flatten
    data_of-joined [] = refl
    data_of-joined (piece ∷ pieces) = joined-flatten piece pieces

    -- However the data of a request is cut into pieces that are not empty, the calls that the HTTP
    -- library makes for the request come to one call of the dispatcher on the joined data: none
    -- before the last sends a reply, and no context is left.
    pub run_calls-handle_request :
        (pieces : List Bytes) (s : S)
        → AllNonEmpty pieces
        → run_calls handlers url methodname pairs none ([] ∷ (pieces ++ ([] ∷ []))) s
          ≡ served
              (replicate (suc (length pieces)) none)
              (handle_request handlers url methodname pairs (data_of pieces) s)
    unfolding run_calls
    run_calls-handle_request pieces s h =
        let ask = λ (d : Context). handle_request handlers url methodname pairs d s in
        rw (run_calls-joined none pieces s h) (
          served-cons (replicate (length pieces) none) (ask (joined none pieces))
          ∙ ap (λ d. served (replicate (suc (length pieces)) none) (ask d)) (data_of-joined pieces))
