-- ===== src/Rest/Upload/Kept.antt =====
-- What every handler does to the state, a call of the dispatcher does.
use Prim.Native.Nat.{bit_and}
use can_monitor.Base.{
  some_inj, ℕ, ◌==◌, ◌||◌, List, [], ◌∷◌, Bytes, Option, none, some, Bool-cases, Option-cases,
  codes, str_eq, drop, length, Safe, Safe-done, Safe-bind, Safe-if, ◌≡◌, ◌⊎◌, inl, inr, refl,
  Safe-weaken,
}
use can_monitor.Rest.Server.{
  Handler, find_handler, handle_request, matches, method_from_string, query_iterator, method_get,
}
use can_monitor.Rest.Upload.{Context, http_handler}
use can_monitor.Rest.Url.{normalize_url}
use can_monitor.Service.Sensors.{QueryPair}
use mathlib.Core.Path.{subst}

-- The relation may depend on the path behind the handler's URL, the method and the data.
module _ {S : Type 0} (R : Bytes → ℕ → Option Bytes → S → S → Type 0) where
  -- A handler that returns takes a state to one that is related to it.
  abbrev pub Keeps : Handler S → Type 0
  Keeps h =
      (url : Bytes) (method : ℕ) (queries : List QueryPair) (upload : Option Bytes) (s : S)
      → Safe (λ r. R url method upload s r.1) (h.handler url method queries upload s)

  abbrev pub AllKeep : List (Handler S) → Type 0
  AllKeep [] = Unit
  AllKeep (h ∷ hs) = Keeps h × AllKeep hs

  find_handler-Keeps :
      (hs : List (Handler S)) (nurl : Bytes) (h : Handler S)
      → AllKeep hs
      → find_handler hs nurl ≡ some h
      → Keeps h
  unfolding find_handler
  find_handler-Keeps [] nurl h k e = cc
  find_handler-Keeps (x ∷ hs) nurl h k e = elim (Bool-cases (matches x.url nurl)) [
    | inl fits ↦ subst Keeps (some_inj (rw (fits, find_handler) at e)) k.0
    | inr other ↦ find_handler-Keeps hs nurl h k.1 (rw (other, find_handler) at e)
  ]

  module _ (handlers : List (Handler S)) (kept : AllKeep handlers) (url methodname : Bytes)
      (pairs : List (Bytes × Option Bytes)) where
    -- Nothing has changed, or a handler was called, which took a part of the URL for its own.
    abbrev pub Handled : Option Bytes → S → S → Type 0
    Handled upload s s' =
        (s' ≡ s)
        ⊎ ((n : ℕ) × R (drop n (normalize_url url)) (method_from_string methodname) upload s s')

    pub handle_request-Keeps :
        (upload : Option Bytes) (s : S)
        → Safe (λ r. Handled upload s r.1) (handle_request handlers url methodname pairs upload s)
    unfolding handle_request
    handle_request-Keeps upload s =
        let method = method_from_string methodname in
        let nurl = normalize_url url in
        Safe-if (str_eq url [] || str_eq url (codes "/"))
          (λ _.
            Safe-if (method == method_get) (λ _. Safe-done (inl refl)) λ _. Safe-done (inl refl))
          λ _. elim (Option-cases (find_handler handlers nurl)) [
            | inl nobody ↦ rw nobody (Safe-done (inl refl))
            | inr (h, found) ↦ rw found (
                Safe-if (bit_and method h.methods == 0) (λ _. Safe-done (inl refl))
                  λ _.
                    Safe-weaken _
                      (find_handler-Keeps handlers nurl h kept found (drop (length h.url) nurl)
                        method (query_iterator pairs []) upload s)
                      λ r related. inr (length h.url, related))
          ]

    -- One of the calls that the HTTP library makes for a request.
    pub http_handler-Keeps :
        (context : Option Context) (piece : Bytes) (s : S)
        → Safe
            (λ r.
              (r.2 ≡ s)
              ⊎ ((m_data : Option Bytes) × (context ≡ some m_data) × Handled m_data s r.2))
            (http_handler handlers url methodname pairs context piece s)
    unfolding http_handler
    http_handler-Keeps none piece s = Safe-done (inl refl)
    http_handler-Keeps (some m_data) (c ∷ piece) s = Safe-done (inl refl)
    http_handler-Keeps (some m_data) [] s =
        Safe-bind (handle_request handlers url methodname pairs m_data s) _
          (handle_request-Keeps m_data s) λ r related. Safe-done (inr (m_data, refl, related))
