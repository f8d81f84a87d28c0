-- ===== src/Rest/Server.antt =====
-- The dispatcher of src/CanMonitor/common/rest-server.c: methods, the list of handlers, and
-- `http_handler`.
use can_monitor.Base.{
  ℕ, List, [], ◌∷◌, ◌++◌, Bytes, Option, none, some, Bool, true, false, ◌&&◌, ◌||◌, codes, str_eq,
  ◌==◌, length, drop, if◌then◌else◌, Outcome, done,
}
use Prim.Native.Nat.{bit_and}
use can_monitor.Rest.Url.{normalize_url}
use can_monitor.Service.Sensors.{QueryPair}

-- `adeptness_http_method`, by its values.
abbrev pub method_get : ℕ
method_get = 1

abbrev pub method_post : ℕ
method_post = 2

abbrev pub method_put : ℕ
method_put = 4

abbrev pub method_patch : ℕ
method_patch = 8

abbrev pub method_delete : ℕ
method_delete = 16

abbrev pub method_unknown : ℕ
method_unknown = 1024

unfoldable pub method_from_string : Bytes → ℕ
method_from_string str =
    if str_eq str (codes "GET")
    then method_get
    else if str_eq str (codes "POST")
    then method_post
    else if str_eq str (codes "PUT")
    then method_put
    else if str_eq str (codes "PATCH")
    then method_patch
    else if str_eq str (codes "DELETE")
    then method_delete
    else method_unknown

-- `queryIterator` over the pairs of a request in their order: the known keys are put in front
-- of the list, and a missing value is empty.
unfoldable pub query_iterator : List (Bytes × Option Bytes) → List QueryPair → List QueryPair
query_iterator [] list = list
query_iterator ((key, value) ∷ rest) list = query_iterator rest (
    if str_eq key (codes "id")
    then record { name = key; value = elim value [ none ↦ codes "" | some v ↦ v ] } ∷ list
    else list)

-- The status codes of HTTP that the program sends.
pub data HttpStatus : Type 0 where
  http_ok bad_request not_found method_not_allowed conflict internal_server_error : HttpStatus

-- What is sent; `none` is a reply that was not set, which goes out as an empty text.
pub record HttpReply : Type 0 where
  pub status : HttpStatus
  pub body : Option Bytes
  pub json : Bool

-- A handler takes the rest of the URL, the method, the queries and the data.
pub record Handler (S : Type 0) : Type 0 where
  pub url : Bytes
  pub methods : ℕ
  pub handler : Bytes → ℕ → List QueryPair → Option Bytes → S → Outcome (HttpReply × S)

unfoldable pub register_handler : {S : Type 0} → Handler S → List (Handler S) → List (Handler S)
register_handler entry handlers = entry ∷ handlers

-- The last byte of a URL is a slash.
unfoldable pub ends_with_slash : Bytes → Bool
ends_with_slash [] = false
ends_with_slash (c ∷ []) = c == b'/'
ends_with_slash (c ∷ d ∷ cs) = ends_with_slash (d ∷ cs)

-- `strncmp(url, prefix, strlen(prefix)) == 0`
unfoldable pub has_prefix : Bytes → Bytes → Bool
has_prefix [] url = true
has_prefix (p ∷ ps) [] = false
has_prefix (p ∷ ps) (c ∷ cs) = p == c && has_prefix ps cs

-- The test of the loop over the handlers.
unfoldable pub matches : Bytes → Bytes → Bool
unfolding ends_with_slash has_prefix
matches handler_url nurl =
    if ends_with_slash handler_url then has_prefix handler_url nurl else str_eq nurl handler_url

abbrev pub plain : HttpStatus → HttpReply
plain status = record { status = status; body = none; json = false }

module _ {S : Type 0} where
  unfoldable pub find_handler : List (Handler S) → Bytes → Option (Handler S)
  unfolding matches
  find_handler [] nurl = none
  find_handler (h ∷ hs) nurl = if matches h.url nurl then some h else find_handler hs nurl

  -- The URLs of all handlers, a line each.
  unfoldable pub list_handlers : List (Handler S) → Bytes
  list_handlers [] = []
  list_handlers (h ∷ hs) = h.url ++ (codes "\n" ++ list_handlers hs)

  -- The last call of `http_handler` for a request.
  unfoldable pub handle_request :
      List (Handler S)
      → Bytes
      → Bytes
      → List (Bytes × Option Bytes)
      → Option Bytes
      → S
      → Outcome (HttpReply × S)
  unfolding method_from_string query_iterator find_handler list_handlers normalize_url
  handle_request handlers url methodname pairs data_bytes s =
      let method = method_from_string methodname in
      let nurl = normalize_url url in
      if str_eq url [] || str_eq url (codes "/")
      then if method == method_get
        then done
            (record { status = http_ok; body = some (list_handlers handlers); json = false }, s)
        else done (plain method_not_allowed, s)
      else elim (find_handler handlers nurl) [
        | none ↦ done (plain not_found, s)
        | some h ↦
            if bit_and method h.methods == 0
            then done (plain method_not_allowed, s)
            else h.handler (drop (length h.url) nurl) method (query_iterator pairs []) data_bytes s
      ]
