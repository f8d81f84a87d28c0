-- ===== src/Service/State/Overruns.antt =====
-- The ledger after an error message: `create_error_message` leaves no room for the NUL.
use can_monitor.Base.{◌+◌, ◌∷◌, Bytes, length, codes, ltb, ◌≡◌, refl, arith, true}
use can_monitor.Service.Json.{Json}
use can_monitor.Service.State.{State, Response, create_error_message}

-- Every error message is copied with its NUL into a buffer that is one byte too short; besides
-- this write nothing in the state changes.
pub create_error_message-overruns :
    (json : Json) (message : Bytes) (st : State)
    → let r = create_error_message json message st in
      (r.response ≡ Response.error)
      × (r.state ≡ record st {
        overruns = record { capacity = length r.text; written = length r.text + 1 } ∷ st.overruns;
      })
unfolding create_error_message
create_error_message-overruns json message st =
    let text =
      json.json_serialize_to_string
        (json.json_object_set_string json.json_value_init_object (codes "message") message) in
    let short : ltb (length text) (length text + 1) ≡ true = ground arith in (refl, rw short)
