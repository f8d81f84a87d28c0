-- ===== src/Tests/Routes.antt =====
-- The theorems on the dispatcher.
use can_monitor.Base.{
  ℕ, ◌||◌, List, [], Bytes, Option, none, false, codes, str_eq, Outcome, done, ◌≡◌, ◌⊎◌, inl, refl,
}
use can_monitor.Rest.Routing.{handlers, foreign_method-rejected}
use can_monitor.Rest.Server.{
  HttpStatus, not_found, method_not_allowed, HttpReply, plain, method_from_string, handle_request,
  method_patch,
}
use can_monitor.Rest.Specific.{Callbacks}
use can_monitor.Service.Json.{Json}
use can_monitor.Service.Sensors.{QueryPair}
use can_monitor.Service.State.{State, Response, Reply}
use can_monitor.Tests.Documents.{json_of, object}
use can_monitor.Tests.Examples.{fresh}

-- A service that refuses what it is asked.
abbrev refusal : State → Reply
refusal st = record { response = Response.error; text = codes "{}"; state = st }

abbrev refusing : Callbacks
refusing = record {
  gethandler = λ url queries st. done (refusal st);
  puthandler = λ url text queries st. done (refusal st);
  posthandler = λ url text queries st. done (refusal st);
  deletehandler = λ url queries st. done (refusal st);
}

abbrev report : Bytes → ℕ → List QueryPair → Option Bytes → State → Outcome (HttpReply × State)
report url method queries upload st = done (plain HttpStatus.http_ok, st)

abbrev json : Json
json = json_of object

below_root :
    (str_eq (codes "/adms/v2/sensors") [] || str_eq (codes "/adms/v2/sensors") (codes "/")) ≡ false
unfolding str_eq
below_root = refl

patch : method_from_string (codes "PATCH") ≡ method_patch
unfolding method_from_string str_eq
patch = refl

foreign_method-rejected_example :
    (code : HttpStatus) × (handle_request
        (handlers json refusing (codes "1") report report)
        (codes "/adms/v2/sensors")
        (codes "PATCH")
        []
        none
        fresh
      ≡ done (plain code, fresh))
    × ((code ≡ not_found) ⊎ (code ≡ method_not_allowed))
foreign_method-rejected_example =
    foreign_method-rejected json refusing (codes "1") report report (codes "/adms/v2/sensors")
      (codes "PATCH") [] none fresh below_root (inl patch)
