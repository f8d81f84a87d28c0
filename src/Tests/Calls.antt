-- ===== src/Tests/Calls.antt =====
-- The theorems on whole requests, with the data in two pieces.
use can_monitor.Base.{List, [], ◌∷◌, Bytes, none, some, codes, done, ◌≡◌, ◌↔◌, ◌⊎◌, refl}
use can_monitor.Rest.Metrics.{Usage}
use can_monitor.Rest.Served.Requests.{
  sensors_url, command_url, calls, one_reply, run_calls-create, run_calls-order,
}
use can_monitor.Rest.Served.{program_handlers}
use can_monitor.Rest.Server.{HttpReply, http_ok, conflict, plain}
use can_monitor.Rest.Upload.Assembly.{AllNonEmpty}
use can_monitor.Rest.Upload.{run_calls}
use can_monitor.Service.Command.Transitions.{Order, SameData}
use can_monitor.Service.Json.{Json}
use can_monitor.Service.Sensors.Creation.{IsPayload, described}
use can_monitor.Service.Sensors.Status.{ConfiguredUnlessRunning}
use can_monitor.Service.Sensors.{sensor_settings}
use can_monitor.Service.State.{State, MsStatus}
use can_monitor.Tables.Defs.{Table}
use can_monitor.Tables.Map.{Represents, with_key}
use can_monitor.Tables.Sensors.{Sensor}
use can_monitor.Tests.Documents.{json_of}
use can_monitor.Tests.Examples.{fresh, new_sensor, start_order}
use can_monitor.Tests.Requests.{nothing, empty_table, started, settings}
use can_monitor.Libc.Scan.{sscanf_u32}
use can_monitor.Base.{str_eq, flatten}

abbrev json : Json
json = json_of new_sensor

abbrev usage : Usage json
usage = record { uordblks = 0; arena = 0; hblkhd = 0; load = none; times = none }

abbrev pieces : List Bytes
pieces = codes "{ " ∷ (codes "}" ∷ [])

pieces-AllNonEmpty : AllNonEmpty pieces
pieces-AllNonEmpty = ((λ e. cc), ((λ e. cc), tt))

posted-IsPayload :
    IsPayload json (flatten pieces) (codes "speed") (codes "Speed") (codes "Uint8") settings
unfolding sensor_settings str_eq sscanf_u32 flatten
posted-IsPayload = record {
  keys = (refl, refl, refl, refl, refl);
  texts = (refl, refl, refl);
  settings = (refl, refl);
}

run_calls-create_example :
    (t' : Table Sensor) × (status : MsStatus) × (run_calls
        (program_handlers json (some (codes "10.0.0.1")) usage)
        sensors_url
        (codes "POST")
        []
        none
        (calls pieces)
        started
      ≡ done (
        one_reply pieces (plain http_ok),
        none,
        record started { sensors_table = some t'; status = status },
      ))
    × ConfiguredUnlessRunning started.status status
    × Represents t' (
        with_key nothing (codes "speed") (
          described json (flatten pieces) (codes "speed") (codes "Speed") (codes "Uint8") settings))
unfolding flatten
run_calls-create_example =
    run_calls-create json (some (codes "10.0.0.1")) usage (codes "{ ") (codes "}" ∷ [])
      pieces-AllNonEmpty refl started posted-IsPayload refl empty_table.2 refl

abbrev order_json : Json
order_json = json_of start_order

abbrev idle_usage : Usage order_json
idle_usage = record { uordblks = 0; arena = 0; hblkhd = 0; load = none; times = none }

run_calls-order_example :
    (reply : HttpReply) × (st' : State) × (run_calls
        (program_handlers order_json none idle_usage)
        command_url
        (codes "PUT")
        []
        none
        (calls pieces)
        fresh
      ≡ done (one_reply pieces reply, none, st'))
    × (((reply.status ≡ http_ok) × Order fresh.status st'.status)
        ⊎ ((reply.status ≡ conflict) × (st'.status ≡ fresh.status)))
    × ((reply.status ≡ http_ok) ↔ (
        ((codes "start" ≡ codes "start") × (fresh.status ≡ MsStatus.configured))
        ⊎ ((codes "start" ≡ codes "stop") × (fresh.status ≡ MsStatus.running))))
    × SameData fresh st'
unfolding flatten str_eq
run_calls-order_example =
    run_calls-order order_json none idle_usage (codes "{ ") (codes "}" ∷ []) pieces-AllNonEmpty refl
      (codes "start") fresh (refl, refl)
