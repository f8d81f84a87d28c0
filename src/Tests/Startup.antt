-- ===== src/Tests/Startup.antt =====
-- The theorems on the start of the program, on the calls for one request, and on restarting.
use can_monitor.Base.{
  ℕ, List, [], ◌∷◌, ◌++◌, flatten, Bytes, Option, none, some, true, false, codes, str_eq, replicate,
  done, fault, ◌≡◌, ◌≢◌, ◌⊎◌, inl, inr, refl, arith,
}
use can_monitor.Libc.Scan.{atoi}
use can_monitor.Monitor.Arguments.CommandLine.{
  name_is, config_is, long, equals, parse_arguments-render,
}
use can_monitor.Monitor.Arguments.{chosen, parse_arguments}
use can_monitor.Monitor.Environment.Startup.{
  HoldsVariables, Lacks, get_info_from_environment_variables-cases,
}
use can_monitor.Monitor.Environment.{get_info_from_environment_variables}
use can_monitor.Monitor.Loop.Restart.{round_http-stale}
use can_monitor.Monitor.Loop.{World, Main, on, round_http, shutdown}
use can_monitor.Rest.Daemon.{
  Service, serving, destroyed, RestServer, adeptness_service_new, adeptness_service_start,
  adeptness_service_stop,
}
use can_monitor.Rest.Server.{handle_request, HttpStatus, Handler}
use can_monitor.Rest.Upload.Assembly.{served, run_calls-handle_request}
use can_monitor.Rest.Upload.{run_calls}
use can_monitor.Service.Json.{Json}
use can_monitor.Service.State.{State}
use can_monitor.Tests.Documents.{json_of, object}
use can_monitor.Tests.Examples.{fresh}

abbrev arguments : List Bytes
arguments = codes "--config" ∷ codes "can.json" ∷ codes "--name=bus" ∷ []

parse_arguments-render_example :
    parse_arguments 4 arguments (codes "can-monitor") none
    ≡ some (chosen (codes "bus") (some (codes "can.json")))
parse_arguments-render_example =
    parse_arguments-render (config_is long (codes "can.json") ∷ (name_is equals (codes "bus") ∷ []))
      4 (codes "can-monitor") none (inl (λ e. cc), (inr (λ e. cc), tt)) (omega arith)

-- Every variable has the same text.
abbrev environment : Bytes → Option Bytes
environment name = some (codes "8080")

get_info_from_environment_variables-cases_example :
    (Lacks environment × ((get_info_from_environment_variables environment fresh).success ≡ false))
    ⊎ ((rest_port : Bytes) × (host : Bytes) × (port : Bytes) × (qos : Bytes) × (id : Bytes)
        × HoldsVariables environment rest_port host port qos id
        × (get_info_from_environment_variables environment fresh ≡ record {
          success = true;
          state = record fresh {
            rest_server_port = atoi rest_port;
            mqtt_broker_host = some host;
            mqtt_broker_port = atoi port;
            mqtt_qos = atoi qos;
            monitor_id = some id;
            mqtt_username = some (codes "adeptness");
          };
        }))
get_info_from_environment_variables-cases_example =
    get_info_from_environment_variables-cases environment fresh

abbrev pub echo : Handler State
echo = record {
  url = codes "/echo";
  methods = 23;
  handler = λ path method queries upload st.
      done (record { status = HttpStatus.http_ok; body = upload; json = true }, st);
}

abbrev pieces : List Bytes
pieces = codes "{\"a\"" ∷ codes ":1}" ∷ []

run_calls-handle_request_example :
    run_calls (echo ∷ []) (codes "/echo") (codes "PUT") [] none ([] ∷ (pieces ++ ([] ∷ []))) fresh
    ≡ served (replicate 3 none) (
        handle_request
          (echo ∷ [])
          (codes "/echo")
          (codes "PUT")
          []
          (some (codes "{\"a\":1}"))
          fresh)
unfolding flatten
run_calls-handle_request_example =
    run_calls-handle_request (echo ∷ []) (codes "/echo") (codes "PUT") [] pieces fresh
      ((λ e. cc), ((λ e. cc), tt))

abbrev pub print_nothing : ℕ → Bytes
print_nothing n = []

abbrev json : Json
json = json_of object

abbrev server : RestServer State
server = record { port = 8080; handlers = echo ∷ [] }

abbrev pub running_service : Service State
running_service = record {
  name = codes "bus";
  version = codes "1.0";
  port = 8080;
  daemon = some (serving server);
}

abbrev pub world : World
world = record {
  connected = true;
  address = some (codes "127.0.0.1");
  started = true;
  received = none;
  time = 0;
  clock = λ id. record { tv_sec = 0; tv_usec = 0 };
}

-- A set-up has asked for another server.
abbrev first : Main
first = record {
  state = record fresh { restart_http = 1 };
  service = running_service;
  svcname = codes "bus";
}

abbrev stale : Main
stale = record {
  state = fresh;
  service = record running_service { daemon = some destroyed };
  svcname = codes "bus";
}

abbrev second : Main
second = record stale { state = record fresh { restart_http = 1 } }

restarted : round_http json print_nothing (echo ∷ []) world first ≡ done (on stale [])
unfolding round_http adeptness_service_new adeptness_service_start adeptness_service_stop str_eq
restarted = refl

round_http-stale_example :
    (round_http json print_nothing (echo ∷ []) world second ≡ fault)
    × (shutdown json print_nothing (echo ∷ []) stale ≢ done 0)
round_http-stale_example =
    round_http-stale json print_nothing (echo ∷ []) world world first stale second stale server [] 0
      refl (λ e. omega arith) restarted refl (λ e. omega arith) refl
