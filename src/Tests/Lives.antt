-- ===== src/Tests/Lives.antt =====
-- The theorem on the life of the program, with a start, a request and a signal.
use can_monitor.Base.{
  ℕ, List, [], Bytes, Option, none, some, true, codes, str_eq, Outcome, done, fault, ◌≡◌, refl,
}
use can_monitor.Libc.Scan.{sscanf_u32, atoi}
use can_monitor.Monitor.Arguments.{parse_arguments}
use can_monitor.Monitor.Loop.Lifetime.{start-Reach-IsSound}
use can_monitor.Monitor.Loop.Reach.{Step, Reach, here, then_step, called, interrupted}
use can_monitor.Monitor.Loop.Start.{Host, start}
use can_monitor.Monitor.Loop.{Main, Went, on}
use can_monitor.Monitor.Mqtt.{Message}
use can_monitor.Rest.Callbacks.{post_handler}
use can_monitor.Rest.Info.{service_handlers}
use can_monitor.Rest.Metrics.{Usage}
use can_monitor.Rest.Served.{program_handlers}
use can_monitor.Rest.Server.{Handler, HttpReply}
use can_monitor.Rest.Upload.{Context, http_handler}
use can_monitor.Service.Command.{int_handler}
use can_monitor.Service.Json.{Json}
use can_monitor.Service.Sensors.{create_sensors_configuration}
use can_monitor.Service.Sound.{IsSound}
use can_monitor.Service.State.{State, MsStatus}
use can_monitor.Tables.Hash.{hash}
use can_monitor.Tables.Sensorgroups.{htsg_free}
use can_monitor.Tables.Sensors.{hts_free}
use can_monitor.Tests.Documents.{json_of}
use can_monitor.Tests.Examples.{fresh, new_sensor}

abbrev json : Json
json = json_of new_sensor

abbrev print_nothing : ℕ → Bytes
print_nothing n = []

abbrev handlers : List (Handler State)
handlers = []

-- A host on which everything succeeds.
abbrev host : Host json
host = record {
  getenv = λ name. some (codes "8080");
  exists = true;
  document = none;
  started = true;
  connected = true;
  address = some (codes "10.0.0.1");
  sensors_memory = (true, true);
  groups_memory = (true, true);
}

abbrev no_main : Main
no_main = record {
  state = fresh;
  service = record { name = []; version = []; port = 0; daemon = none };
  svcname = [];
}

abbrev main_of : Outcome Went → Main
main_of (done (on m messages)) = m
main_of _ = no_main

abbrev messages_of : Outcome Went → List Message
messages_of (done (on m messages)) = messages
messages_of _ = []

abbrev begun : Outcome Went
begun = start json print_nothing handlers host []

begins : begun ≡ done (on (main_of begun) (messages_of begun))
unfolding start atoi parse_arguments str_eq
begins = refl

abbrev usage : Usage json
usage = record { uordblks = 0; arena = 0; hblkhd = 0; load = none; times = none }

abbrev host_address : Option Bytes
host_address = some (codes "10.0.0.1")

-- The last of the calls for a POST, behind the one for the data.
abbrev post : Outcome (Option HttpReply × Option Context × State)
post =
    http_handler (program_handlers json host_address usage)
      (codes "/adms/v2/monitoring-agent/config/sensors") (codes "POST") [] (some (some (codes "{")))
      [] (main_of begun).state

abbrev answered :
    Outcome (Option HttpReply × Option Context × State) → Option HttpReply × Option Context × State
answered (done r) = r
answered fault = (none, none, fresh)

posted : post ≡ done (answered post)
unfolding http_handler str_eq start atoi create_sensors_configuration hash sscanf_u32
    parse_arguments service_handlers post_handler
posted = refl

abbrev created : Main
created = record (main_of begun) { state = (answered post).2 }

abbrev ended : Main
ended = record created { state = int_handler created.state }

step : Step json print_nothing handlers (main_of begun) created
step =
    called host_address usage (codes "/adms/v2/monitoring-agent/config/sensors") (codes "POST") []
      (some (some (codes "{"))) [] (answered post).0 (answered post).1 (answered post).2 posted

history : Reach json print_nothing handlers (main_of begun) ended
history = then_step (then_step here step) interrupted

created_configured : created.state.status ≡ MsStatus.configured
unfolding http_handler str_eq start atoi create_sensors_configuration hash sscanf_u32
    parse_arguments service_handlers post_handler
created_configured = refl

start-Reach-IsSound_example :
    IsSound ended.state
    × (hts_free ended.state.sensors_table ≡ done tt)
    × (htsg_free ended.state.sensorgroup_table ≡ done tt)
start-Reach-IsSound_example =
    start-Reach-IsSound json print_nothing handlers host refl refl [] (main_of begun) ended
      (messages_of begun) begins history
