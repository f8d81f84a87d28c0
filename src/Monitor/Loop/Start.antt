-- ===== src/Monitor/Loop/Start.antt =====
-- What `main` of src/CanMonitor/CanMonitor.c does before its loop.
use can_monitor.Base.{
  ℕ, suc, List, [], Bytes, Option, none, some, Bool, true, codes, ◌==◌, length, if◌then◌else◌,
  Outcome, done, ◌>>=◌,
}
use can_monitor.Monitor.Arguments.{Arguments, left, chosen, parse_arguments}
use can_monitor.Monitor.Environment.{
  Configured, get_info_from_environment_variables, get_info_from_config_file,
}
use can_monitor.Monitor.Loop.{Went, on, returned, announce}
use can_monitor.Monitor.Mqtt.{Message}
use can_monitor.Rest.Daemon.{adeptness_service_new, adeptness_service_start}
use can_monitor.Rest.Server.{Handler}
use can_monitor.Service.Json.{Json}
use can_monitor.Service.State.{State, MsStatus}
use can_monitor.Tables.Sensorgroups.{htsg_create}
use can_monitor.Tables.Sensors.{hts_create}

abbrev pub def_svc_name : Bytes
def_svc_name = codes "adeptness-service"

-- The global variables, all of them zero.
abbrev pub globals : State
globals = record {
  status = MsStatus.unconfigured;
  sensors_table = none;
  sensorgroup_table = none;
  rest_server_port = 0;
  mqtt_broker_host = none;
  mqtt_broker_port = 0;
  mqtt_qos = 0;
  mqtt_username = none;
  monitor_id = none;
  restart_mqtt = 0;
  restart_http = 0;
  can_up = 0;
  can_conf_id = none;
  canport = none;
  bitrate = 0;
  overruns = [];
}

-- What the loop over the arguments comes to; it has more fuel than there are arguments.
abbrev pub parsed : List Bytes → Arguments
parsed args = elim (parse_arguments (suc (length args)) args def_svc_name none) [
  | none ↦ left
  | some r ↦ r
]

module _ (json : Json) where
  -- What the host says: the environment, whether the file is there and its document, whether the
  -- server starts and the client connects, the host's address, and whether there is memory for
  -- the two tables and their arrays.
  pub record Host : Type 0 where
    pub getenv : Bytes → Option Bytes
    pub exists : Bool
    pub document : Option (Json.Value json)
    pub started : Bool
    pub connected : Bool
    pub address : Option Bytes
    pub sensors_memory : Bool × Bool
    pub groups_memory : Bool × Bool

  unfoldable pub configuration : Host → Option Bytes → Outcome Configured
  unfolding get_info_from_environment_variables get_info_from_config_file
  configuration host none = done (get_info_from_environment_variables host.getenv globals)
  configuration host (some file) = get_info_from_config_file json host.exists host.document globals

  module _ (print_double : ℕ → Bytes) (handlers : List (Handler State)) where
    -- Behind the start of the service: the variables, the announcement and the tables.
    unfoldable pub prepare : Host → State → Outcome (State × List Message)
    unfolding announce hts_create htsg_create
    prepare host st =
        announce json print_double handlers host.connected host.address (record st {
          status = MsStatus.unconfigured;
          restart_http = 0;
          can_up = 0;
          canport = some (codes "can0");
          bitrate = 125000;
        })
        >>= λ r. done (
          record r.0 {
            sensors_table = hts_create 10 host.sensors_memory.0 host.sensors_memory.1;
            sensorgroup_table = htsg_create 10 host.groups_memory.0 host.groups_memory.1;
          },
          r.1,
        )

    unfoldable pub serve : Host → Bytes → State → Outcome Went
    unfolding adeptness_service_new adeptness_service_start prepare
    serve host svcname st =
        let (err, made) =
          adeptness_service_new {S = State} (some svcname) (some (codes "1.0")) true
            st.rest_server_port in
        elim made [
          | none ↦ done (returned err.code)
          | some service ↦
              let (err', running) = adeptness_service_start host.started handlers service err in
              if err'.code == 0
              then (prepare host st >>= λ r.
                  done (on (record { state = r.0; service = running; svcname = svcname }) r.1))
              else done (returned err'.code)
        ]

    -- The program up to its loop: it goes on, or returns.
    unfoldable pub start : Host → List Bytes → Outcome Went
    unfolding configuration serve
    start host args = elim (parsed args) [
      | left ↦ done (returned 0)
      | chosen svcname config_file ↦ configuration host config_file >>= λ c.
          if c.success then serve host svcname c.state else done (returned 0)
    ]
