-- ===== src/Rest/Daemon.antt =====
-- The life of the service and its server: `adeptness_rest_server_create` and `_destroy` of
-- src/CanMonitor/common/rest-server.c, and the functions of src/CanMonitor/common/adeptnessSvc.c
-- that start and stop a service.
use can_monitor.Base.{
  ℕ, ◌%◌, ◌^◌, List, [], Bytes, Option, none, some, Bool, true, false, codes, str_eq, ◌==◌,
  if◌then◌else◌, Outcome, done, fault, ◌>>=◌,
}
use can_monitor.Rest.Server.{Handler}

-- `adeptness_error`: a code, 0 for success, and a text.
pub record AdeptnessError : Type 0 where
  pub code : ℕ
  pub reason : Bytes

abbrev pub adeptness_ok : AdeptnessError
adeptness_ok = record { code = 0; reason = codes "Success" }

abbrev pub adeptness_no_device_impl : AdeptnessError
adeptness_no_device_impl = record { code = 3; reason = codes "Device implementation data was null" }

abbrev pub adeptness_http_server_fail : AdeptnessError
adeptness_http_server_fail = record { code = 5; reason = codes "Failed to start HTTP server" }

abbrev pub adeptness_no_device_name : AdeptnessError
adeptness_no_device_name = record { code = 6; reason = codes "No Device name was specified" }

abbrev pub adeptness_no_device_version : AdeptnessError
adeptness_no_device_version = record { code = 7; reason = codes "No Device version was specified" }

module _ (S : Type 0) where
  -- `adeptness_rest_server`, and what a pointer to one may refer to.
  pub record RestServer : Type 0 where
    pub port : ℕ
    pub handlers : List (Handler S)

  pub data Daemon : Type 0 where
    serving : RestServer → Daemon
    destroyed : Daemon

  -- `adeptness_service`; `daemon` is NULL before the start.
  pub record Service : Type 0 where
    pub name : Bytes
    pub version : Bytes
    pub port : ℕ
    pub daemon : Option Daemon

module _ {S : Type 0} where
  -- The flag says whether `MHD_start_daemon` succeeds.
  unfoldable pub adeptness_rest_server_create :
      Bool → ℕ → AdeptnessError → AdeptnessError × Option (Daemon S)
  adeptness_rest_server_create true port err =
      (err, some (serving (record { port = port; handlers = [] })))
  adeptness_rest_server_create false port err = (adeptness_http_server_fail, none)

  -- The server, its handlers and its memory are gone; a second time is undefined.
  unfoldable pub adeptness_rest_server_destroy : Daemon S → Outcome (Daemon S)
  adeptness_rest_server_destroy (serving server) = done destroyed
  adeptness_rest_server_destroy destroyed = fault

  unfoldable pub service_of : Bytes → Option Bytes → ℕ → AdeptnessError × Option (Service S)
  service_of name none port = (adeptness_no_device_version, none)
  service_of name (some version) port =
      if str_eq version [] then (adeptness_no_device_version, none) else (
        adeptness_ok,
        some (record { name = name; version = version; port = port % 2 ^ 16; daemon = none }),
      )

  unfoldable pub named_service :
      Option Bytes → Option Bytes → ℕ → AdeptnessError × Option (Service S)
  unfolding service_of
  named_service none version port = (adeptness_no_device_name, none)
  named_service (some name) version port =
      if str_eq name [] then (adeptness_no_device_name, none) else service_of name version port

  -- The flag says whether there is data of the implementation; the port is cut to 16 bits.
  unfoldable pub adeptness_service_new :
      Option Bytes → Option Bytes → Bool → ℕ → AdeptnessError × Option (Service S)
  unfolding named_service
  adeptness_service_new name version has_impl port =
      if has_impl then named_service name version port else (adeptness_no_device_impl, none)

  -- The server is started, and has the handlers registered.
  unfoldable pub start_configured :
      Bool → List (Handler S) → Service S → AdeptnessError → AdeptnessError × Service S
  unfolding adeptness_rest_server_create
  start_configured started handlers svc err =
      let (err', daemon) = adeptness_rest_server_create started svc.port err in
      if err'.code == 0
      then (
        err',
        record svc { daemon = some (serving (record { port = svc.port; handlers = handlers })) },
      )
      else (err', record svc { daemon = daemon })

  unfoldable pub adeptness_service_start :
      Bool → List (Handler S) → Service S → AdeptnessError → AdeptnessError × Service S
  unfolding start_configured
  adeptness_service_start started handlers svc err = start_configured started handlers svc err

  unfoldable pub adeptness_service_stop : Service S → Outcome (AdeptnessError × Service S)
  unfolding adeptness_rest_server_destroy
  adeptness_service_stop svc = elim svc.daemon [
    | none ↦ done (adeptness_ok, svc)
    | some daemon ↦ adeptness_rest_server_destroy daemon >>= λ after.
        done (adeptness_ok, record svc { daemon = some after })
  ]
