-- ===== src/Monitor/Loop/Restart.antt =====
-- What restarting the HTTP server leaves in the variable of `main`.
use can_monitor.Service.Json.{Json}
use can_monitor.Base.{
  ℕ, List, Bytes, some, ◌==◌, Bool-cases, done, fault, >>=-eq-done, ◌≡◌, ◌≢◌, inl, inr, ◌∙◌, ap,
  arith,
}
use can_monitor.Monitor.Loop.{World, Main, on, round_http, shutdown}
use can_monitor.Monitor.Mqtt.{Message}
use can_monitor.Rest.Daemon.{
  AdeptnessError, Service, serving, destroyed, RestServer, adeptness_service_stop,
}
use can_monitor.Rest.Server.{Handler}
use can_monitor.Service.State.{State}

stop_destroyed :
    (svc : Service State) → svc.daemon ≡ some destroyed → adeptness_service_stop svc ≡ fault
unfolding adeptness_service_stop
stop_destroyed svc e = ground arith

stopped-daemon :
    (svc : Service State) (server : RestServer State) (stopped : AdeptnessError × Service State)
    → svc.daemon ≡ some (serving server)
    → adeptness_service_stop svc ≡ done stopped
    → stopped.1.daemon ≡ some destroyed
unfolding adeptness_service_stop
stopped-daemon svc server stopped e h = ground arith

module _ (json : Json) (print_double : ℕ → Bytes) (handlers : List (Handler State)) where
  restart_of_destroyed :
      (w : World) (m : Main)
      → m.service.daemon ≡ some destroyed
      → m.state.restart_http ≢ 0
      → round_http json print_double handlers w m ≡ fault
  unfolding round_http
  restart_of_destroyed w m e h = ground (arith, stop_destroyed m.service e)

  shutdown_of_destroyed :
      (m : Main) (code : ℕ)
      → m.service.daemon ≡ some destroyed
      → shutdown json print_double handlers m ≢ done code
  unfolding shutdown
  shutdown_of_destroyed m code e h = ground (arith, stop_destroyed m.service e)

  restart-destroyed :
      (w : World) (m m' : Main) (server : RestServer State) (messages : List Message)
      → m.service.daemon ≡ some (serving server)
      → m.state.restart_http ≢ 0
      → round_http json print_double handlers w m ≡ done (on m' messages)
      → m'.service.daemon ≡ some destroyed
  unfolding round_http
  restart-destroyed w m m' server messages e h r = elim (Bool-cases (m.state.restart_http == 0)) [
    | inl none_wanted ↦ absurd (h (ground arith))
    | inr wanted ↦
        let (stopped, e₁, h₁) =
          >>=-eq-done (adeptness_service_stop m.service) _ (rw (wanted, round_http) at r) in
        ground (arith, stopped-daemon m.service server stopped e e₁)
  ]

  -- After one restart of the HTTP server that went well, and while the service variable is as it
  -- left it, another restart is undefined, and the end of the program does not return, whether
  -- another restart is wanted or not.
  pub round_http-stale :
      (w w' : World) (m m' again last : Main) (server : RestServer State) (messages : List Message)
      (code : ℕ)
      → m.service.daemon ≡ some (serving server)
      → m.state.restart_http ≢ 0
      → round_http json print_double handlers w m ≡ done (on m' messages)
      → again.service ≡ m'.service
      → again.state.restart_http ≢ 0
      → last.service ≡ m'.service
      → (round_http json print_double handlers w' again ≡ fault)
        × (shutdown json print_double handlers last ≢ done code)
  round_http-stale w w' m m' again last server messages code e h r same wanted same_last =
      let gone = restart-destroyed w m m' server messages e h r in
      (
        restart_of_destroyed w' again (ap (λ (s : Service State). s.daemon) same ∙ gone) wanted,
        shutdown_of_destroyed last code (ap (λ (s : Service State). s.daemon) same_last ∙ gone),
      )
