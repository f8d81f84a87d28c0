-- ===== src/Service/Moves/Requests.antt =====
-- The four callbacks: which request takes which step of the status.
use can_monitor.Base.{
  List, Bytes, codes, str_eq, Safe, Safe-done, Safe-if, Safe-weaken, inl, inr, refl, ap,
}
use can_monitor.Rest.Callbacks.Reading.{get_handler-OnlyLedger}
use can_monitor.Rest.Callbacks.{get_handler, put_handler, post_handler, delete_handler}
use can_monitor.Service.Connection.Untouched.{update_connection_configuration-Untouched}
use can_monitor.Service.Json.{Json}
use can_monitor.Service.Moves.Groups.{
  create_sensorgroups_subscription-Move, delete_sensorgroups_subscription-SameStatus,
  update_sensorgroups_subscription-Move,
}
use can_monitor.Service.Moves.Sensors.{
  create_sensors_configuration-Move, delete_sensors_configuration-SameStatus,
  update_sensors_configuration-Move,
}
use can_monitor.Service.Moves.{MoveReply}
use can_monitor.Service.Sensors.{QueryPair}
use can_monitor.Service.Setup.Status.{update_microservice_configuration-Undisturbed}
use can_monitor.Service.State.{State, Reply}
use can_monitor.Service.Moves.Causes.{
  Cause, stays, Move-Cause, sensors_path, sensorgroups_path, command_path,
  cmd_execute_configuration-Cause,
}
use can_monitor.Rest.Server.{method_get, method_put, method_post, method_delete}
use mathlib.Core.Path.{subst}
use can_monitor.Base.{ℕ, Option, some, true, str_eq_iff, Outcome, ◌≡◌, ◌⊎◌, sym}

module _ (json : Json) (st : State) where
  -- What a callback leaves, by the path, the method and the data of the request.
  abbrev pub CausedReply : Bytes → ℕ → Option Bytes → Reply → Type 0
  CausedReply path method upload r = Cause json path method upload st.status r.state.status

  caused :
      (path expected : Bytes) (method : ℕ) (upload : Option Bytes) (o : Outcome Reply)
      → (method ≡ method_post) ⊎ (method ≡ method_put)
      → (expected ≡ sensors_path) ⊎ (expected ≡ sensorgroups_path)
      → str_eq path expected ≡ true
      → Safe (MoveReply st) o
      → Safe (CausedReply path method upload) o
  caused path expected method upload o m p e s =
      let same : path ≡ expected = (str_eq_iff path expected).0 e in
      Safe-weaken o s λ r move.
        Move-Cause json path method upload st.status r.state.status m
          (subst (λ (q : Bytes). (q ≡ sensors_path) ⊎ (q ≡ sensorgroups_path)) (sym same) p) move

  pub get_handler-Cause :
      (path : Bytes) (upload : Option Bytes) (queries : List QueryPair)
      → Safe (CausedReply path method_get upload) (get_handler json path queries st)
  get_handler-Cause path upload queries = record {
    holds = λ r e.
        stays (ap (λ (v : State). v.status) (get_handler-OnlyLedger json st r path queries e));
  }

  pub put_handler-Cause :
      (path values : Bytes) (queries : List QueryPair)
      → Safe (CausedReply path method_put (some values)) (put_handler json path values queries st)
  unfolding put_handler
  put_handler-Cause path values queries =
      Safe-if (str_eq path (codes "setup"))
        (λ _. record {
          holds = λ r e.
              stays (update_microservice_configuration-Undisturbed json values st r e).status;
        })
        λ _.
          Safe-if (str_eq path (codes "monitoring-agent/config/connection"))
            (λ _.
              Safe-weaken _ (update_connection_configuration-Untouched json values st)
                λ r same. stays same.status)
            λ _.
              Safe-if (str_eq path sensors_path)
                (λ e.
                  caused path sensors_path method_put (some values) _ (inr refl) (inl refl) e
                    (update_sensors_configuration-Move json values queries st))
                λ _.
                  Safe-if (str_eq path sensorgroups_path)
                    (λ e.
                      caused path sensorgroups_path method_put (some values) _ (inr refl) (inr refl)
                        e (update_sensorgroups_subscription-Move json values queries st))
                    λ _.
                      Safe-if (str_eq path command_path)
                        (λ e. record {
                          holds = λ r h.
                              subst (λ (q : Bytes). CausedReply q method_put (some values) r)
                                (sym ((str_eq_iff path command_path).0 e))
                                (cmd_execute_configuration-Cause json values st r h);
                        })
                        λ _. Safe-done (stays refl)

  pub post_handler-Cause :
      (path values : Bytes) (queries : List QueryPair)
      → Safe (CausedReply path method_post (some values)) (post_handler json path values queries st)
  unfolding post_handler
  post_handler-Cause path values queries =
      Safe-if (str_eq path sensors_path)
        (λ e.
          caused path sensors_path method_post (some values) _ (inl refl) (inl refl) e
            (create_sensors_configuration-Move json st values))
        λ _.
          Safe-if (str_eq path sensorgroups_path)
            (λ e.
              caused path sensorgroups_path method_post (some values) _ (inl refl) (inr refl) e
                (create_sensorgroups_subscription-Move json values st))
            λ _. Safe-done (stays refl)

  pub delete_handler-Cause :
      (path : Bytes) (upload : Option Bytes) (queries : List QueryPair)
      → Safe (CausedReply path method_delete upload) (delete_handler json path queries st)
  unfolding delete_handler
  delete_handler-Cause path upload queries =
      Safe-if (str_eq path sensors_path)
        (λ _.
          Safe-weaken _ (delete_sensors_configuration-SameStatus json (codes "") queries st)
            λ r e. stays e)
        λ _.
          Safe-if (str_eq path sensorgroups_path)
            (λ _.
              Safe-done
                (stays (delete_sensorgroups_subscription-SameStatus json (codes "") queries st)))
            λ _. Safe-done (stays refl)
