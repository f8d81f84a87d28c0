-- ===== src/Rest/Served.antt =====
-- The handlers of the program's service, with the callbacks of
-- src/CanMonitor/rest_server/rest_server_impl.c: what a call of the HTTP library does to the state.
pub mod Requests
use can_monitor.Base.{List, Bytes, Option, codes, Safe, refl}
use can_monitor.Rest.Callbacks.{callbacks}
use can_monitor.Rest.Info.Kept.{CallbacksKeep, service_handlers-AllKeep}
use can_monitor.Rest.Info.{service_handlers}
use can_monitor.Rest.Metrics.{Usage}
use can_monitor.Rest.Server.{Handler, method_from_string}
use can_monitor.Rest.Upload.Kept.{Handled, http_handler-Keeps}
use can_monitor.Rest.Upload.{Context, http_handler}
use can_monitor.Service.Json.{Json}
use can_monitor.Service.Moves.Requests.{
  get_handler-Cause, put_handler-Cause, post_handler-Cause, delete_handler-Cause,
}
use can_monitor.Service.Moves.Causes.{Cause, stays}
use can_monitor.Rest.Url.{normalize_url}
use mathlib.Core.Path.{subst}
use can_monitor.Base.{ℕ, some, drop, Safe-weaken, ◌≡◌, ◌⊎◌, inl, inr, sym, ap}
use can_monitor.Service.Sound.Requests.{
  get_handler-IsSound, put_handler-IsSound, post_handler-IsSound, delete_handler-IsSound,
}
use can_monitor.Service.Sound.{IsSound}
use can_monitor.Service.State.{State, MsStatus}

abbrev StaysSound : Bytes → ℕ → Option Bytes → State → State → Type 0
StaysSound path method upload st st' = IsSound st → IsSound st'

abbrev Caused : Json → Bytes → ℕ → Option Bytes → State → State → Type 0
Caused json path method upload st st' = Cause json path method upload st.status st'.status

-- What a call with a context may do to the status: nothing, or, with the data that the context has
-- gathered, what a request causes with a path that is the end of the normalized URL.
abbrev pub CalledBy : Json → Bytes → Bytes → Option Context → MsStatus → MsStatus → Type 0
CalledBy json url methodname context s t =
    (t ≡ s)
    ⊎ ((m_data : Option Bytes) × (context ≡ some m_data)
        × (n : ℕ) × Cause json (drop n (normalize_url url)) (method_from_string methodname) m_data s
            t)

-- The service is made with the version "1.0".
abbrev pub program_handlers : (json : Json) → Option Bytes → Usage json → List (Handler State)
program_handlers json address usage =
    service_handlers json address usage (callbacks json) (codes "1.0")

module _ (json : Json) where
  callbacks-StaysSound : CallbacksKeep StaysSound (callbacks json)
  callbacks-StaysSound = record {
    on_get = λ url upload queries st. record {
      holds = λ r e s. (get_handler-IsSound json s url queries).holds r e;
    };
    on_put = λ url text queries st. record {
      holds = λ r e s. (put_handler-IsSound json s url text queries).holds r e;
    };
    on_post = λ url text queries st. record {
      holds = λ r e s. (post_handler-IsSound json s url text queries).holds r e;
    };
    on_delete = λ url upload queries st. record {
      holds = λ r e s. (delete_handler-IsSound json s url queries).holds r e;
    };
  }

  callbacks-Caused : CallbacksKeep (Caused json) (callbacks json)
  callbacks-Caused = record {
    on_get = λ url upload queries st. get_handler-Cause json st url upload queries;
    on_put = λ url text queries st. put_handler-Cause json st url text queries;
    on_post = λ url text queries st. post_handler-Cause json st url text queries;
    on_delete = λ url upload queries st. delete_handler-Cause json st url upload queries;
  }

  module _ (address : Option Bytes) (usage : Usage json) (url methodname : Bytes)
      (pairs : List (Bytes × Option Bytes)) (context : Option Context) (piece : Bytes)
      (st : State) where
    pub http_handler-IsSound :
        Safe
          (λ r. IsSound st → IsSound r.2)
          (http_handler (program_handlers json address usage) url methodname pairs context piece st)
    http_handler-IsSound =
        Safe-weaken _
          (http_handler-Keeps StaysSound (program_handlers json address usage)
            (service_handlers-AllKeep StaysSound json
              (λ url method upload st over s. record { sensors = s.sensors; groups = s.groups })
              (callbacks json) callbacks-StaysSound address usage (codes "1.0"))
            url methodname pairs context piece st)
          λ r kept. by_kept r.2 kept
      where
        by_kept :
            (st' : State)
            → (st' ≡ st)
              ⊎ ((m_data : Option Bytes) × (context ≡ some m_data)
                  × Handled StaysSound
                      (program_handlers json address usage)
                      (service_handlers-AllKeep StaysSound json
                        (λ url method upload st over s. record {
                          sensors = s.sensors;
                          groups = s.groups;
                        })
                        (callbacks json)
                        callbacks-StaysSound
                        address
                        usage
                        (codes "1.0"))
                      url
                      methodname
                      pairs
                      m_data
                      st
                      st')
            → IsSound st
            → IsSound st'
        by_kept st' (inl e) s = subst IsSound (sym e) s
        by_kept st' (inr (m_data, given, inl e)) s = subst IsSound (sym e) s
        by_kept st' (inr (m_data, given, inr (n, k))) s = k s

    pub http_handler-CalledBy :
        Safe
          (λ r. CalledBy json url methodname context st.status r.2.status)
          (http_handler (program_handlers json address usage) url methodname pairs context piece st)
    http_handler-CalledBy =
        Safe-weaken _
          (http_handler-Keeps (Caused json) (program_handlers json address usage)
            (service_handlers-AllKeep (Caused json) json (λ url method upload st over. stays refl)
              (callbacks json) callbacks-Caused address usage (codes "1.0"))
            url methodname pairs context piece st)
          λ r kept. by_kept r.2 kept
      where
        by_kept :
            (st' : State)
            → (st' ≡ st)
              ⊎ ((m_data : Option Bytes) × (context ≡ some m_data)
                  × Handled
                      (Caused json)
                      (program_handlers json address usage)
                      (service_handlers-AllKeep
                        (Caused json)
                        json
                        (λ url method upload st over. stays refl)
                        (callbacks json)
                        callbacks-Caused
                        address
                        usage
                        (codes "1.0"))
                      url
                      methodname
                      pairs
                      m_data
                      st
                      st')
            → CalledBy json url methodname context st.status st'.status
        by_kept st' (inl e) = inl (ap (λ (s : State). s.status) e)
        by_kept st' (inr (m_data, given, inl e)) = inl (ap (λ (s : State). s.status) e)
        by_kept st' (inr (m_data, given, inr (n, k))) = inr (m_data, given, n, k)
