-- ===== src/Monitor/Environment/Startup.antt =====
-- Which variables of the environment are needed, and what they set.
use can_monitor.Base.{
  Bytes, Option, none, some, true, false, codes, Option-cases, ◌≡◌, ◌⊎◌, inl, inr,
}
use can_monitor.Libc.Scan.{atoi}
use can_monitor.Monitor.Environment.{get_info_from_environment_variables}
use can_monitor.Service.State.{State}

-- The five variables, with their texts.
pub record HoldsVariables (getenv : Bytes → Option Bytes) (rest_port host port qos id : Bytes)
    : Type 0 where
  pub rest_port_set : getenv (codes "REST_PORT") ≡ some rest_port
  pub host_set : getenv (codes "MQTT_BROKER_IP") ≡ some host
  pub port_set : getenv (codes "MQTT_BROKER_PORT") ≡ some port
  pub qos_set : getenv (codes "MQTT_QOS") ≡ some qos
  pub id_set : getenv (codes "SVC_ID") ≡ some id

-- One of the five is not set.
abbrev pub Lacks : (Bytes → Option Bytes) → Type 0
Lacks getenv =
    (getenv (codes "REST_PORT") ≡ none)
    ⊎ (getenv (codes "MQTT_BROKER_IP") ≡ none)
    ⊎ (getenv (codes "MQTT_BROKER_PORT") ≡ none)
    ⊎ (getenv (codes "MQTT_QOS") ≡ none)
    ⊎ (getenv (codes "SVC_ID") ≡ none)

-- Reading the environment fails when one of the five variables is not set, and otherwise succeeds
-- and sets the ports and the quality of service to what atoi reads, the host and the name to the
-- texts, the user to "adeptness", and nothing else.
pub get_info_from_environment_variables-cases :
    (getenv : Bytes → Option Bytes) (st : State)
    → (Lacks getenv × ((get_info_from_environment_variables getenv st).success ≡ false))
      ⊎ ((rest_port : Bytes) × (host : Bytes) × (port : Bytes) × (qos : Bytes) × (id : Bytes)
          × HoldsVariables getenv rest_port host port qos id
          × (get_info_from_environment_variables getenv st ≡ record {
            success = true;
            state = record st {
              rest_server_port = atoi rest_port;
              mqtt_broker_host = some host;
              mqtt_broker_port = atoi port;
              mqtt_qos = atoi qos;
              monitor_id = some id;
              mqtt_username = some (codes "adeptness");
            };
          }))
unfolding get_info_from_environment_variables
get_info_from_environment_variables-cases getenv st =
    elim (Option-cases (getenv (codes "REST_PORT"))) [
      | inl n₁ ↦ inl (inl n₁, rw n₁)
      | inr (rest_port, s₁) ↦ elim (Option-cases (getenv (codes "MQTT_BROKER_IP"))) [
        | inl n₂ ↦ inl (inr (inl n₂), rw (s₁, n₂))
        | inr (host, s₂) ↦ elim (Option-cases (getenv (codes "MQTT_BROKER_PORT"))) [
          | inl n₃ ↦ inl (inr (inr (inl n₃)), rw (s₁, s₂, n₃))
          | inr (port, s₃) ↦ elim (Option-cases (getenv (codes "MQTT_QOS"))) [
            | inl n₄ ↦ inl (inr (inr (inr (inl n₄))), rw (s₁, s₂, s₃, n₄))
            | inr (qos, s₄) ↦ elim (Option-cases (getenv (codes "SVC_ID"))) [
              | inl n₅ ↦ inl (inr (inr (inr (inr n₅))), rw (s₁, s₂, s₃, s₄, n₅))
              | inr (id, s₅) ↦ inr (
                rest_port,
                host,
                port,
                qos,
                id,
                record {
                  rest_port_set = s₁;
                  host_set = s₂;
                  port_set = s₃;
                  qos_set = s₄;
                  id_set = s₅;
                },
                rw (s₁, s₂, s₃, s₄, s₅),
              )
            ]
          ]
        ]
      ]
    ]
