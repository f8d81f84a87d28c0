-- ===== src/Monitor/Mqtt.antt =====
-- src/CanMonitor/mqtt/mqtt_utils.c. The client is a library: whether it connects is given, and
-- what is published is a message.
use can_monitor.Base.{ℕ, ◌+◌, ◌++◌, Bytes, Bool, codes, length, if◌then◌else◌, Outcome, done, ◌>>=◌}
use can_monitor.Libc.Decimal.{signed_decimal}
use can_monitor.Service.Json.{deref}
use can_monitor.Service.State.{State, log_copy}

-- `MQTTClient_message` and its topic; the payload goes out with its NUL.
pub record Message : Type 0 where
  pub topic : Bytes
  pub payload : Bytes
  pub payloadlen : ℕ
  pub qos : ℕ

abbrev pub publish : State → Bytes → Bytes → Message
publish st topic payload = record {
  topic = topic;
  payload = payload;
  payloadlen = length payload + 1;
  qos = st.mqtt_qos;
}

-- The callback of the client for a lost connection.
unfoldable pub connlost : State → State
connlost st = record st { restart_mqtt = 1 }

-- `char mqtt_host[100]`; the flag says whether `MQTTClient_connect` succeeds. The arguments that
-- the callers give are the global variables.
unfoldable pub initialize_mqtt : Bool → State → Outcome State
unfolding signed_decimal
initialize_mqtt connected st = deref st.mqtt_broker_host >>= λ host.
    let address =
      codes "tcp://" ++ (host ++ (codes ":" ++ signed_decimal 32 st.mqtt_broker_port)) in
    let st' = log_copy 100 address st in
    done (if connected then record st' { restart_mqtt = 0 } else st')
