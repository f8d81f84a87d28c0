-- ===== src/Rest/Callbacks/Reading.antt =====
-- A GET reads.
use can_monitor.Base.{List, [], ◌∷◌, Bytes, done, ◌≡◌, arith}
use can_monitor.Rest.Callbacks.{get_handler}
use can_monitor.Service.Command.{read_monitoring_agent_status}
use can_monitor.Service.Connection.{read_connection_configuration}
use can_monitor.Service.Json.{Json}
use can_monitor.Service.Reads.{
  read_sensors_configuration, read_sensor_measurements, read_sensorgroups_subscription,
  read_one_measurement,
}
use can_monitor.Service.Sensors.{QueryPair}
use can_monitor.Service.State.{State, Reply}

-- Only the ledger may have grown.
abbrev pub OnlyLedger : State → State → Type 0
OnlyLedger st st' = st' ≡ record st { overruns = st'.overruns }

module _ (json : Json) (st : State) (r : Reply) where
  connection-OnlyLedger : read_connection_configuration json st ≡ done r → OnlyLedger st r.state
  unfolding read_connection_configuration
  connection-OnlyLedger h = ground arith

  sensors-OnlyLedger : read_sensors_configuration json st ≡ done r → OnlyLedger st r.state
  unfolding read_sensors_configuration
  sensors-OnlyLedger h = ground arith

  groups-OnlyLedger : read_sensorgroups_subscription json st ≡ done r → OnlyLedger st r.state
  unfolding read_sensorgroups_subscription
  groups-OnlyLedger h = ground arith

  measurement-OnlyLedger :
      (id : Bytes) → read_one_measurement json id st ≡ done r → OnlyLedger st r.state
  unfolding read_one_measurement
  measurement-OnlyLedger id h = ground arith

  measurements-OnlyLedger :
      (qs : List QueryPair) → read_sensor_measurements json qs st ≡ done r → OnlyLedger st r.state
  unfolding read_sensor_measurements
  measurements-OnlyLedger [] h = ground arith
  measurements-OnlyLedger (q ∷ []) h = ground (arith, measurement-OnlyLedger q.value)
  measurements-OnlyLedger (q ∷ q' ∷ qs) h = ground arith

  status-OnlyLedger : done (read_monitoring_agent_status json st) ≡ done r → OnlyLedger st r.state
  unfolding read_monitoring_agent_status
  status-OnlyLedger h = ground arith

  -- A GET that returns, for any URL and queries, changes nothing but the ledger of overruns.
  pub get_handler-OnlyLedger :
      (url : Bytes) (queries : List QueryPair)
      → get_handler json url queries st ≡ done r
      → OnlyLedger st r.state
  unfolding get_handler
  get_handler-OnlyLedger url queries h = ground (
    arith,
    connection-OnlyLedger,
    sensors-OnlyLedger,
    groups-OnlyLedger,
    status-OnlyLedger,
    measurements-OnlyLedger queries,
  )
