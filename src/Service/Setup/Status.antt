-- ===== src/Service/Setup/Status.antt =====
-- The set-up does not disturb a running monitor.
use can_monitor.Base.{Bytes, done, ◌≡◌, arith}
use can_monitor.Service.Json.{Json}
use can_monitor.Service.Setup.{update_microservice_configuration}
use can_monitor.Service.State.{State, Reply}

-- The status, the tables and the CAN connection are as they were.
pub record Undisturbed (st st' : State) : Type 0 where
  pub status : st'.status ≡ st.status
  pub sensors_table : st'.sensors_table ≡ st.sensors_table
  pub sensorgroup_table : st'.sensorgroup_table ≡ st.sensorgroup_table
  pub can_up : st'.can_up ≡ st.can_up
  pub can_conf_id : st'.can_conf_id ≡ st.can_conf_id
  pub canport : st'.canport ≡ st.canport
  pub bitrate : st'.bitrate ≡ st.bitrate

-- A set-up request that returns leaves the status, the two tables and the CAN connection as they
-- were.
pub update_microservice_configuration-Undisturbed :
    (json : Json) (values : Bytes) (st : State) (r : Reply)
    → update_microservice_configuration json values st ≡ done r
    → Undisturbed st r.state
unfolding update_microservice_configuration
update_microservice_configuration-Undisturbed json values st r h = ground arith
