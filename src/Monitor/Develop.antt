-- ===== src/Monitor/Develop.antt =====
-- The data of `create_dummy_struct` of src/CanMonitor/CanMonitor.c, which is compiled when DEV is not
-- 0, and its place in `main`.
use can_monitor.Base.{ℕ, ◌*◌, [], ◌∷◌, ◌++◌, Bytes, true, codes, Outcome, done, ◌>>=◌}
use can_monitor.Service.State.{State, MsStatus}
use can_monitor.Tables.Sensorgroups.{Sensorgroup, Timeval, htsg_put}
use can_monitor.Tables.Sensors.{Sensor, hts_put}
use can_monitor.Monitor.Print.{print_struct}

-- The sensor of a number, whose digit is given.
abbrev pub dummy_sensor : Bytes → ℕ → Sensor
dummy_sensor digit n = record {
  id = codes "id_" ++ digit;
  name = codes "Name_" ++ digit;
  type = codes "Uint8";
  can_id = n;
  init_bit = n;
  end_bit = n * 10;
  sampling_rate = n;
  value = codes "Value_" ++ digit;
  timestamp = n * 11111111111;
}

abbrev pub first_group : Sensorgroup
first_group = record {
  id = codes "id_11";
  publish_rate = 11000;
  sensorcount = 1;
  sensor_list = codes "id_3" ∷ [];
  last_publish_time = record { tv_sec = 0; tv_usec = 0 };
}

abbrev pub second_group : Sensorgroup
second_group = record {
  id = codes "id_22";
  publish_rate = 5000;
  sensorcount = 2;
  sensor_list = codes "id_4" ∷ (codes "id_5" ∷ []);
  last_publish_time = record { tv_sec = 0; tv_usec = 0 };
}

unfoldable pub place_sensor : Sensor → State → Outcome State
unfolding hts_put
place_sensor s st =
    hts_put true st.sensors_table s.id s >>= λ r. done (record st { sensors_table = r.1 })

unfoldable pub place_group : Sensorgroup → State → Outcome State
unfolding htsg_put
place_group sg st = htsg_put true st.sensorgroup_table sg.id sg >>= λ r.
    done (record st { sensorgroup_table = r.1 })

unfoldable pub create_dummy_struct : State → Outcome State
unfolding place_sensor place_group
create_dummy_struct st =
    place_sensor (dummy_sensor (codes "1") 1) st
    >>= place_sensor (dummy_sensor (codes "2") 2)
    >>= place_sensor (dummy_sensor (codes "3") 3)
    >>= place_group first_group
    >>= place_sensor (dummy_sensor (codes "4") 4)
    >>= place_sensor (dummy_sensor (codes "5") 5)
    >>= place_group second_group

-- `print_seconds` is that of `print_struct`.
module _ (print_seconds : Timeval → Bytes) where
  -- What `main` does before its loop.
  unfoldable pub develop : State → Outcome (State × Bytes)
  unfolding create_dummy_struct print_struct
  develop st = create_dummy_struct st >>= λ filled. print_struct print_seconds filled >>= λ text.
      done (record filled { status = MsStatus.configured }, text)
