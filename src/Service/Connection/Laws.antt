-- ===== src/Service/Connection/Laws.antt =====
-- The CAN connection after an update.
use can_monitor.Service.State.{log_copy, State, Response, Reply, create_error_message}
use can_monitor.Base.{
  ◌++◌, str_eq_refl, Bytes, none, some, true, codes, done, fault, >>=-eq-done, ◌≡◌, ◌≢◌, refl, ◌∙◌,
  arith,
}
use can_monitor.Service.Connection.{
  Loop, connection_settings, connection_done, take_down, configure_connection,
  update_connection_configuration,
}
use can_monitor.Service.Json.{Json, is_some}

-- The interface is configured and counted as up.
pub record IsUp (st : State) : Type 0 where
  pub port : st.canport ≢ none
  pub rate : st.bitrate ≢ 0
  pub up : st.can_up ≡ 1

module _ (json : Json) where
  done-IsUp :
      (values : Bytes) (l : Loop State)
      → (connection_done json values l).response ≡ Response.ok
      → IsUp (connection_done json values l).state
  unfolding connection_done
  done-IsUp values l h = ground arith

  configure-IsUp :
      (values : Bytes) (st : State) (r : Reply)
      → configure_connection json values st ≡ done r
      → r.response ≡ Response.ok
      → IsUp r.state
  unfolding configure_connection
  configure-IsUp values st r h o = grind (arith, done-IsUp)

  -- A connection update that is answered OK has set a port and a bit rate that is not 0, and the
  -- interface counts as up.
  pub update_connection_configuration-IsUp :
      (values : Bytes) (st : State) (r : Reply)
      → update_connection_configuration json values st ≡ done r
      → r.response ≡ Response.ok
      → IsUp r.state
  unfolding update_connection_configuration
  update_connection_configuration-IsUp values st r h o =
      let (st', e, e') = >>=-eq-done (take_down json st) (configure_connection json values) h in
      configure-IsUp values st' r e' o

  -- While the interface counts as up and has no port, every update is undefined.
  pub update_connection_configuration-no_port :
      (values : Bytes) (st : State)
      → st.can_up ≡ 1
      → st.canport ≡ none
      → update_connection_configuration json values st ≡ fault
  unfolding update_connection_configuration take_down
  update_connection_configuration-no_port values st up none_port = ground arith

  -- A request with the right keys and type and two settings, the first of which has no key.
  pub record IsBroken (values id : Bytes) : Type 0 where
    pub keys :
        let jobj = json.json_value_get_object (json.json_parse_string values) in
        (is_some (json.json_object_get_value jobj (codes "id")) ≡ true)
        × (is_some (json.json_object_get_value jobj (codes "monitor-agent-type")) ≡ true)
        × (is_some (json.json_object_get_value jobj (codes "connection-settings")) ≡ true)
    pub texts :
        let jobj = json.json_value_get_object (json.json_parse_string values) in
        (json.json_object_get_string jobj (codes "id") ≡ some id)
        × (json.json_object_get_string jobj (codes "monitor-agent-type") ≡ some (codes "can"))
    pub settings :
        let jobj = json.json_value_get_object (json.json_parse_string values) in
        let a = json.json_object_get_array jobj (codes "connection-settings") in
        let first = json.json_value_get_object (json.json_array_get_value a 0) in
        (json.json_array_get_count a ≡ 2) × (json.json_object_get_value first (codes "key") ≡ none)

  broken_update :
      {values id : Bytes}
      → IsBroken values id
      → (st : State)
      → configure_connection json values st
        ≡ done (
            create_error_message json
              (codes "The CAN configuration is not valid")
              (record st { can_conf_id = some id; canport = none; bitrate = 0 }))
  unfolding configure_connection connection_settings connection_done
  broken_update b st =
      let (k₁, k₂, k₃) = b.keys in
      rw (k₁, k₂, k₃, b.texts.0, b.texts.1, str_eq_refl (codes "can"), b.settings.0, b.settings.1)

  taken_down :
      (st : State) (port : Bytes)
      → st.can_up ≡ 1
      → st.canport ≡ some port
      → take_down json st
        ≡ done (log_copy 80 (codes "ip link set " ++ (port ++ codes " down type can")) st)
  unfolding take_down
  taken_down st port up at = ground arith

  after_take_down :
      (values : Bytes) (st st' : State)
      → take_down json st ≡ done st'
      → update_connection_configuration json values st ≡ configure_connection json values st'
  unfolding update_connection_configuration
  after_take_down values st st' e = rw e

  -- On a connection that is up and has a port, a request with the right keys and type and with two
  -- settings, the first of which has no key, is answered with an error, and every later update is
  -- undefined.
  pub update_connection_configuration-broken :
      {values id : Bytes}
      → IsBroken values id
      → (st : State) (port : Bytes) → st.can_up ≡ 1
      → st.canport ≡ some port
      → (r : Reply) × (update_connection_configuration json values st ≡ done r)
        × (r.response ≡ Response.error)
        × ((again : Bytes) → update_connection_configuration json again r.state ≡ fault)
  unfolding create_error_message
  update_connection_configuration-broken {values} {id} b st port up at =
      let down = log_copy 80 (codes "ip link set " ++ (port ++ codes " down type can")) st in
      let forgotten = record down { can_conf_id = some id; canport = none; bitrate = 0 } in
      (
        create_error_message json (codes "The CAN configuration is not valid") forgotten,
        after_take_down values st down (taken_down st port up at) ∙ broken_update b down,
        refl,
        λ again. update_connection_configuration-no_port again _ up refl,
      )
