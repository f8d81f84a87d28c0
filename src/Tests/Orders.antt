-- ===== src/Tests/Orders.antt =====
-- The theorems on commands, on the set-up, on the connection and on error messages.
use can_monitor.Service.Connection.{
  take_down, configure_connection, connection_settings, connection_done,
  update_connection_configuration,
}
use can_monitor.Libc.Decimal.{signed_decimal}
use can_monitor.Base.{◌+◌, ◌∷◌, Bytes, some, codes, str_eq, length, done, fault, ◌≡◌, refl}
use can_monitor.Service.Command.Transitions.{Executed, cmd_execute_configuration-Executed}
use can_monitor.Service.Command.{cmd_execute_configuration}
use can_monitor.Service.Connection.Laws.{
  IsUp, IsBroken, update_connection_configuration-IsUp, update_connection_configuration-broken,
}
use can_monitor.Service.State.Overruns.{create_error_message-overruns}
use can_monitor.Service.State.{MsStatus, Response, Reply, create_error_message, succeed}
use can_monitor.Tests.Documents.{json_of, object}
use can_monitor.Tests.Examples.{fresh, start_order, good_connection, bad_connection}

abbrev now_running : Reply
now_running = succeed (record fresh { status = MsStatus.running })

start_runs : cmd_execute_configuration (json_of start_order) (codes "{") fresh ≡ done now_running
unfolding cmd_execute_configuration str_eq
start_runs = refl

cmd_execute_configuration-Executed_example : Executed (json_of start_order) fresh now_running
cmd_execute_configuration-Executed_example =
    cmd_execute_configuration-Executed (json_of start_order) (codes "{") fresh now_running
      start_runs

abbrev port_set : Reply
port_set = succeed (record fresh { rest_server_port = 80; restart_http = 1 })

abbrev connected : Reply
connected = record {
  response = Response.ok;
  text = codes "{";
  state = record fresh { can_conf_id = some (codes "c") };
}

connection_runs :
    update_connection_configuration (json_of good_connection) (codes "{") fresh ≡ done connected
unfolding update_connection_configuration str_eq signed_decimal take_down configure_connection
    connection_settings connection_done
connection_runs = refl

update_connection_configuration-IsUp_example : IsUp connected.state
update_connection_configuration-IsUp_example =
    update_connection_configuration-IsUp (json_of good_connection) (codes "{") fresh connected
      connection_runs refl

bad_connection-IsBroken : IsBroken (json_of bad_connection) (codes "{") (codes "c")
unfolding str_eq
bad_connection-IsBroken = record {
  keys = (refl, refl, refl);
  texts = (refl, refl);
  settings = (refl, refl);
}

update_connection_configuration-broken_example :
    (r : Reply) × (update_connection_configuration (json_of bad_connection) (codes "{") fresh
      ≡ done r)
    × (r.response ≡ Response.error)
    × ((again : Bytes)
        → update_connection_configuration (json_of bad_connection) again r.state ≡ fault)
update_connection_configuration-broken_example =
    update_connection_configuration-broken (json_of bad_connection) bad_connection-IsBroken fresh
      (codes "can0") refl refl

create_error_message-overruns_example :
    let r = create_error_message (json_of object) (codes "Unknown order.") fresh in
    (r.response ≡ Response.error)
    × (r.state ≡ record fresh {
      overruns = record { capacity = length r.text; written = length r.text + 1 } ∷ fresh.overruns;
    })
create_error_message-overruns_example =
    create_error_message-overruns (json_of object) (codes "Unknown order.") fresh
