-- ===== src/Tests/Publishing.antt =====
-- The theorems on publishing, with one group that is due and one sensor in it.
use can_monitor.Base.{
  List, [], ◌∷◌, Bytes, Option, none, some, true, Bool-cases, codes, str_eq, done, ◌≡◌, ◌≢◌, inl,
  inr, refl, sym, arith,
}
use can_monitor.Monitor.Publish.Pass.{IsReady}
use can_monitor.Libc.Decimal.{decimal}
use can_monitor.Rest.Callbacks.{delete_handler}
use can_monitor.Service.Json.{Json}
use can_monitor.Service.Reads.Listing.{listing, values_of, read_sensors_configuration-entries}
use can_monitor.Service.Reads.{read_sensors_configuration, sensor_document}
use can_monitor.Service.Removal.Deletion.{IsRoomy, by_id}
use can_monitor.Service.Sound.Total.{Returns, delete_handler-Returns}
use can_monitor.Service.Sound.{IsSound}
use can_monitor.Tables.Sensors.{Sensor}
use can_monitor.Service.State.{State, Response}
use can_monitor.Tables.Defs.{live, Table, create, put}
use can_monitor.Tables.Entries.{entries}
use can_monitor.Tables.Hash.{hash}
use can_monitor.Tables.Map.{Represents, with_key, put_op, run_ops, map_ops}
use can_monitor.Tables.Sensorgroups.{Sensorgroup, Timeval}
use can_monitor.Tests.Documents.{json_of, object}
use can_monitor.Tests.Examples.{group, fresh}
use can_monitor.Tests.Subscriptions.{
  made, sensors, sensor_cell, sensor_cell-Represents, represented,
}
use mathlib.Core.List.{Memᴰ}
use mathlib.Core.Option

abbrev pub json : Json
json = json_of object

abbrev motor : Sensorgroup
motor = record group { sensorcount = 1; sensor_list = codes "speed" ∷ [] }

abbrev pub groups : Bytes → Option Sensorgroup
groups = with_key (λ q. none) (codes "motor") motor

abbrev pub group_cell : Table Sensorgroup
group_cell = record {
  size = 1;
  array = (record { key = codes "motor"; slot = live motor } ∷ []) ∷ [];
}

run_ops-groups : run_ops (put_op (codes "motor") motor ∷ []) (create 1 true true) ≡ made group_cell
unfolding run_ops create put hash
run_ops-groups = refl

groups-map_ops : map_ops (put_op (codes "motor") motor ∷ []) (λ q. none) ≡ some groups
unfolding map_ops str_eq
groups-map_ops = refl

pub group_cell-Represents : Represents group_cell groups
group_cell-Represents =
    represented (put_op (codes "motor") motor ∷ []) groups group_cell groups-map_ops run_ops-groups

abbrev pub subscribed : State
subscribed = record fresh { sensors_table = some sensor_cell; sensorgroup_table = some group_cell }

abbrev pub clock : Bytes → Timeval
clock id = record { tv_sec = 100; tv_usec = 0 }

sensors-speed : sensors (codes "speed") ≢ none
unfolding str_eq
sensors-speed e = cc

motor-IsReady : IsReady json clock sensors motor
motor-IsReady late = (omega arith, (sensors-speed, tt))

pub groups-IsReady :
    (q : Bytes) (sg : Sensorgroup) → groups q ≡ some sg → IsReady json clock sensors sg
groups-IsReady q sg e = elim (Bool-cases (str_eq (codes "motor") q)) [
  | inl same ↦ let here : motor ≡ sg = ground arith in rw (sym here) motor-IsReady
  | inr other ↦ absurd (ground arith)
]

groups-IsRoomy : (q : Bytes) (sg : Sensorgroup) → groups q ≡ some sg → IsRoomy sg
groups-IsRoomy q sg e = elim (Bool-cases (str_eq (codes "motor") q)) [
  | inl same ↦
      let here : motor ≡ sg = ground arith in
      let room : IsRoomy motor = omega arith in rw (sym here) room
  | inr other ↦ absurd (ground arith)
]

subscribed-IsSound : IsSound subscribed
subscribed-IsSound = record {
  sensors = record { t = sensor_cell; f = sensors; at = refl; represents = sensor_cell-Represents };
  groups = record {
    u = group_cell;
    g = groups;
    at = refl;
    represents = group_cell-Represents;
    roomy = groups-IsRoomy;
  };
}

delete_handler-Returns_example : Returns subscribed (
    delete_handler json
      (codes "monitoring-agent/config/sensors")
      (by_id (codes "speed"))
      subscribed)
delete_handler-Returns_example =
    delete_handler-Returns json (codes "monitoring-agent/config/sensors") (by_id (codes "speed"))
      subscribed subscribed-IsSound

read_sensors_configuration-entries_example :
    (read_sensors_configuration json subscribed
      ≡ done (record {
        response = Response.ok;
        text = json.json_serialize_to_string (
            listing json
              (sensor_document json decimal)
              (values_of (entries sensor_cell))
              json.json_value_init_array);
        state = subscribed;
      }))
    × ((q : Bytes) (s : Sensor) → sensors q ≡ some s → Memᴰ s (values_of (entries sensor_cell)))
read_sensors_configuration-entries_example =
    read_sensors_configuration-entries json subscribed sensor_cell sensors refl
      sensor_cell-Represents
