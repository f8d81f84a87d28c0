-- ===== src/Tests/Rounds.antt =====
-- The theorems on a round of the loop, with a frame for the one sensor and a group that is due.
use can_monitor.Service.State.Ledger.{Grown}
use can_monitor.Base.{List, [], ◌∷◌, Bytes, some, codes, done, ◌≡◌, refl, arith}
use can_monitor.Frame.Extract.{IsFrame}
use can_monitor.Frame.Mask.{CanFrame}
use can_monitor.Frame.Sampling.{sampled, Readable}
use can_monitor.Monitor.Loop.Round.{framed}
use can_monitor.Monitor.Loop.Total.{round-returns}
use can_monitor.Monitor.Loop.{World, Main, on, round}
use can_monitor.Monitor.Mqtt.{Message}
use can_monitor.Rest.Server.{Handler}
use can_monitor.Service.State.{State, MsStatus}
use can_monitor.Tables.Sensors.{Sensor}
use can_monitor.Tests.Examples.{speed, frame}
use can_monitor.Tests.Frames.{frame-IsFrame}
use can_monitor.Tests.Publishing.{
  json, subscribed, clock, groups, group_cell-Represents, groups-IsReady,
}
use can_monitor.Tests.Startup.{world, running_service, echo, print_nothing}
use can_monitor.Tests.Subscriptions.{sensors, sensor_cell-Represents}
use mathlib.Core.Option
use mathlib.Core.Path.{subst}

abbrev handlers : List (Handler State)
handlers = echo ∷ []

abbrev monitoring : Main
monitoring = record {
  state = record subscribed { status = MsStatus.running };
  service = running_service;
  svcname = codes "bus";
}

abbrev listening : World
listening = record world { received = some frame; time = 1700000000; clock = clock }

abbrev masked_frame : CanFrame
masked_frame = framed json print_nothing handlers frame

masked-IsFrame : IsFrame masked_frame
masked-IsFrame = record {
  short = frame-IsFrame.short;
  room = frame-IsFrame.room;
  all_bytes = frame-IsFrame.all_bytes;
}

speed-Readable : Readable print_nothing masked_frame 1700000000 speed
speed-Readable same = (omega arith, omega arith, omega arith, λ e. cc)

all-Readable :
    (q : Bytes) (s : Sensor) → sensors q ≡ some s → Readable print_nothing masked_frame 1700000000 s
all-Readable q s h =
    let same : speed ≡ s = ground arith in
    subst (λ v. Readable print_nothing masked_frame 1700000000 v) same speed-Readable

abbrev new : Sensor → Sensor
new = sampled print_nothing masked_frame 1700000000

-- MQTT and HTTP are started anew in the round.
abbrev restarting : Main
restarting = record monitoring {
  state = record monitoring.state {
    mqtt_broker_host = some (codes "h");
    restart_mqtt = 1;
    restart_http = 1;
  };
}

round-returns_example :
    (m' : Main) × (messages : List Message) × (round json print_nothing handlers listening
        restarting
      ≡ done (on m' messages))
    × Grown restarting.state m'.state
round-returns_example =
    round-returns json print_nothing handlers listening restarting sensors groups refl
      sensor_cell-Represents refl group_cell-Represents
      (λ wanted. ((λ e. cc), (λ e. cc), (λ e. cc))) (λ wanted. ((λ e. cc), (λ e. cc), refl))
      (λ f received active.
        let same : frame ≡ f = ground arith in
        subst
          (λ v.
            IsFrame (framed json print_nothing handlers v)
            × ((q : Bytes) (s : Sensor)
                → sensors q ≡ some s
                → Readable print_nothing (framed json print_nothing handlers v) 1700000000 s))
          same (masked-IsFrame, all-Readable))
      (λ runs. ((λ e. cc), groups-IsReady))
