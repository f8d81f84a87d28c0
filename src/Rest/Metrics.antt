-- ===== src/Rest/Metrics.antt =====
-- `adeptness_handler_metrics` of src/CanMonitor/common/metrics.c.
use can_monitor.Base.{ℕ, ◌+◌, ◌%◌, ◌^◌, List, Bytes, Option, none, some, true, codes, Outcome, done}
use can_monitor.Rest.Server.{HttpReply, http_ok}
use can_monitor.Service.Json.{Json}
use can_monitor.Service.Sensors.{QueryPair}
use can_monitor.Service.State.{State}

-- What the host says of the process: three fields of `mallinfo`, as bit patterns of `int`; the
-- load in percent of a processor, where `getloadavg` has one sample; the time and its share of
-- the time since the start, where `getrusage` succeeds. The quotients are computed in `double`;
-- the sum of two fields is taken to wrap around.
pub record Usage (json : Json) : Type 0 where
  pub uordblks : ℕ
  pub arena : ℕ
  pub hblkhd : ℕ
  pub load : Option (Json.Number json)
  pub times : Option (Json.Number json × Json.Number json)

module _ (json : Json) (usage : Usage json) where
  open json use {
    Value, Number, json_value_init_object, json_object_set_number, json_object_set_value,
    json_serialize_to_string, of_int,
  }

  abbrev memory_document : Value
  memory_document =
      json_object_set_number
        (json_object_set_number json_value_init_object (codes "alloc") (of_int usage.uordblks))
        (codes "total-alloc") (of_int ((usage.arena + usage.hblkhd) % 2 ^ 32))

  unfoldable pub add_load : Option Number → Value → Value
  add_load none obj = obj
  add_load (some load) obj = json_object_set_number obj (codes "cpu-load-avg") load

  unfoldable pub add_times : Option (Number × Number) → Value → Value
  add_times none obj = obj
  add_times (some (cputime, share)) obj =
      json_object_set_number (json_object_set_number obj (codes "cpu-time") cputime)
        (codes "cpu-avg-usage") share

  unfoldable pub adeptness_handler_metrics :
      Bytes → ℕ → List QueryPair → Option Bytes → State → Outcome (HttpReply × State)
  unfolding add_load add_times
  adeptness_handler_metrics url method queries upload st =
      let obj = json_object_set_value json_value_init_object (codes "memory") memory_document in
      let document = add_times usage.times (add_load usage.load obj) in
      done (
        record { status = http_ok; body = some (json_serialize_to_string document); json = true },
        st,
      )
