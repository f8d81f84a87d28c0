-- ===== src/Tests/Development.antt =====
-- The theorem on printing for development, with a sensor and a group in the tables.
use can_monitor.Base.{[], Bytes, Gives}
use can_monitor.Monitor.Print.Total.{print_struct-Gives}
use can_monitor.Monitor.Print.{print_struct}
use can_monitor.Tables.Sensorgroups.{Timeval}
use can_monitor.Tests.Requests.{filled, sensors_table, groups_table, all-IsRoomy}
use can_monitor.Base.{refl}

abbrev no_seconds : Timeval → Bytes
no_seconds time = []

print_struct-Gives_example : Gives (print_struct no_seconds filled)
print_struct-Gives_example =
    print_struct-Gives no_seconds filled refl refl sensors_table.2 groups_table.2 all-IsRoomy
