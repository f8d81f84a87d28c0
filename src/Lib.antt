-- ===== src/Lib.antt =====
-- The CAN monitor: a service that reads CAN frames, keeps the values of configured sensors,
-- publishes them over MQTT, and is set up over HTTP. The sources, and the paths below, are under
-- src/CanMonitor.
--
-- The parts and how they interact. The program keeps two hash tables, of sensors and of groups
-- of sensors, and a few global variables, the status of the monitor among them. An HTTP request
-- goes through a dispatcher (common/rest-server.c) to one of the handlers that
-- common/adeptnessSvc.c registers; the one for the service calls, by way of the callbacks of
-- rest_server/rest_server_impl.c, functions of implementation/impl.c, sensor.c and sensorgroup.c,
-- which read a JSON text and change the tables and the variables. The loop of `main`
-- (CanMonitor.c) restarts MQTT and the HTTP server when a flag asks for it, cuts a frame from the
-- bus into the signals of the sensors that have its identifier, and publishes the groups that are
-- due by the functions of mqtt/.
--
-- Files:
--   Base          the shared helpers: tests, lists, C strings, bit operations, `Outcome`, a
--                 result or `fault`, which stands for undefined behaviour, and `Safe`, a property
--                 of the result if there is one
--   Libc          printing and reading of decimal numbers: snprintf, sscanf("%u"), atoi
--   Tables        implementation/tables: Hash (hash), Defs (the table, generic in its values),
--                 Sensors and Sensorgroups (the functions hts_* and htsg_* and their structs),
--                 Chain, Laws, Methods, Entries (lemmas and theorems), Map, Values and Rewriting
--                 (the table as a finite map, also under loops that write values in place)
--   Frame         CanMonitor.c: Mask (mask_can_frame), Cast (var_cast), Parse
--                 (parse_can_frame), Signal (what the bits of a frame spell), Extract, Sampling
--                 and InPlace (theorems)
--   Service       State (the global variables, create_error_message), Json (the JSON library),
--                 Setup, Connection, Command (implementation/impl.c), Sensors and Removal
--                 (implementation/sensor.c), Groups and GroupRemoval
--                 (implementation/sensorgroup.c), Reads (the three functions of both files that
--                 report on the tables); Sound (the invariant of the tables, and one child for
--                 the handlers of each file), Moves (the steps of the status
--                 and the requests that cause them); the other theorems
--                 are in their children
--   Rest          Url, Server and Upload (common/rest-server.c), Specific, Info and Daemon
--                 (common/adeptnessSvc.c, with the server's life of common/rest-server.c and the
--                 codes of common/errorlist.h), Metrics (common/metrics.c), Callbacks
--                 (rest_server/rest_server_impl.c), Served (all of them put together as the
--                 program runs them), Routing (theorems)
--   Monitor       CanMonitor.c: Arguments (test_arg and the loop over argv), Environment
--                 (get_info_from_*), Publish (the loop over the groups), Loop (the loop of main
--                 and what follows it, can_read of implementation/impl.c), Loop/Start (what
--                 precedes it), Loop/Reach (calls of http_handler, signals and rounds as steps),
--                 Loop/Round and Loop/Total (one round as a whole); Develop and
--                 Print (what is compiled for development: create_dummy_struct, print_*); Payload
--                 (mqtt/mqtt_payload_helpers.c), Mqtt (mqtt/mqtt_utils.c); the theorems are in
--                 their children
--   Tests         the theorems at concrete inputs
--
-- How C is modelled. A function that changes global variables takes the state and returns the
-- new one. A C string is the list of its bytes before the NUL; a pointer that may be NULL is an
-- `Option`. Integers are natural numbers with the wrap-around of their width written out; an
-- `int` is its bit pattern. `char` is signed and the target little-endian (x86-64). Memory that
-- was given to `free` is a value of its own, and using it is `fault`. A write past the end of a
-- buffer goes into a ledger (`overruns`) with the size of the buffer and the number of bytes,
-- and the model goes on. C leaves such a write undefined: that a call returns says that the model
-- does, and what is entered into the ledger is to be read with it. `malloc` succeeds except in the table functions, where flags say
-- whether it does. A call of http_handler is one step, and so is a round of the loop: the code
-- takes no lock around the tables, and runs that overlap are not modelled, nor are requests
-- before the loop.
-- What is handed to the MQTT client is a list of messages.
-- `run_calls` writes out the calls that the HTTP library makes for one request, and Libc the
-- functions of the C library that the code calls; neither is code of this repository.
--
-- Fuel: the loops over arrays recurse on the rounds that are left, the number of which the code
-- fixes before the loop; `decimal` prints n with n + 1 rounds, of which it needs one per digit;
-- the loop over the arguments runs on one round more than there are arguments, and each round
-- takes one at least.
--
-- Parameters: the JSON library with the conversions of `double` (the record `Json`), the texts
-- of a `double` with "%.15f" and "%f"; and what the host says: the environment, whether the
-- configuration file is there and its document, whether the HTTP server starts and the MQTT
-- client connects, the host's address, what the process uses of the host, the frame that is
-- there, and the clock, which is read once for each group.
--
-- Not modelled: the sockets, threads and locks, the MQTT client and the HTTP library,
-- usr_handler and usage, which only print, the build with AUTOSTART, and common/parson.c and
-- common/json.c, which are copies of other projects.
mod Base
pub mod Libc
pub mod Tables
pub mod Frame
pub mod Service
pub mod Rest
pub mod Monitor
mod Tests
