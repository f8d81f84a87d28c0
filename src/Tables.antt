-- ===== src/Tables.antt =====
-- The hash tables of src/CanMonitor/implementation/tables.
pub mod Hash
pub mod Defs
pub mod Chain
pub mod Laws
pub mod Methods
pub mod Map
pub mod Entries
pub mod Values
pub mod Rewriting
pub mod Sensors
pub mod Sensorgroups
