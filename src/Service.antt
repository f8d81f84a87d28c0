-- ===== src/Service.antt =====
-- The service behind the REST interface: src/CanMonitor/implementation.
pub mod Json
pub mod State
pub mod Command
pub mod Setup
pub mod Connection
pub mod Sensors
pub mod Removal
pub mod Groups
pub mod GroupRemoval
pub mod Reads
pub mod Sound
pub mod Moves
