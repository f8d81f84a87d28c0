-- ===== src/Monitor.antt =====
-- The program around the service: `main` of src/CanMonitor/CanMonitor.c, and src/CanMonitor/mqtt.
pub mod Arguments
pub mod Environment
pub mod Payload
pub mod Mqtt
pub mod Publish
pub mod Loop
pub mod Print
pub mod Develop
