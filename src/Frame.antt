-- ===== src/Frame.antt =====
-- CAN frames: src/CanMonitor/CanMonitor.c.
pub mod Mask
pub mod Signal
pub mod Extract
pub mod Cast
pub mod Parse
pub mod Sampling
pub mod InPlace
