-- ===== src/Rest.antt =====
-- The HTTP side: common/rest-server.c, common/adeptnessSvc.c and rest_server/rest_server_impl.c of
-- src/CanMonitor.
pub mod Url
pub mod Server
pub mod Specific
pub mod Routing
pub mod Callbacks
pub mod Served
pub mod Upload
pub mod Daemon
pub mod Metrics
pub mod Info
