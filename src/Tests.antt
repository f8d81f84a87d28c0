-- ===== src/Tests.antt =====
-- The theorems at concrete inputs.
mod Documents
mod Examples
mod Histories
mod Frames
mod Requests
mod Routes
mod Lives
mod Orders
mod Publishing
mod Startup
mod Subscriptions
mod Rounds
mod Removals
mod Calls
mod Development
mod Naming
