-- ===== src/Tests.antt =====
-- Runs at fixed inputs, and each theorem with hypotheses at an input that meets them.
mod Text
mod Database
mod Diagnostics
mod Messages
mod Pools
mod Workers
mod Calls
mod Lifecycle
mod Services
mod Startup
