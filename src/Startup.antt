-- ===== src/Startup.antt =====
-- The servers around the calls that they serve: the port that they are given, and how they end.
pub mod Port
pub mod Watcher
