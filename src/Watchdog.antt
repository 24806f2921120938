-- ===== src/Watchdog.antt =====
-- The watchdogs of a guarded session (packages/core-v2/src/guards).
pub mod Decide
pub mod Driver
