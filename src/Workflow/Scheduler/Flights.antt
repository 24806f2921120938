-- ===== src/Workflow/Scheduler/Flights.antt =====
-- packages/core-v2/src/workflow/scheduler.ts: how many nodes are in flight at a time.
pub mod Chunks
pub mod Steps
pub mod Bounded
