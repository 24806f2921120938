-- ===== src/Workflow/Scheduler/Calls.antt =====
-- packages/core-v2/src/workflow/scheduler.ts: how often each node is called.
pub mod Counts
pub mod Rounds
pub mod Once
