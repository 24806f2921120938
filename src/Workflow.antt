-- ===== src/Workflow.antt =====
-- The plan workflow (packages/core-v2/src/workflow).
pub mod Plan
pub mod Dag
pub mod Scheduler
pub mod Gate
pub mod Build
