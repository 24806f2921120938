-- ===== src/Ledger.antt =====
-- packages/core-v2/src/ledger/store.ts: the tables of tasks, child edges and terminal settlements.
pub mod Tables
pub mod Rows
pub mod Tasks
pub mod Children
pub mod Artifacts
pub mod Outbox
pub mod Settlement
pub mod Delivery
pub mod View
pub mod Machine
pub mod Steps
pub mod Runs
pub mod Delivered
pub mod Acknowledged
pub mod Claims
pub mod Overlay
pub mod Refusals
pub mod Boot
pub mod Restart
mod Examples
