-- ===== src/Ledger/Overlay.antt =====
-- The tables of tasks of ledger/store.ts, against a store in which a task has one status.
pub mod Store
pub mod Refines
