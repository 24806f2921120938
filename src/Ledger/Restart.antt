-- ===== src/Ledger/Restart.antt =====
-- The boot of ledger/store.ts: what it makes of every task.
pub mod Decisions
pub mod Loop
pub mod Boots
pub mod Owners
