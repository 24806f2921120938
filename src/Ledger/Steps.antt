-- ===== src/Ledger/Steps.antt =====
-- That the operations of ledger/store.ts on child edges make only the moves of the state machine.
pub mod Moving
pub mod Claims
pub mod Blocks
pub mod Evidence
pub mod Settles
pub mod Delivers
