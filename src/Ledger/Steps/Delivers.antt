-- ===== src/Ledger/Steps/Delivers.antt =====
-- The delivery of a settlement, against the state machine.
pub mod Begins
pub mod Acknowledges
