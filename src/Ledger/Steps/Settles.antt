-- ===== src/Ledger/Steps/Settles.antt =====
-- The settlement of a child edge, against the state machine.
pub mod Statements
pub mod Settled
