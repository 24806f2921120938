-- ===== src/Continuation/Kept.antt =====
-- That continuation/pruner.ts always keeps an entry.
pub mod Indices
pub mod Enforced
pub mod Always
