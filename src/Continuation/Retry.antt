-- ===== src/Continuation/Retry.antt =====
-- What a retry of continuation/pruner.ts leaves out.
pub mod Indices
pub mod Oldest
