-- ===== src/Continuation/Budget.antt =====
-- That what continuation/pruner.ts keeps is within the budget, or a single entry.
pub mod Costs
pub mod Scored
pub mod Fits
