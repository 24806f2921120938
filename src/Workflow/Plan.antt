-- ===== src/Workflow/Plan.antt =====
-- packages/core-v2/src/workflow/plan.ts
use pi_task.Common.{String, List}

-- The parsed and validated shape that synthesis and scheduling read.
pub record ValidatedSpec : Type 0 where
  pub goal : String
  pub requirements : List String
  pub verification_commands : List String
  pub depends_on : List String
