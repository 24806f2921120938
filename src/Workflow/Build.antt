-- ===== src/Workflow/Build.antt =====
-- packages/core-v2/src/workflow/build.ts: the gate, synthesis, and the scheduler. The rounds of the
-- scheduler take fuel; `none` stands for a build that has not ended after so many.
pub mod Gated
pub mod Examples
use Prim.Native.String.{◌++◌ as ◌<>◌}
use pi_task.Common.{ℕ, String, Bool, Option, none, some, List, Result, returns, throws, ◌>>=◌}
use pi_task.Workflow.Dag.{DagNode, DagSynthesisError, SynthesizedDag, synthesize_dag}
use pi_task.Workflow.Gate.{Approvals, GateError, gate_error, require_plan_approved}
use pi_task.Workflow.Scheduler.{Number, NodeOutcome, Schedule, schedule_dag}

-- What a build throws: `BuildGateError`, or what synthesis throws.
pub data BuildError : Type 0 where
  build_gate_error : (dag_id message : String) → BuildError
  synthesis_error : DagSynthesisError → BuildError

pub record RunBuildOptions : Type 0 where
  pub dag_id : String
  pub nodes : List DagNode
  pub store : Approvals
  pub run_node : String → NodeOutcome
  pub max_parallel : Option Number
  pub gateway : Bool

-- The error of the gate, wrapped.
abbrev pub as_refusal : String → Result GateError Unit → Result BuildError Unit
as_refusal dag_id (returns u) = returns u
as_refusal dag_id (throws (gate_error detail)) =
    throws
      (build_gate_error dag_id ("build refused for workflow \"" <> (dag_id <> ("\": " <> detail))))

pub pass_gate : RunBuildOptions → Result BuildError Unit
pass_gate options = as_refusal options.dag_id (require_plan_approved options.store options.dag_id)

abbrev pub as_build : {A : Type 0} → Result DagSynthesisError A → Result BuildError A
as_build (returns a) = returns a
as_build (throws e) = throws (synthesis_error e)

pub synthesis : List DagNode → Result BuildError SynthesizedDag
synthesis nodes = as_build (synthesize_dag nodes none)

pub run_build : RunBuildOptions → (fuel : ℕ) → Result BuildError (Option Schedule)
run_build options fuel = pass_gate options >>= λ _. synthesis options.nodes >>= λ dag. returns (
    schedule_dag
      (record {
        dag = dag;
        run_node = options.run_node;
        max_parallel = options.max_parallel;
        gateway = options.gateway;
      })
      fuel)
