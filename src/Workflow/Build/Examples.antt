-- ===== src/Workflow/Build/Examples.antt =====
-- Runs of packages/core-v2/src/workflow/build.ts at a plan of three nodes.
use pi_task.Common.{
  String, ◌≡◌, refl, true, false, none, some, [], arith, contains, lookup, put, returns, str_eq,
  if◌then◌else◌,
}
use pi_task.Workflow.Dag.{SynthesizedDag, synthesize_dag}
use pi_task.Workflow.Dag.Edges.{ids}
use pi_task.Workflow.Dag.Examples.{three, three-IsPlan, height}
use pi_task.Workflow.Gate.{record_plan_approval, set_workflow_approval, is_workflow_approved}
use pi_task.Workflow.Scheduler.{
  effective_max_parallel, NodeOutcome, returned_completed, threw, Schedule,
}
use pi_task.Workflow.Scheduler.Progress.{verdict_of}
use pi_task.Workflow.Scheduler.Settles.{IsSettled}
use pi_task.Workflow.Build.{RunBuildOptions, run_build}
use pi_task.Workflow.Build.Gated.{is_refused, recorded_approval_decides, build_settles}

abbrev outcomes : String → NodeOutcome
outcomes id = if str_eq id "b" then threw "no" else returned_completed none

abbrev options : RunBuildOptions
unfolding record_plan_approval set_workflow_approval put
options = record {
  dag_id = "plan";
  nodes = three;
  store = record_plan_approval "now" [] (record { dag_id = "plan"; approved = true });
  run_node = outcomes;
  max_parallel = none;
  gateway = true;
}

recorded_approval_decides_example :
    is_refused (
      run_build
        (record options {
          store =
              record_plan_approval "later" options.store
                (record { dag_id = "plan"; approved = false });
        })
        4)
    ≡ true
unfolding options
recorded_approval_decides_example = recorded_approval_decides options "later" "plan" false 4

build_settles_example :
    (dag : SynthesizedDag) × (s : Schedule) × (synthesize_dag three none ≡ returns dag)
    × (run_build options 4 ≡ returns (some s))
    × ((x : String) → contains x (ids three) ≡ true → IsSettled dag outcomes (verdict_of s) x)
unfolding effective_max_parallel is_workflow_approved record_plan_approval set_workflow_approval put
    lookup
build_settles_example = build_settles options height 4 refl three-IsPlan (omega arith) (omega arith)
