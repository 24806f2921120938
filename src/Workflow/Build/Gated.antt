-- ===== src/Workflow/Build/Gated.antt =====
-- What packages/core-v2/src/workflow/build.ts does with an approval record and a plan.
use pi_task.Common.{
  ℕ, ◌≤◌, ◌<◌, String, ◌≡◌, refl, ap, Bool, true, false, not, Option, none, some, ◌⊎◌, inl, inr,
  arith, if◌then◌else◌, Bool-cases, Result, returns, throws, ◌>>=◌, length, lookup, contains,
  str_eq, lookup-put,
}
use pi_task.Workflow.Dag.{DagSynthesisError, SynthesizedDag, synthesize_dag}
use pi_task.Workflow.Dag.Edges.{ids}
use pi_task.Workflow.Dag.Order.{limit_of}
use pi_task.Workflow.Dag.Accept.{IsPlan, synthesize_dag-accepts}
use pi_task.Workflow.Gate.{
  is_approved, refuse, Approvals, WorkflowApprovalRow, is_workflow_approved, require_plan_approved,
  refusal, record_plan_approval, set_workflow_approval,
}
use pi_task.Workflow.Scheduler.{ScheduleOptions, Schedule, effective_max_parallel}
use pi_task.Workflow.Scheduler.Progress.{verdict_of}
use pi_task.Workflow.Scheduler.Settles.{IsSettled}
use pi_task.Workflow.Scheduler.Plans.{synthesized_settles, synthesized-length}
use pi_task.Workflow.Build.{
  synthesis_error, as_build, as_refusal, BuildError, build_gate_error, RunBuildOptions, pass_gate,
  synthesis, run_build,
}

abbrev pub is_refused : Result BuildError (Option Schedule) → Bool
is_refused (throws (build_gate_error _ _)) = true
is_refused _ = false

abbrev refuses : Result BuildError Unit → Bool
refuses (throws (build_gate_error _ _)) = true
refuses _ = false

refused_after :
    (gate : Result BuildError Unit) (rest : Unit → Result BuildError (Option Schedule))
    → refuses gate ≡ true
    → is_refused (gate >>= rest) ≡ true
refused_after (returns u) rest h = cc
refused_after (throws (build_gate_error _ _)) rest h = refl
refused_after (throws (synthesis_error _)) rest h = cc

-- The gate, by the row that the table has for the id.
GateCases : Bool → String → Result BuildError Unit → Type 0
GateCases allowed dag_id result =
    (allowed ≡ true) × (result ≡ returns tt) ⊎ (allowed ≡ false) × (refuses result ≡ true)

row-GateCases :
    (dag_id : String) (row : Option WorkflowApprovalRow)
    → GateCases (is_approved row) dag_id (as_refusal dag_id (refuse (refusal dag_id row)))
unfolding refusal GateCases
row-GateCases dag_id none = inr (refl, refl)
row-GateCases dag_id (some row) = elim (Bool-cases row.approved) [
  | inl e ↦ inl (e, rw e refl)
  | inr e ↦ inr (e, rw e refl)
]

gate-GateCases :
    (options : RunBuildOptions)
    → GateCases
        (is_workflow_approved options.store options.dag_id)
        options.dag_id
        (pass_gate options)
unfolding pass_gate require_plan_approved is_workflow_approved
gate-GateCases options = row-GateCases options.dag_id (lookup options.dag_id options.store)

synthesis_not_refused :
    (r : Result DagSynthesisError SynthesizedDag) (rest : SynthesizedDag → Option Schedule)
    → is_refused (as_build r >>= λ dag. returns (rest dag)) ≡ false
synthesis_not_refused (returns dag) rest = refl
synthesis_not_refused (throws e) rest = refl

refused_iff :
    (options : RunBuildOptions) (fuel : ℕ)
    → is_refused (run_build options fuel) ≡ not (is_workflow_approved options.store options.dag_id)
unfolding run_build synthesis GateCases
refused_iff options fuel = elim (gate-GateCases options) [
  | inl (allowed, e) ↦ rw (e, allowed) (synthesis_not_refused (synthesize_dag options.nodes none) _)
  | inr (shut, e) ↦ rw shut (refused_after (pass_gate options) _ e)
]

approved_after :
    (now : String) (store : Approvals) (k j : String) (b : Bool)
    → is_workflow_approved (record_plan_approval now store (record { dag_id = k; approved = b })) j
      ≡ (if str_eq k j then b else is_workflow_approved store j)
unfolding is_workflow_approved record_plan_approval set_workflow_approval
approved_after now store k j b =
    ground (arith, lookup-put k j (record { dag_id = k; approved = b; updated_at = now }) store)

-- After an approval is recorded for an id, a build of that id is refused by the gate exactly if the
-- record was not an approval, and a build of any other id is refused exactly if it was before.
pub recorded_approval_decides :
    (options : RunBuildOptions) (now k : String) (b : Bool) (fuel : ℕ)
    → is_refused (
        run_build
          (record options {
            store = record_plan_approval now options.store (record { dag_id = k; approved = b });
          })
          fuel)
      ≡ (if str_eq k options.dag_id then not b else is_refused (run_build options fuel))
recorded_approval_decides options now k b fuel =
    let next = record options {
      store = record_plan_approval now options.store (record { dag_id = k; approved = b });
    } in
    ground (
      arith,
      refused_iff options fuel,
      refused_iff next fuel,
      approved_after now options.store k options.dag_id b,
    )

-- For an approved id, a plan with distinct ids, known dependencies within the limit and no cycle, and
-- a width of at least one, more rounds than there are nodes are enough for the build to return a
-- schedule, in which each node has the verdict of its own run, all that it depends on being
-- completed, or is skipped since something that it depends on failed or was skipped.
pub build_settles :
    (options : RunBuildOptions) (rank : String → ℕ) (fuel : ℕ)
    → is_workflow_approved options.store options.dag_id ≡ true
    → IsPlan options.nodes (limit_of none) rank
    → 1 ≤ effective_max_parallel options.max_parallel
    → length options.nodes < fuel
    → (dag : SynthesizedDag) × (s : Schedule) × (synthesize_dag options.nodes none ≡ returns dag)
      × (run_build options fuel ≡ returns (some s))
      × ((x : String)
          → contains x (ids options.nodes) ≡ true
          → IsSettled dag options.run_node (verdict_of s) x)
unfolding run_build synthesis GateCases
build_settles options rank fuel approved plan wide enough =
    let (dag, e) = synthesize_dag-accepts options.nodes none rank plan in
    let schedule : ScheduleOptions = record {
      dag = dag;
      run_node = options.run_node;
      max_parallel = options.max_parallel;
      gateway = options.gateway;
    } in
    let (s, ends, settled) =
      synthesized_settles options.nodes none schedule fuel e wide
        (omega (arith, synthesized-length options.nodes none dag e)) in
    (dag, s, e, rw (gate_open, e) (ap (λ r. returns r) ends), settled)
  where
    gate_open : pass_gate options ≡ returns tt
    gate_open = elim (gate-GateCases options) [ inl (_, e) ↦ e | inr (shut, _) ↦ cc ]
