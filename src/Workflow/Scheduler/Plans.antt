-- ===== src/Workflow/Scheduler/Plans.antt =====
-- packages/core-v2/src/workflow/dag.ts with scheduler.ts: the order that synthesis gives is one that
-- the scheduler can run.
use mathlib.Core.Path.{subst}
use pi_task.Common.{
  length-le_of_occurs, ℕ, ◌≤◌, ◌<◌, String, ◌≡◌, refl, ◌∙◌, ap, true, Option, none, some, inl, inr,
  List, [], ◌∷◌, ◌++◌, arith, Bool-cases, length, contains, str_eq, eq_iff, lookup, returns,
  contains-occurs, occurs_of_distinct, IsDistinct-of_occurs,
}
use pi_task.Workflow.Dag.{DagNode, NodeMap, list_of, SynthesizedDag, synthesize_dag}
use pi_task.Workflow.Dag.Edges.{ids, node_entries}
use pi_task.Workflow.Dag.Kahn.{IsOrderedFrom}
use pi_task.Workflow.Dag.Order.{
  length-ids, deps_of, limit_of, IsSynthesis, synthesize_dag-IsSynthesis,
}
use pi_task.Workflow.Scheduler.{
  ScheduleOptions, Schedule, effective_max_parallel, schedule_dag, dependencies_of,
}
use pi_task.Workflow.Scheduler.Progress.{verdict_of}
use pi_task.Workflow.Scheduler.Settles.{needs, IsRunnable, IsSettled, schedule_dag_settles}

abbrev declared : NodeMap → String → List String
declared nodes x = elim (lookup x nodes) [ none ↦ [] | some node ↦ node.spec.depends_on ]

declared-eq :
    (nodes : List DagNode) (x : String) → declared (node_entries nodes) x ≡ deps_of nodes x
unfolding lookup
declared-eq [] x = refl
declared-eq (n ∷ ns) x = ground (arith, declared-eq ns x)

list_of-dependencies :
    (dag : SynthesizedDag) (xs : List String) (x : String)
    → contains x xs ≡ true
    → list_of x (dependencies_of dag xs) ≡ declared dag.nodes x
unfolding dependencies_of lookup contains
list_of-dependencies dag [] x c = cc
list_of-dependencies dag (y ∷ ys) x c = elim (Bool-cases (str_eq y x)) [
  | inl e ↦ rw e (ap (declared dag.nodes) ((eq_iff y x).0 e))
  | inr e ↦ rw e (list_of-dependencies dag ys x (rw e at c))
]

IsOrderedFrom-same :
    (dep dep' : String → List String) (seen xs : List String)
    → ((x : String) → contains x xs ≡ true → dep' x ≡ dep x)
    → IsOrderedFrom dep seen xs
    → IsOrderedFrom dep' seen xs
unfolding contains
IsOrderedFrom-same dep dep' seen [] h o = tt
IsOrderedFrom-same dep dep' seen (x ∷ xs) h o = (
  λ d c. o.0 d (subst (λ ds. contains d ds ≡ true) (h x (ground (arith, eq_iff x x))) c),
  IsOrderedFrom-same dep dep' (seen ++ x ∷ []) xs (λ y c. h y (ground arith)) o.1,
)

module _ (nodes : List DagNode) (max_fan_out : Option ℕ) (dag : SynthesizedDag)
    (e : synthesize_dag nodes max_fan_out ≡ returns dag) where
  synthesis : IsSynthesis nodes (limit_of max_fan_out) dag
  synthesis = synthesize_dag-IsSynthesis nodes max_fan_out dag e

  needs-eq : (x : String) → contains x dag.order ≡ true → needs dag x ≡ deps_of nodes x
  needs-eq x c =
      list_of-dependencies dag dag.order x c
      ∙ ap (λ m. declared m x) synthesis.by_id
      ∙ declared-eq nodes x

  pub synthesized-IsRunnable : IsRunnable dag
  synthesized-IsRunnable = record {
    distinct = IsDistinct-of_occurs dag.order (λ k.
        ground (arith, synthesis.complete k, occurs_of_distinct k (ids nodes) synthesis.unique));
    sorted = IsOrderedFrom-same (deps_of nodes) (needs dag) [] dag.order needs-eq synthesis.sorted;
  }

  -- The order is as long as the plan.
  pub synthesized-length : length dag.order ≡ length nodes
  synthesized-length = omega (
    arith,
    length-ids nodes,
    length-le_of_occurs dag.order (ids nodes) (λ k. omega (arith, synthesis.complete k)),
    length-le_of_occurs (ids nodes) dag.order (λ k. omega (arith, synthesis.complete k)),
  )

-- For a plan that synthesis returned and a width of at least one, more rounds than there are nodes
-- are enough for the scheduler to return, and then each node of the plan has the verdict of its own
-- run, all that it depends on being completed, or is skipped since something that it depends on
-- failed or was skipped.
pub synthesized_settles :
    (nodes : List DagNode) (max_fan_out : Option ℕ) (options : ScheduleOptions) (fuel : ℕ)
    → synthesize_dag nodes max_fan_out ≡ returns options.dag
    → 1 ≤ effective_max_parallel options.max_parallel
    → length options.dag.order < fuel
    → (s : Schedule) × (schedule_dag options fuel ≡ some s)
      × ((x : String)
          → contains x (ids nodes) ≡ true
          → IsSettled options.dag options.run_node (verdict_of s) x)
synthesized_settles nodes max_fan_out options fuel e wide h =
    let r = synthesized-IsRunnable nodes max_fan_out options.dag e in
    let (s, ends, settled, _) = schedule_dag_settles options wide r fuel h in
    let full = synthesis nodes max_fan_out options.dag e in
    (
      s,
      ends,
      λ x c. settled x (
          ground (
            arith,
            full.complete x,
            contains-occurs x (ids nodes),
            contains-occurs x options.dag.order,
          )),
    )
