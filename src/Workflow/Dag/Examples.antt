-- ===== src/Workflow/Dag/Examples.antt =====
-- Runs of packages/core-v2/src/workflow/dag.ts at small plans.
use pi_task.Common.{
  ℕ, String, ◌≡◌, refl, sym, ap, true, none, List, [], ◌∷◌, arith, returns, throws, put, lookup,
  contains, eq_iff, str_eq, if◌then◌else◌,
}
use pi_task.Workflow.Dag.{
  DagNode, SynthesizedDag, index_nodes, check_known, check_fan_out, collect_dependencies,
  add_dependents, build_dependents, build_counts, initial_queue, release, drain, first_dependency,
  walk, has_dependencies, find_cycle_path, cycle_error, kahn, synthesize_dag,
}
use pi_task.Workflow.Dag.Order.{IsSynthesis, limit_of, synthesize_dag-IsSynthesis}
use pi_task.Workflow.Dag.Accept.{IsPlan, synthesize_dag-accepts}

abbrev node : String → List String → DagNode
node id deps = record {
  id = id;
  spec = record { goal = id; requirements = []; verification_commands = []; depends_on = deps };
}

-- The first node needs the two others.
abbrev pub three : List DagNode
three = node "c" ("a" ∷ "b" ∷ []) ∷ node "a" [] ∷ node "b" ("a" ∷ []) ∷ []

abbrev pub three_dag : SynthesizedDag
three_dag = record {
  order = "a" ∷ "b" ∷ "c" ∷ [];
  nodes = ("c", node "c" ("a" ∷ "b" ∷ [])) ∷ ("a", node "a" []) ∷ ("b", node "b" ("a" ∷ [])) ∷ [];
}

pub three_synthesized : synthesize_dag three none ≡ returns three_dag
unfolding synthesize_dag index_nodes check_known check_fan_out collect_dependencies add_dependents
    build_dependents build_counts initial_queue release drain kahn put lookup contains
three_synthesized = refl

synthesize_dag-IsSynthesis_example : IsSynthesis three (limit_of none) three_dag
synthesize_dag-IsSynthesis_example =
    synthesize_dag-IsSynthesis three none three_dag three_synthesized

abbrev pub height : String → ℕ
height id = if str_eq id "a" then 0 else if str_eq id "b" then 1 else 2

height_at : (k x : String) → str_eq k x ≡ true → height x ≡ height k
height_at k x e = ap height (sym ((eq_iff k x).0 e))

pub three-IsPlan : IsPlan three (limit_of none) height
unfolding contains lookup
three-IsPlan = record {
  unique = (refl, (refl, (refl, tt)));
  known = λ x d. ground (arith, eq_iff "c" x, eq_iff "a" x, eq_iff "b" x);
  narrow = λ x. ground arith;
  acyclic =
      λ x d. ground (arith, height_at "a" d, height_at "b" d, height_at "c" x, height_at "b" x);
}

synthesize_dag-accepts_example : (dag : SynthesizedDag) × (synthesize_dag three none ≡ returns dag)
synthesize_dag-accepts_example = synthesize_dag-accepts three none height three-IsPlan

-- The cycle is of "b" and "c", and the path that is reported holds neither.
reported_path :
    synthesize_dag
      (node "d" ("a" ∷ []) ∷ node "a" [] ∷ node "b" ("c" ∷ []) ∷ node "c" ("b" ∷ []) ∷ [])
      none
    ≡ throws (cycle_error ("d" ∷ "a" ∷ []))
unfolding synthesize_dag index_nodes check_known check_fan_out collect_dependencies add_dependents
    build_dependents build_counts initial_queue release drain kahn find_cycle_path walk
    has_dependencies first_dependency cycle_error put lookup contains
reported_path = refl
