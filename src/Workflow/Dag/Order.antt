-- ===== src/Workflow/Dag/Order.antt =====
-- What `synthesizeDag` of packages/core-v2/src/workflow/dag.ts returns and when it throws.
use mathlib.Core.Option.{get_or}
use mathlib.Core.Path.{subst}
use pi_task.Common.{
  ℕ, suc, ◌≤◌, ◌<◌, String, ◌≡◌, refl, sym, ◌∙◌, ap, true, false, ◌&&◌, Option, List, [], ◌∷◌,
  arith, ◌==◌, Bool-cases, inl, inr, returns, >>=-eq-returns, length, lookup, contains, str_eq,
  eq_iff, keys, IsDistinct, occurs, contains-occurs, occurs_of_distinct, length-le_of_occurs,
  occurs-eq_of_length,
}
use pi_task.Workflow.Dag.{
  DagNode, NodeMap, DepMap, SynthesizedDag, has, list_of, count_of, index_nodes,
  collect_dependencies, build_dependents, build_counts, initial_queue, kahn, synthesize_dag,
  default_max_fan_out,
}
use pi_task.Workflow.Dag.Edges.{
  ids, node_entries, dep_entries, has-eq-contains, index_nodes-eq, collect-eq, AreChecked,
  keys-dep_entries, keys-node_entries, build_counts-eq, build_dependents-eq, list_of_absent,
}
use pi_task.Workflow.Dag.Kahn.{IsOrderedFrom, Done, drain_all, all_placed, one_if}

-- The dependencies that the node of this id declares.
abbrev pub deps_of : List DagNode → String → List String
deps_of nodes x = list_of x (dep_entries nodes)

module _ (nodes : List DagNode) (distinct : IsDistinct (ids nodes)) where
  abbrev entries : DepMap
  entries = dep_entries nodes

  IsDistinct-keys : IsDistinct (keys entries)
  IsDistinct-keys = rw (keys-dep_entries nodes) distinct

  outside : (x : String) → contains x (ids nodes) ≡ false → deps_of nodes x ≡ []
  outside x h = list_of_absent entries x (rw (keys-dep_entries nodes) h)

  edges :
      (x d : String)
      → occurs x (list_of d (build_dependents [] entries)) ≡ occurs d (deps_of nodes x)
  unfolding lookup occurs
  edges x d = omega (arith, build_dependents-eq entries [] x d IsDistinct-keys)

  counts_eq :
      (fallback : ℕ) (x : String)
      → contains x (ids nodes) ≡ true
      → count_of fallback x (build_counts [] entries) ≡ length (deps_of nodes x)
  counts_eq fallback x h =
      rw (build_counts-eq entries [] fallback x IsDistinct-keys, keys-dep_entries nodes, h)

queue_eq :
    (counts : List (String × ℕ)) (nodes : List DagNode) (x : String)
    → IsDistinct (ids nodes)
    → occurs x (initial_queue counts nodes)
      ≡ one_if (contains x (ids nodes) && (count_of 0 x counts == 0))
unfolding initial_queue occurs contains
queue_eq counts [] x d = refl
queue_eq counts (n ∷ ns) x d = ground (arith, eq_iff n.id x, queue_eq counts ns x d.1)

pub length-ids : (nodes : List DagNode) → length (ids nodes) ≡ length nodes
length-ids [] = refl
length-ids (n ∷ ns) = ap suc (length-ids ns)

-- With one more round than there are nodes the queue loop ends by its test.
kahn-Done :
    (nodes : List DagNode)
    → IsDistinct (ids nodes)
    → Done (ids nodes) (deps_of nodes) (kahn nodes (dep_entries nodes))
unfolding kahn
kahn-Done nodes distinct =
    drain_all (ids nodes) (deps_of nodes) (build_dependents [] (dep_entries nodes)) distinct
      (outside nodes distinct) (edges nodes distinct) (suc (length nodes)) _ _
      (omega (arith, length-ids nodes)) (counts_eq nodes distinct 1)
      (λ x. ground (
        arith,
        queue_eq (build_counts [] (dep_entries nodes)) nodes x distinct,
        counts_eq nodes distinct 0 x,
      ))

-- What a synthesis that does not throw has checked, and the order that it returns.
pub record IsSynthesis (nodes : List DagNode) (limit : ℕ) (dag : SynthesizedDag) : Type 0 where
  pub unique : IsDistinct (ids nodes)
  pub by_id : dag.nodes ≡ node_entries nodes
  pub known : (x d : String) → contains d (deps_of nodes x) ≡ true → contains d (ids nodes) ≡ true
  pub narrow : (x : String) → length (deps_of nodes x) ≤ limit
  pub complete : (x : String) → occurs x dag.order ≡ occurs x (ids nodes)
  pub sorted : IsOrderedFrom (deps_of nodes) [] dag.order

abbrev pub limit_of : Option ℕ → ℕ
limit_of max_fan_out = get_or max_fan_out default_max_fan_out

checked_known :
    (by_id : NodeMap) (limit : ℕ) (nodes : List DagNode) (x d : String)
    → AreChecked by_id limit nodes
    → contains d (deps_of nodes x) ≡ true
    → has d by_id ≡ true
unfolding lookup contains
checked_known by_id limit [] x d h c = cc
checked_known by_id limit (n ∷ ns) x d h c = elim (Bool-cases (str_eq n.id x)) [
  | inl e ↦ h.0 d (rw e at c)
  | inr e ↦ checked_known by_id limit ns x d h.2 (rw e at c)
]

checked_narrow :
    (by_id : NodeMap) (limit : ℕ) (nodes : List DagNode) (x : String)
    → AreChecked by_id limit nodes
    → length (deps_of nodes x) ≤ limit
unfolding lookup
checked_narrow by_id limit [] x h = omega arith
checked_narrow by_id limit (n ∷ ns) x h = elim (Bool-cases (str_eq n.id x)) [
  | inl e ↦ rw e h.1
  | inr e ↦ rw e (checked_narrow by_id limit ns x h.2)
]

module _ (nodes : List DagNode) (limit : ℕ) (by_id : NodeMap) (dependencies : DepMap)
    (indexed : index_nodes [] nodes ≡ returns by_id)
    (collected : collect_dependencies by_id limit [] nodes ≡ returns dependencies) where
  unique_ids : IsDistinct (ids nodes)
  unique_ids = (index_nodes-eq nodes [] tt indexed).1

  by_id_eq : by_id ≡ node_entries nodes
  by_id_eq = (index_nodes-eq nodes [] tt indexed).0

  dependencies_eq : dependencies ≡ dep_entries nodes
  dependencies_eq = (collect-eq by_id limit [] nodes unique_ids collected).0

  are_checked : AreChecked by_id limit nodes
  are_checked = (collect-eq by_id limit [] nodes unique_ids collected).1

  has-eq-ids : (d : String) → has d by_id ≡ contains d (ids nodes)
  has-eq-ids d =
      has-eq-contains d by_id ∙ ap (contains d) (ap keys by_id_eq ∙ keys-node_entries nodes)

  known_deps : (x d : String) → contains d (deps_of nodes x) ≡ true → contains d (ids nodes) ≡ true
  known_deps x d c = sym (has-eq-ids d) ∙ checked_known by_id limit nodes x d are_checked c

  done : Done (ids nodes) (deps_of nodes) (kahn nodes dependencies)
  done = rw dependencies_eq (kahn-Done nodes unique_ids)

  placed-le : (x : String) → occurs x (kahn nodes dependencies) ≤ occurs x (ids nodes)
  placed-le x = ground (arith, done.placed x, occurs_of_distinct x (ids nodes) unique_ids)

  IsSynthesis-of_length :
      length (kahn nodes dependencies) ≡ length nodes
      → IsSynthesis nodes limit (record { order = kahn nodes dependencies; nodes = by_id })
  IsSynthesis-of_length e = record {
    unique = unique_ids;
    by_id = by_id_eq;
    known = known_deps;
    narrow = λ x. checked_narrow by_id limit nodes x are_checked;
    complete = occurs-eq_of_length _ _ placed-le (e ∙ sym (length-ids nodes));
    sorted = done.sorted;
  }

  pub length_of_rank :
      (rank : String → ℕ)
      → ((x d : String) → contains d (deps_of nodes x) ≡ true → rank d < rank x)
      → length (kahn nodes dependencies) ≡ length nodes
  length_of_rank rank down = omega (
    arith,
    length-ids nodes,
    length-le_of_occurs _ _ placed-le,
    length-le_of_occurs (ids nodes) (kahn nodes dependencies) all_there,
  )
    where
      there :
          (x : String) → contains x (ids nodes) ≡ true → contains x (kahn nodes dependencies) ≡ true
      there x =
          all_placed (ids nodes) (deps_of nodes) (build_dependents [] (dep_entries nodes))
            unique_ids (outside nodes unique_ids) (edges nodes unique_ids) rank
            (kahn nodes dependencies) (λ y d c. (down y d c, known_deps y d c)) done (suc (rank x))
            x (omega arith)

      all_there : (x : String) → occurs x (ids nodes) ≤ occurs x (kahn nodes dependencies)
      all_there x = ground (
        arith,
        there x,
        contains-occurs x (kahn nodes dependencies),
        occurs_of_distinct x (ids nodes) unique_ids,
      )

-- If synthesis returns, then the ids are distinct, every dependency names a node, no node has more
-- of them than the limit, `nodes` holds the nodes under their ids, and the order holds every id
-- exactly once and each behind all of its dependencies.
pub synthesize_dag-IsSynthesis :
    (nodes : List DagNode) (max_fan_out : Option ℕ) (dag : SynthesizedDag)
    → synthesize_dag nodes max_fan_out ≡ returns dag
    → IsSynthesis nodes (limit_of max_fan_out) dag
unfolding synthesize_dag
synthesize_dag-IsSynthesis nodes max_fan_out dag e =
    let (by_id, indexed, e1) = >>=-eq-returns _ _ (index_nodes [] nodes) e in
    let (dependencies, collected, e2) =
      >>=-eq-returns _ _ (collect_dependencies by_id (limit_of max_fan_out) [] nodes) e1 in
    elim (Bool-cases (length (kahn nodes dependencies) == length nodes)) [
      | inl full ↦
          let same : record { order = kahn nodes dependencies; nodes = by_id } ≡ dag =
            cc (rw full at e2) in
          subst (IsSynthesis nodes (limit_of max_fan_out)) same (
            IsSynthesis-of_length nodes (limit_of max_fan_out) by_id dependencies indexed collected
              (ground arith))
      | inr short ↦ cc (rw short at e2)
    ]
