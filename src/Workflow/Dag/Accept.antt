-- ===== src/Workflow/Dag/Accept.antt =====
-- Which nodes `synthesizeDag` of packages/core-v2/src/workflow/dag.ts accepts.
use mathlib.Core.List.{append-nil, append_assoc}
use pi_task.Common.{
  ℕ, ◌≤◌, ◌<◌, String, ◌≡◌, refl, ◌∙◌, ap, ◌⊎◌, true, false, Option, List, [], ◌∷◌, ◌++◌, arith,
  Bool-cases, inl, inr, returns, length, lookup, contains, str_eq, eq_iff, keys, IsDistinct,
  put_new, keys-append,
}
use pi_task.Workflow.Dag.{
  DagNode, NodeMap, DepMap, SynthesizedDag, has, index_nodes, check_known, check_fan_out,
  collect_dependencies, kahn, synthesize_dag,
}
use pi_task.Workflow.Dag.Edges.{
  ids, node_entries, dep_entries, has-eq-contains, AreChecked, keys-node_entries, keys-dep_entries,
  list_of_absent, not_before,
}
use pi_task.Workflow.Dag.Order.{deps_of, limit_of, length_of_rank}

index_nodes-ok :
    (by_id : NodeMap) (nodes : List DagNode)
    → IsDistinct (keys by_id ++ ids nodes)
    → index_nodes by_id nodes ≡ returns (by_id ++ node_entries nodes)
unfolding index_nodes
index_nodes-ok by_id [] d = rw append-nil
index_nodes-ok by_id (n ∷ ns) d =
    let fresh = not_before n.id (keys by_id) (ids ns) d in
    let absent : has n.id by_id ≡ false = has-eq-contains n.id by_id ∙ fresh in
    rw (absent, put_new n.id n by_id fresh)
      (index_nodes-ok (by_id ++ (n.id, n) ∷ []) ns
          (rw (keys-append by_id ((n.id, n) ∷ []), append_assoc) d)
        ∙ ap returns (append_assoc by_id ((n.id, n) ∷ []) (node_entries ns)))

check_known_all :
    (by_id : NodeMap) (id : String) (deps : List String)
    → ((d : String) → contains d deps ≡ true → has d by_id ≡ true)
    → check_known by_id id deps ≡ returns tt
unfolding check_known contains
check_known_all by_id id [] h = refl
check_known_all by_id id (x ∷ xs) h =
    rw (h x (ground (arith, eq_iff x x))) (check_known_all by_id id xs (λ d c. h d (ground arith)))

check_fan_out_few :
    (limit : ℕ) (id : String) (deps : List String)
    → length deps ≤ limit
    → check_fan_out limit id deps ≡ returns tt
unfolding check_fan_out
check_fan_out_few limit id deps h = ground arith

collect-ok :
    (by_id : NodeMap) (limit : ℕ) (acc : DepMap) (nodes : List DagNode)
    → IsDistinct (keys acc ++ ids nodes)
    → AreChecked by_id limit nodes
    → collect_dependencies by_id limit acc nodes ≡ returns (acc ++ dep_entries nodes)
unfolding collect_dependencies
collect-ok by_id limit acc [] d c = rw append-nil
collect-ok by_id limit acc (n ∷ ns) d c =
    let deps = n.spec.depends_on in
    let fresh = not_before n.id (keys acc) (ids ns) d in
    rw
      (
        check_known_all by_id n.id deps c.0,
        check_fan_out_few limit n.id deps c.1,
        put_new n.id deps acc fresh,
      )
      (collect-ok by_id limit (acc ++ (n.id, deps) ∷ []) ns
          (rw (keys-append acc ((n.id, deps) ∷ []), append_assoc) d) c.2
        ∙ ap returns (append_assoc acc ((n.id, deps) ∷ []) (dep_entries ns)))

-- What the nodes have to meet: `rank` puts each dependency below the node that declares it.
pub record IsPlan (nodes : List DagNode) (limit : ℕ) (rank : String → ℕ) : Type 0 where
  pub unique : IsDistinct (ids nodes)
  pub known : (x d : String) → contains d (deps_of nodes x) ≡ true → contains d (ids nodes) ≡ true
  pub narrow : (x : String) → length (deps_of nodes x) ≤ limit
  pub acyclic : (x d : String) → contains d (deps_of nodes x) ≡ true → rank d < rank x

deps_of_tail :
    (n : DagNode) (ns : List DagNode) (x : String)
    → IsDistinct (ids (n ∷ ns))
    → (deps_of ns x ≡ []) ⊎ (deps_of (n ∷ ns) x ≡ deps_of ns x)
unfolding lookup
deps_of_tail n ns x d = elim (Bool-cases (str_eq n.id x)) [
  | inl e ↦
      inl (list_of_absent (dep_entries ns) x (rw (keys-dep_entries ns, ← (eq_iff n.id x).0 e) d.0))
  | inr e ↦ inr (rw e)
]

AreChecked-of :
    (by_id : NodeMap) (limit : ℕ) (nodes : List DagNode)
    → IsDistinct (ids nodes)
    → ((x d : String) → contains d (deps_of nodes x) ≡ true → has d by_id ≡ true)
    → ((x : String) → length (deps_of nodes x) ≤ limit)
    → AreChecked by_id limit nodes
unfolding lookup contains
AreChecked-of by_id limit [] d k w = tt
AreChecked-of by_id limit (n ∷ ns) d k w =
    let self = (eq_iff n.id n.id).1 refl in
    (
      (λ j c. k n.id j (rw self c)),
      rw self at (w n.id),
      AreChecked-of by_id limit ns d.1
          (λ x j c. elim (deps_of_tail n ns x d) [
            | inl e ↦ cc (rw e at c)
            | inr e ↦ k x j (rw e c)
          ])
          (λ x. elim (deps_of_tail n ns x d) [
            | inl e ↦ rw e (omega arith)
            | inr e ↦ rw e at (w x)
          ]),
    )

-- Nodes with distinct ids, known dependencies, no more of them than the limit, and no cycle are
-- always given an order: synthesis throws none of its errors.
pub synthesize_dag-accepts :
    (nodes : List DagNode) (max_fan_out : Option ℕ) (rank : String → ℕ)
    → IsPlan nodes (limit_of max_fan_out) rank
    → (dag : SynthesizedDag) × (synthesize_dag nodes max_fan_out ≡ returns dag)
unfolding synthesize_dag
synthesize_dag-accepts nodes max_fan_out rank p =
    let limit = limit_of max_fan_out in
    let by_id = node_entries nodes in
    let indexed = index_nodes-ok [] nodes p.unique in
    let has_known : (x d : String) → contains d (deps_of nodes x) ≡ true → has d by_id ≡ true =
      λ x d c.
        has-eq-contains d by_id ∙ ap (contains d) (keys-node_entries nodes) ∙ p.known x d c in
    let collected =
      collect-ok by_id limit [] nodes p.unique
        (AreChecked-of by_id limit nodes p.unique has_known p.narrow) in
    let full =
      length_of_rank nodes limit by_id (dep_entries nodes) indexed collected rank p.acyclic in
    (
      record { order = kahn nodes (dep_entries nodes); nodes = by_id },
      rw (indexed, collected) (ground arith),
    )
