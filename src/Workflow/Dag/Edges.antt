-- ===== src/Workflow/Dag/Edges.antt =====
-- The maps that `synthesizeDag` of packages/core-v2/src/workflow/dag.ts builds, read as functions.
use pi_task.Common.{
  ℕ, ◌+◌, ◌≤◌, String, ◌≡◌, refl, sym, ◌∙◌, ap, true, false, List, [], ◌∷◌, ◌++◌, arith, inl, inr,
  if◌then◌else◌, Bool-cases, returns, >>=-eq-returns, length, lookup, put, contains, keys, str_eq,
  eq_iff, IsDistinct, lookup-put, put_new, keys-append, contains-append, contains-snoc, occurs,
  occurs-append,
}
use mathlib.Core.List.{append-nil, append_assoc}
use pi_task.Workflow.Dag.{
  DagNode, NodeMap, DepMap, has, list_of, count_of, index_nodes, check_known, check_fan_out,
  collect_dependencies, add_dependents, build_dependents, build_counts,
}

abbrev pub ids : List DagNode → List String
ids [] = []
ids (n ∷ ns) = n.id ∷ ids ns

-- The entries of `byId` and of `dependenciesOf` for nodes of distinct ids.
abbrev pub node_entries : List DagNode → NodeMap
node_entries [] = []
node_entries (n ∷ ns) = (n.id, n) ∷ node_entries ns

abbrev pub dep_entries : List DagNode → DepMap
dep_entries [] = []
dep_entries (n ∷ ns) = (n.id, n.spec.depends_on) ∷ dep_entries ns

pub has-eq-contains {ℓ} :
    {V : Type ℓ} (k : String) (m : List (String × V)) → has k m ≡ contains k (keys m)
unfolding lookup contains
has-eq-contains k [] = refl
has-eq-contains k ((j, v) ∷ m) = ground (arith, has-eq-contains k m)

IsDistinct-snoc :
    (x : String) (xs : List String)
    → IsDistinct xs
    → contains x xs ≡ false
    → IsDistinct (xs ++ x ∷ [])
unfolding contains
IsDistinct-snoc x [] d h = (refl, tt)
IsDistinct-snoc x (y ∷ ys) d h = (
  ground (arith, contains-snoc x y ys, eq_iff x y, eq_iff y x),
  IsDistinct-snoc x ys d.1 (ground arith),
)

pub not_before :
    (x : String) (xs ys : List String) → IsDistinct (xs ++ x ∷ ys) → contains x xs ≡ false
unfolding contains
not_before x [] ys d = refl
not_before x (y ∷ xs) ys d =
    ground (arith, not_before x xs ys d.1, contains-append y xs (x ∷ ys), eq_iff x y, eq_iff y x)

module _ (n : DagNode) (by_id : NodeMap) (fresh : contains n.id (keys by_id) ≡ false) where
  keys-put_new : keys (by_id ++ (n.id, n) ∷ []) ≡ keys by_id ++ n.id ∷ []
  keys-put_new = keys-append by_id ((n.id, n) ∷ [])

  put-IsDistinct : IsDistinct (keys by_id) → IsDistinct (keys (by_id ++ (n.id, n) ∷ []))
  put-IsDistinct d = rw keys-put_new (IsDistinct-snoc n.id (keys by_id) d fresh)

-- Nodes that pass the test for duplicates have distinct ids, and `byId` holds them as they stand.
pub index_nodes-eq :
    (nodes : List DagNode) (by_id : NodeMap) {m : NodeMap}
    → IsDistinct (keys by_id)
    → index_nodes by_id nodes ≡ returns m
    → (m ≡ by_id ++ node_entries nodes) × IsDistinct (keys by_id ++ ids nodes)
unfolding index_nodes
index_nodes-eq [] by_id d e = (cc (append-nil by_id), rw append-nil d)
index_nodes-eq (n ∷ ns) by_id {m} d e = elim (Bool-cases (has n.id by_id)) [
  | inl h ↦ cc (rw h at e)
  | inr h ↦
      let fresh : contains n.id (keys by_id) ≡ false = sym (has-eq-contains n.id by_id) ∙ h in
      let e' : index_nodes (by_id ++ (n.id, n) ∷ []) ns ≡ returns m =
        rw (put_new n.id n by_id fresh) at (rw h at e) in
      let (same, distinct) =
        index_nodes-eq ns (by_id ++ (n.id, n) ∷ []) {m = m} (put-IsDistinct n by_id fresh d) e' in
      (
        same ∙ append_assoc by_id ((n.id, n) ∷ []) (node_entries ns),
        rw (keys-put_new n by_id fresh, append_assoc) at distinct,
      )
]

-- What `collectDependencies` has checked of each node.
abbrev pub AreChecked : NodeMap → ℕ → List DagNode → Type 0
AreChecked by_id limit [] = Unit
AreChecked by_id limit (n ∷ ns) =
    ((d : String) → contains d n.spec.depends_on ≡ true → has d by_id ≡ true)
    × (length n.spec.depends_on ≤ limit)
    × AreChecked by_id limit ns

check_known-ok :
    (by_id : NodeMap) (id : String) (deps : List String) (d : String) {u : Unit}
    → check_known by_id id deps ≡ returns u
    → contains d deps ≡ true
    → has d by_id ≡ true
unfolding check_known contains
check_known-ok by_id id [] d e c = cc
check_known-ok by_id id (x ∷ xs) d {u} e c =
    ground (arith, eq_iff x d, check_known-ok by_id id xs d {u = u})

check_fan_out-ok :
    (limit : ℕ) (id : String) (deps : List String) {u : Unit}
    → check_fan_out limit id deps ≡ returns u
    → length deps ≤ limit
unfolding check_fan_out
check_fan_out-ok limit id deps e = ground arith

pub collect-eq :
    (by_id : NodeMap) (limit : ℕ) (acc : DepMap) (nodes : List DagNode) {m : DepMap}
    → IsDistinct (keys acc ++ ids nodes)
    → collect_dependencies by_id limit acc nodes ≡ returns m
    → (m ≡ acc ++ dep_entries nodes) × AreChecked by_id limit nodes
unfolding collect_dependencies
collect-eq by_id limit acc [] d e = (cc (append-nil acc), tt)
collect-eq by_id limit acc (n ∷ ns) {m} d e =
    let deps = n.spec.depends_on in
    let (u, known, e1) = >>=-eq-returns _ _ (check_known by_id n.id deps) e in
    let (v, few, e2) = >>=-eq-returns _ _ (check_fan_out limit n.id deps) e1 in
    let fresh = not_before n.id (keys acc) (ids ns) d in
    let (same, checked) =
      collect-eq by_id limit (acc ++ (n.id, deps) ∷ []) ns {m = m}
        (rw (keys-append acc ((n.id, deps) ∷ []), append_assoc) d)
        (rw (put_new n.id deps acc fresh) at e2) in
    (
      same ∙ append_assoc acc ((n.id, deps) ∷ []) (dep_entries ns),
      (λ d. check_known-ok by_id n.id deps d known, check_fan_out-ok limit n.id deps few, checked),
    )

pub keys-dep_entries : (nodes : List DagNode) → keys (dep_entries nodes) ≡ ids nodes
keys-dep_entries [] = refl
keys-dep_entries (n ∷ ns) = ap (λ t. n.id ∷ t) (keys-dep_entries ns)

pub keys-node_entries : (nodes : List DagNode) → keys (node_entries nodes) ≡ ids nodes
keys-node_entries [] = refl
keys-node_entries (n ∷ ns) = ap (λ t. n.id ∷ t) (keys-node_entries ns)

-- The count of a node is the number of its dependencies.
pub build_counts-eq :
    (m : DepMap) (counts : List (String × ℕ)) (fallback : ℕ) (x : String)
    → IsDistinct (keys m)
    → count_of fallback x (build_counts counts m)
      ≡ (if contains x (keys m) then length (list_of x m) else count_of fallback x counts)
unfolding build_counts lookup contains
build_counts-eq [] counts fallback x d = refl
build_counts-eq ((id, deps) ∷ m) counts fallback x d = ground (
  arith,
  build_counts-eq m (put id (length deps) counts) fallback x d.1,
  lookup-put id x (length deps) counts,
  eq_iff id x,
)

pub list_of_absent : (m : DepMap) (x : String) → contains x (keys m) ≡ false → list_of x m ≡ []
unfolding lookup contains
list_of_absent [] x h = refl
list_of_absent ((id, deps) ∷ m) x h = ground (arith, list_of_absent m x)

add_dependents-eq :
    (id : String) (deps : List String) (m : DepMap) (x d : String)
    → occurs x (list_of d (add_dependents id deps m))
      ≡ occurs x (list_of d m) + (if str_eq id x then occurs d deps else 0)
unfolding add_dependents occurs
add_dependents-eq id [] m x d = ground arith
add_dependents-eq id (dep ∷ deps) m x d = ground (
  arith,
  add_dependents-eq id deps (put dep (list_of dep m ++ id ∷ []) m) x d,
  lookup-put dep d (list_of dep m ++ id ∷ []) m,
  eq_iff dep d,
  occurs-append x (list_of dep m) (id ∷ []),
)

-- A node stands among the dependents of another as often as that stands among its dependencies.
pub build_dependents-eq :
    (m dependents : DepMap) (x d : String)
    → IsDistinct (keys m)
    → occurs x (list_of d (build_dependents dependents m))
      ≡ occurs x (list_of d dependents) + occurs d (list_of x m)
unfolding build_dependents lookup occurs
build_dependents-eq [] dependents x d h = omega arith
build_dependents-eq ((id, deps) ∷ m) dependents x d h = ground (
  arith,
  build_dependents-eq m (add_dependents id deps dependents) x d h.1,
  add_dependents-eq id deps dependents x d,
  eq_iff id x,
  list_of_absent m x,
)
