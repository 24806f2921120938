-- ===== src/Workflow/Dag.antt =====
-- packages/core-v2/src/workflow/dag.ts: the order of the nodes of a plan by their dependencies. A
-- `Map` is a list of its entries by insertion. The queue loop takes fuel, one more than the number
-- of nodes, and `findCyclePath` likewise; a loop that runs out of it stops as if it were done.
pub mod Edges
pub mod Kahn
pub mod Order
pub mod Accept
pub mod Examples
use Prim.Native.String.{◌++◌ as ◌<>◌}
use mathlib.Core.Option.{get_or}
use mathlib.Core.List.{head?}
use pi_task.Common.{
  ℕ, zero, suc, ◌+◌, ◌-◌, String, Bool, true, false, not, Option, none, some, List, [], ◌∷◌, ◌++◌,
  map, ltb, ◌==◌, if◌then◌else◌, Result, returns, throws, ◌>>=◌, length, keep, lookup, put,
  contains, decimal,
}
use pi_task.Workflow.Plan.{ValidatedSpec}

abbrev pub default_max_fan_out : ℕ
default_max_fan_out = 8

pub record DagNode : Type 0 where
  pub id : String
  pub spec : ValidatedSpec

abbrev pub NodeMap : Type 0
NodeMap = List (String × DagNode)

pub record SynthesizedDag : Type 0 where
  pub order : List String
  pub nodes : NodeMap

pub data DagSynthesisCode : Type 0 where
  cycle unknown_dependency fan_out_exceeded duplicate_id : DagSynthesisCode

-- `DagSynthesisError` and `DagCycleError`, which alone has a path.
pub record DagSynthesisError : Type 0 where
  pub code : DagSynthesisCode
  pub message : String
  pub cycle_path : List String

abbrev pub Thrown : Type 0 → Type 0
Thrown = Result DagSynthesisError

abbrev throw : {A : Type 0} → DagSynthesisCode → String → Thrown A
throw code message = throws (record { code = code; message = message; cycle_path = [] })

-- `map.has(k)`
abbrev pub has {ℓ} : {V : Type ℓ} → String → List (String × V) → Bool
has k m = elim (lookup k m) [ none ↦ false | some _ ↦ true ]

-- `byId`
pub index_nodes : NodeMap → List DagNode → Thrown NodeMap
index_nodes by_id [] = returns by_id
index_nodes by_id (node ∷ rest) =
    let more = index_nodes (put node.id node by_id) rest in
    if has node.id by_id then throw duplicate_id ("duplicate spec node id: " <> node.id) else more

check_known : NodeMap → String → List String → Thrown Unit
check_known by_id id [] = returns tt
check_known by_id id (dep ∷ deps) =
    let more = check_known by_id id deps in
    if has dep by_id
    then more
    else throw unknown_dependency
        ("node \"" <> (id <> ("\" depends on unknown spec \"" <> (dep <> "\""))))

check_fan_out : ℕ → String → List String → Thrown Unit
check_fan_out max_fan_out id deps =
    if ltb max_fan_out (length deps)
    then throw fan_out_exceeded (
        "node \""
        <> (id
            <> ("\" declares "
                <> (decimal (length deps)
                    <> (" dependencies, exceeding the max fan-out of " <> decimal max_fan_out)))))
    else returns tt

abbrev pub DepMap : Type 0
DepMap = List (String × List String)

-- `dependenciesOf`
pub collect_dependencies : NodeMap → ℕ → DepMap → List DagNode → Thrown DepMap
collect_dependencies by_id max_fan_out acc [] = returns acc
collect_dependencies by_id max_fan_out acc (node ∷ rest) =
    let deps = node.spec.depends_on in
    let more = collect_dependencies by_id max_fan_out (put node.id deps acc) rest in
    check_known by_id node.id deps >>= λ _. check_fan_out max_fan_out node.id deps >>= λ _. more

-- `dependentsOf.get(dep) ?? []`
abbrev pub list_of : String → DepMap → List String
list_of k m = get_or (lookup k m) []

-- `pendingCount.get(id) ?? fallback`
abbrev pub count_of : ℕ → String → List (String × ℕ) → ℕ
count_of fallback k m = get_or (lookup k m) fallback

add_dependents : String → List String → DepMap → DepMap
add_dependents id [] dependents = dependents
add_dependents id (dep ∷ deps) dependents =
    add_dependents id deps (put dep (list_of dep dependents ++ id ∷ []) dependents)

pub build_dependents : DepMap → DepMap → DepMap
build_dependents dependents [] = dependents
build_dependents dependents ((id, deps) ∷ rest) =
    build_dependents (add_dependents id deps dependents) rest

pub build_counts : List (String × ℕ) → DepMap → List (String × ℕ)
build_counts counts [] = counts
build_counts counts ((id, deps) ∷ rest) = build_counts (put id (length deps) counts) rest

pub initial_queue : List (String × ℕ) → List DagNode → List String
initial_queue counts [] = []
initial_queue counts (node ∷ rest) =
    let more = initial_queue counts rest in
    if count_of 0 node.id counts == 0 then node.id ∷ more else more

pub record Waiting : Type 0 where
  pub counts : List (String × ℕ)
  pub queue : List String

-- The loop over the dependents of a node that is done. The source stores the count less one also
-- where that is negative; here it stays at 0, and in neither case is it 1 later on.
pub release : List String → Waiting → Waiting
release [] w = w
release (dependent ∷ rest) w =
    let count = count_of 1 dependent w.counts in
    release rest (record {
      counts = put dependent (count - 1) w.counts;
      queue = if count == 1 then w.queue ++ dependent ∷ [] else w.queue;
    })

pub drain : ℕ → DepMap → List (String × ℕ) → (queue order : List String) → List String
drain zero dependents counts queue order = order
drain (suc fuel) dependents counts [] order = order
drain (suc fuel) dependents counts (id ∷ queue) order =
    let w = release (list_of id dependents) (record { counts = counts; queue = queue }) in
    drain fuel dependents w.counts w.queue (order ++ id ∷ [])

first_dependency : NodeMap → String → Option String
first_dependency by_id id = elim (lookup id by_id) [
  | none ↦ none
  | some node ↦ head? node.spec.depends_on
]

-- The walk of `findCyclePath` from `current`, and the node that closes the path.
walk : ℕ → NodeMap → List String → Option String → List String
walk fuel by_id path none = path
walk zero by_id path (some current) = path
walk (suc fuel) by_id path (some current) =
    let more = walk fuel by_id (path ++ current ∷ []) (first_dependency by_id current) in
    if contains current path then path ++ current ∷ [] else more

has_dependencies : NodeMap → DagNode → Bool
has_dependencies by_id n = elim (lookup n.id by_id) [
  | none ↦ false
  | some node ↦ ltb 0 (length node.spec.depends_on)
]

abbrev or_else {ℓ} : {A : Type ℓ} → Option A → Option A → Option A
or_else none o = o
or_else (some a) _ = some a

pub find_cycle_path : List DagNode → NodeMap → List String
find_cycle_path nodes by_id =
    elim (or_else (head? (keep (has_dependencies by_id) nodes)) (head? nodes)) [
      | none ↦ []
      | some start ↦ walk (suc (length nodes)) by_id (start.id ∷ []) (head? start.spec.depends_on)
    ]

abbrev join_arrows : List String → String
join_arrows [] = ""
join_arrows (x ∷ []) = x
join_arrows (x ∷ xs) = x <> (" → " <> join_arrows xs)

cycle_error : List String → DagSynthesisError
cycle_error path = record {
  code = cycle;
  message = "spec DAG contains a cycle: " <> join_arrows path;
  cycle_path = path;
}

-- The order that the queue loop gives, from the dependencies of every node.
pub kahn : List DagNode → DepMap → List String
kahn nodes dependencies =
    let counts = build_counts [] dependencies in
    drain (suc (length nodes)) (build_dependents [] dependencies) counts
      (initial_queue counts nodes) []

pub synthesize_dag : List DagNode → Option ℕ → Thrown SynthesizedDag
synthesize_dag nodes max_fan_out = index_nodes [] nodes >>= λ by_id.
    collect_dependencies by_id (get_or max_fan_out default_max_fan_out) [] nodes >>= λ dependencies.
    let order = kahn nodes dependencies in
    if length order == length nodes
    then returns (record { order = order; nodes = by_id })
    else throws (cycle_error (find_cycle_path nodes by_id))
