-- ===== src/Workflow/Scheduler.antt =====
-- packages/core-v2/src/workflow/scheduler.ts: the nodes of a synthesized plan run in rounds. A `Set`
-- is the list of its elements by insertion. `runNode` is a function from a node's id to what the
-- call comes to: each node is run at most once, and a chunk is processed when all of it has settled.
-- The rounds take fuel; `none` stands for a loop that has not ended after so many rounds.
pub mod Progress
pub mod Verdicts
pub mod Chunk
pub mod Rounds
pub mod Settles
pub mod Width
pub mod Flights
pub mod Calls
pub mod Plans
pub mod Stuck
pub mod Examples
use Prim.Native.String.{◌++◌ as ◌<>◌}
use mathlib.Core.Option.{get_or}
use pi_task.Common.{
  ℕ, zero, suc, ◌/◌, String, Bool, true, false, ◌||◌, Option, none, some, List, [], ◌∷◌, ◌++◌, ltb,
  leb, ◌==◌, if◌then◌else◌, min, max, length, take, every, keep, lookup, put, contains, add, delete,
}
use pi_task.Workflow.Dag.{SynthesizedDag, DepMap, list_of, default_max_fan_out}

-- A JavaScript number that a caller may pass: NaN or an infinity, or plus or minus num / (den + 1).
pub data Number : Type 0 where
  not_finite : Number
  finite : (negative : Bool) (num den : ℕ) → Number

unfoldable pub effective_max_parallel : Option Number → ℕ
effective_max_parallel none = default_max_fan_out
effective_max_parallel (some not_finite) = default_max_fan_out
effective_max_parallel (some (finite negative num den)) =
    if negative || num == 0 then default_max_fan_out else min (num / suc den) default_max_fan_out

pub data NodeVerdict : Type 0 where
  completed failed skipped : NodeVerdict

pub record NodeResult : Type 0 where
  pub id : String
  pub verdict : NodeVerdict
  pub cause : Option String

-- What a call of `runNode` comes to: the verdict that it returns, or what it throws.
pub data NodeOutcome : Type 0 where
  returned_completed : (cause : Option String) → NodeOutcome
  returned_failed : (cause : Option String) → NodeOutcome
  threw : (message : String) → NodeOutcome

-- The events that a gateway gets, with the codes of a failure.
pub data NodeEvent : Type 0 where
  task_routed : (id : String) → NodeEvent
  task_completed : (id : String) → NodeEvent
  task_failed : (id cause code : String) → NodeEvent

pub record ScheduleOptions : Type 0 where
  pub dag : SynthesizedDag
  pub run_node : String → NodeOutcome
  pub max_parallel : Option Number
  pub gateway : Bool

-- `calls` has the chunks whose calls of `runNode` were in flight together, in order.
pub record Schedule : Type 0 where
  pub pending : List String
  pub results : List (String × NodeResult)
  pub completed_ids : List String
  pub failed_ids : List String
  pub skipped_ids : List String
  pub max_observed_concurrency : ℕ
  pub events : List NodeEvent
  pub calls : List (List String)

-- `new Set(ids)`, from a set that may hold some already.
pub as_set : List String → List String → List String
as_set acc [] = acc
as_set acc (id ∷ ids) = as_set (add id acc) ids

pub start : SynthesizedDag → Schedule
start dag = record {
  pending = as_set [] dag.order;
  results = [];
  completed_ids = [];
  failed_ids = [];
  skipped_ids = [];
  max_observed_concurrency = 0;
  events = [];
  calls = [];
}

-- `dependenciesOf`
pub dependencies_of : SynthesizedDag → List String → DepMap
dependencies_of dag [] = []
dependencies_of dag (id ∷ ids) =
    let deps : List String = elim (lookup id dag.nodes) [
      | none ↦ []
      | some node ↦ node.spec.depends_on
    ] in
    (id, deps) ∷ dependencies_of dag ids

pub emit : Bool → NodeEvent → Schedule → Schedule
emit gateway event s = if gateway then record s { events = s.events ++ event ∷ [] } else s

pub emit_routed : Bool → String → Schedule → Schedule
emit_routed gateway id = emit gateway (task_routed id)

pub emit_terminal : Bool → String → NodeVerdict → Option String → Schedule → Schedule
emit_terminal gateway id completed cause = emit gateway (task_completed id)
emit_terminal gateway id failed cause =
    emit gateway (task_failed id (get_or cause "failed") "worker_failed")
emit_terminal gateway id skipped cause =
    emit gateway (task_failed id (get_or cause "skipped: failed dependency") "dependency_failed")

-- A node that is skipped, in the order of the source.
pub skip : Bool → String → String → Schedule → Schedule
skip gateway id cause s =
    let s1 = record s { pending = delete id s.pending } in
    let s2 = emit_terminal gateway id skipped (some cause) (emit_routed gateway id s1) in
    record s2 {
      results = put id (record { id = id; verdict = skipped; cause = some cause }) s2.results;
      skipped_ids = add id s2.skipped_ids;
    }

-- `deps.find((d) => failed.has(d) || skipped.has(d))`
pub blocker : Schedule → List String → Option String
blocker s [] = none
blocker s (d ∷ ds) =
    let rest = blocker s ds in
    if contains d s.failed_ids || contains d s.skipped_ids then some d else rest

-- The flag is `skippedThisPass`.
pub skip_blocked : Bool → DepMap → String → Schedule × Bool → Schedule × Bool
skip_blocked gateway deps id (s, skipped_any) = elim (blocker s (list_of id deps)) [
  | none ↦ (s, skipped_any)
  | some d ↦ (skip gateway id ("skipped: dependency \"" <> (d <> "\" failed")) s, true)
]

-- Step 1, over a snapshot of the pending nodes.
pub skip_pass : Bool → DepMap → List String → Schedule × Bool → Schedule × Bool
skip_pass gateway deps [] p = p
skip_pass gateway deps (id ∷ ids) p = skip_pass gateway deps ids (skip_blocked gateway deps id p)

-- `orderIndex.get(id) ?? 0`
pub order_index : List String → String → ℕ
order_index [] id = 0
order_index (x ∷ xs) id =
    let rest = order_index xs id in
    if contains id (x ∷ xs) then (if contains id xs then suc rest else 0) else 0

pub insert_by : (String → ℕ) → String → List String → List String
insert_by index x [] = x ∷ []
insert_by index x (y ∷ ys) =
    let rest = insert_by index x ys in if leb (index x) (index y) then x ∷ y ∷ ys else y ∷ rest

-- A stable sort.
pub sort_by : (String → ℕ) → List String → List String
sort_by index [] = []
sort_by index (x ∷ xs) = insert_by index x (sort_by index xs)

-- Step 2.
pub ready_set : SynthesizedDag → DepMap → Schedule → List String
ready_set dag deps s =
    sort_by (order_index dag.order)
      (keep (λ id. every (λ d. contains d s.completed_ids) (list_of id deps)) s.pending)

-- The nodes that are left when nothing is ready.
pub skip_rest : Bool → List String → Schedule → Schedule
skip_rest gateway [] s = s
skip_rest gateway (id ∷ ids) s =
    skip_rest gateway ids (skip gateway id "skipped: unresolved dependencies" s)

pub route_all : Bool → List String → Schedule → Schedule
route_all gateway [] s = s
route_all gateway (id ∷ ids) s = route_all gateway ids (emit_routed gateway id s)

pub complete : Bool → String → Schedule → Schedule
complete gateway id s = emit_terminal gateway id completed none (record s {
  pending = delete id s.pending;
  completed_ids = add id s.completed_ids;
  results = put id (record { id = id; verdict = completed; cause = none }) s.results;
})

pub fail : Bool → String → Option String → Schedule → Schedule
fail gateway id cause s =
    let why = get_or cause "failed" in
    emit_terminal gateway id failed (some why) (record s {
      pending = delete id s.pending;
      failed_ids = add id s.failed_ids;
      results = put id (record { id = id; verdict = failed; cause = some why }) s.results;
    })

-- A call that throws is a failure with the message for its cause.
pub settle : Bool → String → NodeOutcome → Schedule → Schedule
settle gateway id (returned_completed cause) s = complete gateway id s
settle gateway id (returned_failed cause) s = fail gateway id cause s
settle gateway id (threw message) s = fail gateway id (some message) s

pub settle_all : Bool → (String → NodeOutcome) → List String → Schedule → Schedule
settle_all gateway run_node [] s = s
settle_all gateway run_node (id ∷ ids) s =
    settle_all gateway run_node ids (settle gateway id (run_node id) s)

pub run_chunk : Bool → (String → NodeOutcome) → List String → Schedule → Schedule
run_chunk gateway run_node chunk s =
    let s1 = record s {
      max_observed_concurrency = max s.max_observed_concurrency (length chunk);
    } in
    let s2 = route_all gateway chunk s1 in
    settle_all gateway run_node chunk (record s2 { calls = s2.calls ++ chunk ∷ [] })

-- What one round of the `while` loop comes to.
pub data Turn : Type 0 where
  again : Schedule → Turn
  finished : Schedule → Turn

-- The round after the pass that skips: step 2 and the chunk.
pub dispatch_ready : ScheduleOptions → DepMap → Schedule → List String → Turn
dispatch_ready options deps s [] = finished (skip_rest options.gateway s.pending s)
dispatch_ready options deps s (id ∷ ids) =
    let chunk = take (effective_max_parallel options.max_parallel) (id ∷ ids) in
    again (run_chunk options.gateway options.run_node chunk s)

pub after_pass : ScheduleOptions → DepMap → Schedule × Bool → Turn
after_pass options deps (s, skipped_any) =
    if skipped_any then again s else dispatch_ready options deps s (ready_set options.dag deps s)

-- One round, for pending nodes that are still there.
pub turn : ScheduleOptions → DepMap → Schedule → List String → Turn
turn options deps s [] = finished s
turn options deps s (id ∷ ids) =
    after_pass options deps (skip_pass options.gateway deps (id ∷ ids) (s, false))

pub loop : ScheduleOptions → DepMap → ℕ → Schedule → Option Schedule
loop options deps zero s = none
loop options deps (suc fuel) s = elim (turn options deps s s.pending) [
  | again s' ↦ loop options deps fuel s'
  | finished s' ↦ some s'
]

-- `results` and `max_observed_concurrency` are what the source returns.
pub schedule_dag : ScheduleOptions → (fuel : ℕ) → Option Schedule
schedule_dag options fuel =
    loop options (dependencies_of options.dag options.dag.order) fuel (start options.dag)
