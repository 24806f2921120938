-- ===== src/Ledger/Boot.antt =====
-- packages/core-v2/src/ledger/store.ts: the policy for crashed tasks and children, and what a boot
-- does to the tasks that were in flight.
use pi_task.Common.{
  ℕ, ◌+◌, ltb, String, ◌&&◌, ◌||◌, not, Bool, true, false, Option, none, some, List, [], ◌∷◌,
  if◌then◌else◌, lookup, str_eq, keep, any,
}
use pi_task.Ledger.Tables.{adjust}
use pi_task.Ledger.Rows.{
  failed, ChildEdgeStatus, TaskStatus, TaskRow, TaskEdgeRow, Ledger,
  ChildPreparationOwnershipStatus, ChildPreparationOwnershipRow,
}
use pi_task.Ledger.Tasks.{list_tasks, update_task_status}
use pi_task.Ledger.Children.{row_to_task_edge}

unfoldable pub is_in_flight : TaskStatus → Bool
is_in_flight TaskStatus.planning = true
is_in_flight TaskStatus.executing = true
is_in_flight TaskStatus.verifying = true
is_in_flight TaskStatus.reviewing = true
is_in_flight _ = false

pub data ReconcileDecision : Type 0 where
  keeps requeues fails : ReconcileDecision

unfoldable pub reconcile_crashed_task : TaskStatus → ℕ → ℕ → ReconcileDecision
reconcile_crashed_task status retry_count max_retries =
    if not (is_in_flight status)
    then keeps
    else if ltb retry_count max_retries
    then requeues
    else fails

-- What a child's restart is, by its status and whether its checkpoint and continuation are there.
unfoldable pub classify_child_restart : ChildEdgeStatus → Bool → Bool → ChildEdgeStatus
classify_child_restart ChildEdgeStatus.ready checkpoint continuation = ChildEdgeStatus.ready
classify_child_restart ChildEdgeStatus.blocked checkpoint continuation = ChildEdgeStatus.blocked
classify_child_restart ChildEdgeStatus.delivery_pending checkpoint continuation =
    ChildEdgeStatus.delivery_pending
classify_child_restart (ChildEdgeStatus.ended s) checkpoint continuation = ChildEdgeStatus.ended s
classify_child_restart _ checkpoint continuation =
    if checkpoint && continuation then ChildEdgeStatus.resumable else ChildEdgeStatus.blocked

-- `IN ('preparing', 'ready', 'claimed', 'resumable', 'delivery_pending')`
unfoldable pub is_active : ChildEdgeStatus → Bool
is_active ChildEdgeStatus.blocked = false
is_active (ChildEdgeStatus.ended s) = false
is_active _ = true

abbrev pub is_child : String → Option String → Bool
is_child id none = false
is_child id (some child) = str_eq child id

-- An edge of the task, as its parent or its child, that is active.
unfoldable pub owns : List (String × ChildEdgeStatus) → String → String × TaskEdgeRow → Bool
owns overrides id (edge, row) =
    (str_eq row.parent_task_id id || is_child id row.child_task_id)
    && is_active (row_to_task_edge (lookup edge overrides) row).status

abbrev pub is_open : ChildPreparationOwnershipStatus → Bool
is_open ChildPreparationOwnershipStatus.ready = false
is_open ChildPreparationOwnershipStatus.blocked = false
is_open _ = true

unfoldable pub reserves : String → String × ChildPreparationOwnershipRow → Bool
reserves id (preparation, row) =
    (str_eq row.parent_task_id id || str_eq row.planned_child_task_id id) && is_open row.status

unfoldable pub is_owned : String → Ledger → Bool
is_owned id l =
    any (owns l.task_edge_status_overrides id) l.task_edges
    || any (reserves id) l.child_preparation_ownership

abbrev pub requeued_row : TaskRow → TaskRow
requeued_row row = record row { status = TaskStatus.queued; retry_count = row.retry_count + 1 }

unfoldable pub requeue : String → Ledger → Ledger
requeue id l = record l { tasks = adjust id requeued_row l.tasks }

pub record Touched : Type 0 where
  pub requeued : List String
  pub failed : List String

abbrev pub requeue_then : String → (Ledger → Touched × Ledger) → Ledger → Touched × Ledger
requeue_then id rest l =
    let (t, m) = rest (requeue id l) in (record t { requeued = id ∷ t.requeued }, m)

abbrev pub fail_then : String → (Ledger → Touched × Ledger) → Ledger → Touched × Ledger
fail_then id rest l =
    let (t, m) = rest (update_task_status id (TaskStatus.ended failed) l) in
    (record t { failed = id ∷ t.failed }, m)

abbrev pub by_decision :
    ReconcileDecision → String → (Ledger → Touched × Ledger) → Ledger → Touched × Ledger
by_decision keeps id rest l = rest l
by_decision requeues id rest l = requeue_then id rest l
by_decision fails id rest l = fail_then id rest l

-- The loop over the tasks that were in flight.
unfoldable pub reconcile_tasks : List (String × TaskRow) → Ledger → Touched × Ledger
reconcile_tasks [] l = (record { requeued = []; failed = [] }, l)
reconcile_tasks ((id, row) ∷ rows) l =
    by_decision
      (if is_owned id l
        then keeps
        else reconcile_crashed_task row.status row.retry_count row.max_retries)
      id (reconcile_tasks rows) l

abbrev pub in_flight : String × TaskRow → Bool
in_flight (id, row) = is_in_flight row.status

unfoldable pub reconcile_on_boot : Ledger → Touched × Ledger
reconcile_on_boot l = reconcile_tasks (keep in_flight (list_tasks none l)) l
