-- ===== src/Ledger/Children.antt =====
-- packages/core-v2/src/ledger/store.ts: claims of child edges, and the moves to resumable and
-- blocked. Each helper is one SQL statement of the source.
use pi_task.Common.{
  ℕ, ◌==◌, String, ◌&&◌, Bool, true, false, Option, none, some, List, [], ◌∷◌, if◌then◌else◌,
  lookup, put, remove, str_eq, returns, throws,
}
use pi_task.Ledger.Tables.{adjust, at_reference}
use pi_task.Ledger.Rows.{failed, ChildEdgeStatus, TaskStatus, TaskEdgeRow, Ledger, Outcome}
use pi_task.Ledger.Tasks.{with_task_status, set_task_status, transaction, ◌then◌}

abbrev pub row_to_task_edge : Option ChildEdgeStatus → TaskEdgeRow → TaskEdgeRow
row_to_task_edge none row = row
row_to_task_edge (some s) row = record row { status = s }

abbrev pub joined_edge : Option ChildEdgeStatus → Option TaskEdgeRow → Option TaskEdgeRow
joined_edge o none = none
joined_edge o (some row) = some (row_to_task_edge o row)

unfoldable pub get_task_edge : String → Ledger → Option TaskEdgeRow
get_task_edge id l = joined_edge (lookup id l.task_edge_status_overrides) (lookup id l.task_edges)

abbrev pub with_edge_status : ChildEdgeStatus → TaskEdgeRow → TaskEdgeRow
with_edge_status s row = record row { status = s }

unfoldable pub update_edge_status : String → ChildEdgeStatus → Ledger → Ledger
update_edge_status id s l = record l { task_edges = adjust id (with_edge_status s) l.task_edges }

unfoldable pub override_edge_status : String → ChildEdgeStatus → Ledger → Ledger
override_edge_status id s l = record l {
  task_edge_status_overrides = put id s l.task_edge_status_overrides;
}

unfoldable pub drop_edge_override : String → Ledger → Ledger
drop_edge_override id l = record l {
  task_edge_status_overrides = remove id l.task_edge_status_overrides;
}

-- Without a continuation no row matches; a row whose key is null is never read, and is left out.
unfoldable pub update_continuation : Option String → ChildEdgeStatus → Ledger → Ledger
update_continuation id s l = record l {
  workspace_continuations = at_reference id (λ k. adjust k (λ _. s)) l.workspace_continuations;
}

unfoldable pub override_continuation : Option String → ChildEdgeStatus → Ledger → Ledger
override_continuation id s l = record l {
  continuation_status_overrides = at_reference id (λ k. put k s) l.continuation_status_overrides;
}

unfoldable pub drop_continuation_override : Option String → Ledger → Ledger
drop_continuation_override id l = record l {
  continuation_status_overrides = at_reference id remove l.continuation_status_overrides;
}

-- `UPDATE tasks SET status = ? WHERE id = (SELECT child_task_id …)`
unfoldable pub update_child_status : Option String → TaskStatus → Ledger → Ledger
update_child_status child s l = record l {
  tasks = at_reference child (λ k. adjust k (with_task_status s)) l.tasks;
}

-- `INSERT INTO task_status_overrides (task_id, status) VALUES ((SELECT child_task_id …), ?)`
unfoldable pub override_child_status : Option String → TaskStatus → Ledger → Ledger
override_child_status child s l = record l {
  task_status_overrides = at_reference child (λ k. put k s) l.task_status_overrides;
}

unfoldable pub is_ready : ChildEdgeStatus → Bool
is_ready ChildEdgeStatus.ready = true
is_ready _ = false

unfoldable pub is_resumable : ChildEdgeStatus → Bool
is_resumable ChildEdgeStatus.resumable = true
is_resumable _ = false

unfoldable pub is_claimed : ChildEdgeStatus → Bool
is_claimed ChildEdgeStatus.claimed = true
is_claimed _ = false

-- `IN ('preparing', 'ready', 'claimed', 'resumable')`
unfoldable pub can_block : ChildEdgeStatus → Bool
can_block ChildEdgeStatus.blocked = false
can_block ChildEdgeStatus.delivery_pending = false
can_block (ChildEdgeStatus.ended s) = false
can_block _ = true

-- The statements of a claim after the one that decides it, for an edge as it was read before.
unfoldable pub claim : String → TaskEdgeRow → Ledger → Ledger
claim id edge l = drop_continuation_override edge.workspace_continuation_id (
    update_continuation edge.workspace_continuation_id ChildEdgeStatus.claimed
      (drop_edge_override id (update_edge_status id ChildEdgeStatus.claimed l)))

-- A claim of the edge when its status passes the test; `busy` says whether another connection has
-- the lock, when the claim is lost. The row is read before the override goes.
unfoldable pub claim_if :
    (ChildEdgeStatus → Bool)
    → Bool
    → String
    → Option TaskEdgeRow
    → Ledger
    → Option TaskEdgeRow × Ledger
claim_if allowed true id o l = (none, l)
claim_if allowed false id none l = (none, l)
claim_if allowed false id (some edge) l =
    if allowed edge.status
    then (get_task_edge id (update_edge_status id ChildEdgeStatus.claimed l), claim id edge l)
    else (none, l)

unfoldable pub claim_ready_child : Bool → String → Ledger → Option TaskEdgeRow × Ledger
claim_ready_child busy id l = claim_if is_ready busy id (get_task_edge id l) l

-- The key of the edge of a parent with an ordinal, which is unique.
unfoldable pub edge_at : String → ℕ → List (String × TaskEdgeRow) → Option String
edge_at parent n [] = none
edge_at parent n ((id, row) ∷ rows) =
    let rest = edge_at parent n rows in
    if str_eq row.parent_task_id parent && (row.ordinal == n) then some id else rest

abbrev pub row_alone : String → Option TaskEdgeRow → Ledger → Option TaskEdgeRow
row_alone id none after = none
row_alone id (some _) after = lookup id after.task_edges

unfoldable pub claim_at : Bool → Option String → Ledger → Option TaskEdgeRow × Ledger
claim_at busy none l = (none, l)
claim_at busy (some id) l =
    let (won, after) = claim_if is_ready busy id (get_task_edge id l) l in
    (row_alone id won after, after)

-- The claim by a parent and an ordinal returns the row without the override.
unfoldable pub claim_ready_child_at : Bool → String → ℕ → Ledger → Option TaskEdgeRow × Ledger
claim_ready_child_at busy parent n l = claim_at busy (edge_at parent n l.task_edges) l

abbrev pub read_again : String → Option TaskEdgeRow → Ledger → Option TaskEdgeRow
read_again id none after = none
read_again id (some _) after = get_task_edge id after

-- Here the row is read after the override is gone.
unfoldable pub claim_resumable_child : Bool → String → Ledger → Option TaskEdgeRow × Ledger
claim_resumable_child busy id l =
    let (won, after) = claim_if is_resumable busy id (get_task_edge id l) l in
    (read_again id won after, after)

-- What a call returns is the row as it is read at its end.
abbrev pub read_edge : String → Ledger → Outcome (Option TaskEdgeRow)
read_edge id l = (returns (get_task_edge id l), l)

-- The statements after the guard, which reads the row without the override.
unfoldable pub resumable_statements : String → TaskEdgeRow → Ledger → Ledger
resumable_statements id edge l =
    update_continuation edge.workspace_continuation_id ChildEdgeStatus.resumable (
      override_child_status edge.child_task_id TaskStatus.resumable (
        update_child_status edge.child_task_id TaskStatus.executing (
          override_edge_status id ChildEdgeStatus.resumable
            (update_edge_status id ChildEdgeStatus.resumable l))))

unfoldable pub mark_resumable_if : String → Option TaskEdgeRow → Ledger → Outcome Unit
mark_resumable_if id none l = (throws "child edge must be claimed before becoming resumable", l)
mark_resumable_if id (some base) l =
    if is_claimed base.status
    then (returns tt, resumable_statements id base l)
    else (throws "child edge must be claimed before becoming resumable", l)

unfoldable pub mark_child_resumable : String → Ledger → Outcome (Option TaskEdgeRow)
mark_child_resumable id l =
    mark_resumable_if id (lookup id l.task_edges) l then λ _ after. read_edge id after

unfoldable pub blocked_statements : String → TaskEdgeRow → Ledger → Ledger
blocked_statements id edge l =
    update_continuation edge.workspace_continuation_id ChildEdgeStatus.blocked (
      update_child_status edge.child_task_id (TaskStatus.ended failed)
        (drop_edge_override id (update_edge_status id ChildEdgeStatus.blocked l)))

unfoldable pub mark_blocked_if : String → Option TaskEdgeRow → Ledger → Outcome Unit
mark_blocked_if id none l = (throws "child edge cannot be blocked from its current state", l)
mark_blocked_if id (some edge) l =
    if can_block edge.status
    then (returns tt, blocked_statements id edge l)
    else (throws "child edge cannot be blocked from its current state", l)

unfoldable pub mark_child_blocked : String → Ledger → Outcome (Option TaskEdgeRow)
mark_child_blocked id l =
    mark_blocked_if id (get_task_edge id l) l then λ _ after. read_edge id after

unfoldable pub fail_both : String → String → String → Ledger → Outcome (Option TaskEdgeRow)
fail_both id parent child l = set_task_status child (TaskStatus.ended failed) l then λ _ m.
    set_task_status parent (TaskStatus.ended failed) m then λ _ n. read_edge id n

unfoldable pub block_by_status :
    String → String → String → ChildEdgeStatus → Ledger → Outcome (Option TaskEdgeRow)
block_by_status id parent child (ChildEdgeStatus.ended s) l =
    (throws "terminal child edge cannot be blocked", l)
block_by_status id parent child ChildEdgeStatus.blocked l = fail_both id parent child l
block_by_status id parent child _ l =
    mark_child_blocked id l then λ _ m. fail_both id parent child m

unfoldable pub block_edge : String → Option TaskEdgeRow → Ledger → Outcome (Option TaskEdgeRow)
block_edge id none l = (throws "unknown child edge", l)
block_edge id (some edge) l = with_child edge.child_task_id
  where
    with_child : Option String → Outcome (Option TaskEdgeRow)
    with_child none = (throws "unknown child edge", l)
    with_child (some child) = block_by_status id edge.parent_task_id child edge.status l

unfoldable pub block_child : String → Ledger → Outcome (Option TaskEdgeRow)
block_child id = transaction (λ l. block_edge id (get_task_edge id l) l)
