-- ===== src/Ledger/Settlement.antt =====
-- packages/core-v2/src/ledger/store.ts: the settlement of a child edge with its tasks. The schema
-- of a reference and the regular expression of an address are the parameters `parses` and
-- `is_content_address`.
use pi_task.Common.{
  String, not, Bool, true, false, Option, none, some, if◌then◌else◌, lookup, returns, throws,
}
use pi_task.Ledger.Tables.{adjust}
use pi_task.Ledger.Rows.{
  ChildTerminalStatus, ChildEdgeStatus, TaskStatus, TaskEdgeRow, TaskRow, Ledger, Outcome,
  ArtifactReference,
}
use pi_task.Ledger.Tasks.{get_task, drop_task_override, set_task_status, transaction, ◌then◌}
use pi_task.Ledger.Artifacts.{
  ChildSettlementArtifacts, settlement_artifacts, insert_artifacts, all_addressed,
}
use pi_task.Ledger.Children.{
  get_task_edge, update_edge_status, override_edge_status, drop_edge_override, update_continuation,
  override_continuation, drop_continuation_override, read_edge,
}
use pi_task.Ledger.Outbox.{
  can_settle, get_child_terminal_settlement, link_settlement, matches_outbox, same_end,
}

abbrev pub conflicts : ChildTerminalStatus → TaskStatus → Bool
conflicts status (TaskStatus.ended s) = not (same_end s status)
conflicts status _ = false

abbrev pub is_end : TaskStatus → Bool
is_end (TaskStatus.ended s) = true
is_end _ = false

-- An ended parent stands against a pending delivery, whatever its end.
abbrev pub parent_conflicts : Bool → ChildTerminalStatus → TaskStatus → Bool
parent_conflicts pending_delivery status s =
    if pending_delivery then is_end s else conflicts status s

-- `UPDATE tasks SET status = ? WHERE id = ? AND status NOT IN ('completed', 'failed', 'escalated')`
abbrev pub end_row : ChildTerminalStatus → TaskRow → TaskRow
end_row status row =
    if is_end row.status then row else record row { status = TaskStatus.ended status }

unfoldable pub end_task : String → ChildTerminalStatus → Ledger → Ledger
end_task id status l = record l { tasks = adjust id (end_row status) l.tasks }

abbrev pub row_not_ended : Option TaskRow → Bool
row_not_ended none = false
row_not_ended (some row) = not (is_end row.status)

-- The parent's own update must change a row, unless its status is an end already.
unfoldable pub end_parent : String → TaskStatus → ChildTerminalStatus → Ledger → Outcome Unit
end_parent id now status l =
    if is_end now
    then (returns tt, l)
    else if row_not_ended (lookup id l.tasks)
    then (returns tt, end_task id status l)
    else (throws "parent terminal transition lost", l)

abbrev pub row_can_settle : Option TaskEdgeRow → Bool
row_can_settle none = false
row_can_settle (some row) = can_settle row.status

unfoldable pub end_edge : String → ChildTerminalStatus → Ledger → Outcome Unit
end_edge id status l =
    if row_can_settle (lookup id l.task_edges)
    then (returns tt, update_edge_status id (ChildEdgeStatus.ended status) l)
    else (throws "child edge terminal transition lost", l)

-- The statements when the delivery is not acknowledged yet.
unfoldable pub defer_delivery :
    String → TaskEdgeRow → String → Ledger → Outcome (Option TaskEdgeRow)
defer_delivery id edge child l =
    set_task_status edge.parent_task_id TaskStatus.delivery_pending l then λ _ m.
    set_task_status child TaskStatus.delivery_pending m then λ _ n. read_edge id (
      link_settlement id (
        override_continuation edge.workspace_continuation_id ChildEdgeStatus.delivery_pending
          (override_edge_status id ChildEdgeStatus.delivery_pending n)))

-- The statements after both tasks and the edge have ended.
unfoldable pub end_rest : String → TaskEdgeRow → String → ChildTerminalStatus → Ledger → Ledger
end_rest id edge child status l = link_settlement id (
    drop_continuation_override edge.workspace_continuation_id (
      drop_edge_override id (
        drop_task_override child (
          drop_task_override edge.parent_task_id (
            update_continuation edge.workspace_continuation_id (ChildEdgeStatus.ended status) l)))))

unfoldable pub end_all :
    String
    → TaskEdgeRow
    → String
    → TaskStatus
    → ChildTerminalStatus
    → Ledger
    → Outcome (Option TaskEdgeRow)
end_all id edge child parent_now status l =
    end_parent edge.parent_task_id parent_now status l then λ _ m.
    end_edge id status (end_task child status m) then λ _ n.
    read_edge id (end_rest id edge child status n)

-- The tests on the two tasks, and then the statements of either kind of settlement.
unfoldable pub end_tasks :
    Bool
    → String
    → TaskEdgeRow
    → String
    → ChildTerminalStatus
    → Option TaskRow
    → Option TaskRow
    → Ledger
    → Outcome (Option TaskEdgeRow)
end_tasks deferred id edge child status none parent l = (throws "child task does not exist", l)
end_tasks deferred id edge child status (some c) none l =
    if conflicts status c.status
    then (throws "child task already has a different terminal status", l)
    else (throws "parent task does not exist", l)
end_tasks deferred id edge child status (some c) (some p) l =
    if conflicts status c.status
    then (throws "child task already has a different terminal status", l)
    else if parent_conflicts deferred status p.status
    then (throws "parent task already has a different terminal status", l)
    else if deferred
    then defer_delivery id edge child l
    else end_all id edge child p.status status l

module _ (parses : ArtifactReference → Bool) (is_content_address : String → Bool) where
  unfoldable pub settle_evidence :
      Bool
      → String
      → TaskEdgeRow
      → String
      → ChildTerminalStatus
      → ChildSettlementArtifacts
      → Ledger
      → Outcome (Option TaskEdgeRow)
  settle_evidence deferred id edge child status a l =
      if not (matches_outbox status a (get_child_terminal_settlement id l))
      then (throws "terminal linkage does not match the durable terminal outbox", l)
      else if not (all_addressed is_content_address a)
      then (throws "settlement artifacts must be content addressed", l)
      else (insert_artifacts parses (settlement_artifacts a edge.parent_task_id child) l then λ _ m.
          end_tasks deferred id edge child status (get_task child m)
            (get_task edge.parent_task_id m) m)

  abbrev pub settle_child_of :
      Bool
      → String
      → TaskEdgeRow
      → Option String
      → ChildTerminalStatus
      → ChildSettlementArtifacts
      → Ledger
      → Outcome (Option TaskEdgeRow)
  settle_child_of deferred id edge none status a l =
      (throws "terminal child edge requires a child task", l)
  settle_child_of deferred id edge (some child) status a l =
      settle_evidence deferred id edge child status a l

  unfoldable pub settle_by_status :
      Bool
      → String
      → TaskEdgeRow
      → ChildEdgeStatus
      → ChildTerminalStatus
      → ChildSettlementArtifacts
      → Ledger
      → Outcome (Option TaskEdgeRow)
  settle_by_status deferred id edge (ChildEdgeStatus.ended s) status a l =
      if same_end s status
      then (returns (some edge), l)
      else (throws "child edge already has a different terminal status", l)
  settle_by_status deferred id edge ChildEdgeStatus.claimed status a l =
      settle_child_of deferred id edge edge.child_task_id status a l
  settle_by_status deferred id edge ChildEdgeStatus.resumable status a l =
      settle_child_of deferred id edge edge.child_task_id status a l
  settle_by_status deferred id edge _ status a l =
      (throws "child edge must be claimed before terminal settlement", l)

  unfoldable pub settle_edge :
      Bool
      → String
      → Option TaskEdgeRow
      → ChildTerminalStatus
      → ChildSettlementArtifacts
      → Ledger
      → Outcome (Option TaskEdgeRow)
  settle_edge deferred id none status a l = (throws "unknown child edge", l)
  settle_edge deferred id (some edge) status a l =
      settle_by_status deferred id edge edge.status status a l

  -- `deferred` is `deliveryAcknowledged === false`.
  unfoldable pub settle_child :
      Bool
      → String
      → ChildTerminalStatus
      → ChildSettlementArtifacts
      → Ledger
      → Outcome (Option TaskEdgeRow)
  settle_child deferred id status a =
      transaction (λ l. settle_edge deferred id (get_task_edge id l) status a l)
