-- ===== src/Ledger/Steps/Settles/Statements.antt =====
-- What the statements of a settlement do to the tables of child edges, if they return.
use pi_task.Common.{
  String, Bool, true, false, Option, none, some, if◌then◌else◌, lookup, remove, returns, throws,
  inl, inr, Bool-cases,
}
use pi_task.Ledger.Tables.{adjust}
use pi_task.Ledger.Tasks.{set_task_status, ◌then◌, drop_task_override}
use pi_task.Ledger.Rows.{
  ChildTerminalStatus, TaskRow, TaskStatus, ChildEdgeStatus, TaskEdgeRow, Ledger,
}
use pi_task.Ledger.Children.{
  with_edge_status, override_continuation, drop_continuation_override, override_edge_status,
  update_continuation, drop_edge_override, update_edge_status,
}
use pi_task.Ledger.Outbox.{linked_state, link_settlement}
use pi_task.Ledger.Settlement.{
  conflicts, is_end, parent_conflicts, end_task, row_not_ended, end_parent, row_can_settle,
  end_edge, defer_delivery, end_rest, end_all, end_tasks,
}
use pi_task.Ledger.View.{Edges, edges_of}
use pi_task.Ledger.Steps.Moving.{Leaves, Leaves-then, set_task_status-Leaves}
use pi_task.Ledger.Steps.Evidence.{deferred_edges, ended_edges}

end_parent-Leaves :
    (P : Edges → Type 0) (id : String) (now : TaskStatus) (status : ChildTerminalStatus)
    (l : Ledger)
    → P (edges_of l)
    → Leaves P (end_parent id now status l)
unfolding end_parent end_task
end_parent-Leaves P id now status l h = go (is_end now) (row_not_ended (lookup id l.tasks))
  where
    go :
        (ended running : Bool)
        → Leaves {A = Unit} P (
            if ended
            then (returns tt, l)
            else if running
            then (returns tt, end_task id status l)
            else (throws "parent terminal transition lost", l))
    go true running = h
    go false true = h
    go false false = tt

end_edge-Leaves :
    (P : Edges → Type 0) (id : String) (status : ChildTerminalStatus) (l : Ledger)
    → P (
      adjust id (with_edge_status (ChildEdgeStatus.ended status)) l.task_edges,
      l.task_edge_status_overrides,
      l.child_terminal_settlements,
    )
    → Leaves P (end_edge id status l)
unfolding end_edge update_edge_status
end_edge-Leaves P id status l h = elim (Bool-cases (row_can_settle (lookup id l.task_edges))) [
  | inl can ↦ rw can h
  | inr not_allowed ↦ rw not_allowed tt
]

-- Deferred or not, the tables of edges become these, if the statements return.
defer_delivery-Leaves :
    (P : Edges → Type 0) (k : String) (edge : TaskEdgeRow) (child : String) (l : Ledger)
    → P (deferred_edges k (edges_of l))
    → Leaves P (defer_delivery k edge child l)
unfolding defer_delivery link_settlement override_continuation override_edge_status
defer_delivery-Leaves P k edge child l h =
    let Q : Edges → Type 0 = λ a. P (deferred_edges k a) in
    Leaves-then Q P (set_task_status edge.parent_task_id TaskStatus.delivery_pending l) _
      (set_task_status-Leaves Q edge.parent_task_id TaskStatus.delivery_pending l h)
      (λ _ m g.
        Leaves-then Q P (set_task_status child TaskStatus.delivery_pending m) _
          (set_task_status-Leaves Q child TaskStatus.delivery_pending m g) (λ _ n f. f))

end_all-Leaves :
    (P : Edges → Type 0) (k : String) (edge : TaskEdgeRow) (child : String) (now : TaskStatus)
    (status : ChildTerminalStatus) (l : Ledger)
    → P (ended_edges k status (edges_of l))
    → Leaves P (end_all k edge child now status l)
unfolding end_all end_rest end_task link_settlement drop_continuation_override drop_edge_override
    drop_task_override update_continuation
end_all-Leaves P k edge child now status l h =
    let Q : Edges → Type 0 = λ a. P (ended_edges k status a) in
    let R : Edges → Type 0 = λ a. P (a.0, remove k a.1, adjust k linked_state a.2) in
    Leaves-then Q P (end_parent edge.parent_task_id now status l) _
      (end_parent-Leaves Q edge.parent_task_id now status l h)
      (λ _ m g.
        Leaves-then R P (end_edge k status (end_task child status m)) _
          (end_edge-Leaves R k status (end_task child status m) g) (λ _ n f. f))

pub end_tasks-Leaves :
    (P : Edges → Type 0) (deferred : Bool) (k : String) (edge : TaskEdgeRow) (child : String)
    (status : ChildTerminalStatus) (c p : Option TaskRow) (l : Ledger)
    → P (deferred_edges k (edges_of l))
    → P (ended_edges k status (edges_of l))
    → Leaves P (end_tasks deferred k edge child status c p l)
unfolding end_tasks
end_tasks-Leaves P deferred k edge child status none p l h g = tt
end_tasks-Leaves P deferred k edge child status (some c) none l h g =
    elim (Bool-cases (conflicts status c.status)) [ inl b ↦ rw b tt | inr b ↦ rw b tt ]
end_tasks-Leaves P deferred k edge child status (some c) (some p) l h g =
    go deferred (conflicts status c.status) (parent_conflicts deferred status p.status)
  where
    go :
        (later child_conflicts conflicts_parent : Bool)
        → Leaves P (
            if child_conflicts
            then (throws "child task already has a different terminal status", l)
            else if conflicts_parent
            then (throws "parent task already has a different terminal status", l)
            else if later
            then defer_delivery k edge child l
            else end_all k edge child p.status status l)
    go later true b = tt
    go later false true = tt
    go true false false = defer_delivery-Leaves P k edge child l h
    go false false false = end_all-Leaves P k edge child p.status status l g
