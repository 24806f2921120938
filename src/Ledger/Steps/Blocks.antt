-- ===== src/Ledger/Steps/Blocks.antt =====
-- The moves of child edges to resumable and to blocked are moves of the state machine.
use pi_task.Common.{
  String, Option, none, some, if◌then◌else◌, lookup, str_eq, ◌≡◌, refl, inl, inr, Bool-cases,
  Option-cases,
}
use pi_task.Ledger.Tasks.{set_task_status, ◌then◌}
use pi_task.Ledger.Rows.{failed, TaskStatus, ChildEdgeStatus, TaskEdgeRow, Ledger}
use pi_task.Ledger.Children.{
  get_task_edge, is_claimed, can_block, read_edge, resumable_statements, mark_resumable_if,
  mark_child_resumable, blocked_statements, mark_blocked_if, mark_child_blocked, block_edge,
  block_by_status, fail_both, block_child, override_child_status, update_child_status,
  override_edge_status, update_continuation, drop_edge_override, update_edge_status,
}
use pi_task.Ledger.View.{
  status_of, Edges, edges_of, view_of, view, update_drop-view, update_override-view,
}
use pi_task.Ledger.Machine.{suspends, blocks}
use pi_task.Ledger.Steps.Moving.{
  EdgesMove, EdgesMove-refl, one_edge-EdgesMove, view-get_task_edge, at_status, Leaves,
  Leaves-of_edges, read_last, Leaves-then, Leaves-transaction, set_task_status-Leaves,
}

pub view-resumable_statements :
    (k e : String) (edge : TaskEdgeRow) (l : Ledger)
    → view e (resumable_statements k edge l)
      ≡ at_status ChildEdgeStatus.resumable (str_eq k e) (view e l)
unfolding resumable_statements update_continuation override_child_status update_child_status
    override_edge_status update_edge_status view_of
view-resumable_statements k e edge l =
    update_override-view e k ChildEdgeStatus.resumable l.task_edges l.task_edge_status_overrides
      l.child_terminal_settlements

view-blocked_statements :
    (k e : String) (edge : TaskEdgeRow) (l : Ledger)
    → view e (blocked_statements k edge l)
      ≡ at_status ChildEdgeStatus.blocked (str_eq k e) (view e l)
unfolding blocked_statements update_continuation update_child_status drop_edge_override
    update_edge_status view_of
view-blocked_statements k e edge l =
    update_drop-view e k ChildEdgeStatus.blocked l.task_edges l.task_edge_status_overrides
      l.child_terminal_settlements

-- For an edge whose status is `claimed`; the guard reads the row alone.
mark_resumable_if-EdgesMove :
    (k : String) (base : Option TaskEdgeRow) (l : Ledger)
    → status_of (get_task_edge k l) ≡ some ChildEdgeStatus.claimed
    → EdgesMove (edges_of l) (edges_of (mark_resumable_if k base l).1)
unfolding mark_resumable_if
mark_resumable_if-EdgesMove k none l q = EdgesMove-refl (edges_of l)
mark_resumable_if-EdgesMove k (some base) l q = elim (Bool-cases (is_claimed base.status)) [
  | inl can ↦ rw can (
      one_edge-EdgesMove k (edges_of l) (edges_of (resumable_statements k base l))
        (at_status ChildEdgeStatus.resumable) (λ v. refl)
        (λ e. view-resumable_statements k e base l)
        (rw (view-get_task_edge k l, q) (suspends (lookup k l.child_terminal_settlements))))
  | inr not_allowed ↦ rw not_allowed (EdgesMove-refl (edges_of l))
]

pub mark_child_resumable-EdgesMove :
    (k : String) (l : Ledger)
    → status_of (get_task_edge k l) ≡ some ChildEdgeStatus.claimed
    → EdgesMove (edges_of l) (edges_of (mark_child_resumable k l).1)
unfolding mark_child_resumable
mark_child_resumable-EdgesMove k l q =
    read_last (EdgesMove (edges_of l)) k (mark_resumable_if k (lookup k l.task_edges) l)
      (mark_resumable_if-EdgesMove k (lookup k l.task_edges) l q)

mark_blocked_if-EdgesMove :
    (k : String) (o : Option TaskEdgeRow) (l : Ledger)
    → get_task_edge k l ≡ o
    → EdgesMove (edges_of l) (edges_of (mark_blocked_if k o l).1)
unfolding mark_blocked_if
mark_blocked_if-EdgesMove k none l q = EdgesMove-refl (edges_of l)
mark_blocked_if-EdgesMove k (some edge) l q = elim (Bool-cases (can_block edge.status)) [
  | inl can ↦ rw can (
      one_edge-EdgesMove k (edges_of l) (edges_of (blocked_statements k edge l))
        (at_status ChildEdgeStatus.blocked) (λ v. refl) (λ e. view-blocked_statements k e edge l)
        (rw (view-get_task_edge k l, q)
          (blocks edge.status (lookup k l.child_terminal_settlements) can)))
  | inr not_allowed ↦ rw not_allowed (EdgesMove-refl (edges_of l))
]

pub mark_child_blocked-EdgesMove :
    (k : String) (l : Ledger) → EdgesMove (edges_of l) (edges_of (mark_child_blocked k l).1)
unfolding mark_child_blocked
mark_child_blocked-EdgesMove k l =
    read_last (EdgesMove (edges_of l)) k (mark_blocked_if k (get_task_edge k l) l)
      (mark_blocked_if-EdgesMove k (get_task_edge k l) l refl)

fail_both-Leaves :
    (P : Edges → Type 0) (k parent child : String) (l : Ledger)
    → P (edges_of l)
    → Leaves P (fail_both k parent child l)
unfolding fail_both
fail_both-Leaves P k parent child l h =
    Leaves-then P P (set_task_status child (TaskStatus.ended failed) l)
      (λ _ m. set_task_status parent (TaskStatus.ended failed) m then λ _ n. read_edge k n)
      (set_task_status-Leaves P child (TaskStatus.ended failed) l h)
      (λ _ m g.
        Leaves-then P P (set_task_status parent (TaskStatus.ended failed) m) (λ _ n. read_edge k n)
          (set_task_status-Leaves P parent (TaskStatus.ended failed) m g) (λ _ n f. f))

after_mark :
    (k parent child : String) (l : Ledger)
    → Leaves
        (EdgesMove (edges_of l))
        (mark_child_blocked k l then λ _ m. fail_both k parent child m)
after_mark k parent child l =
    Leaves-then (EdgesMove (edges_of l)) (EdgesMove (edges_of l)) (mark_child_blocked k l)
      (λ _ m. fail_both k parent child m)
      (Leaves-of_edges (EdgesMove (edges_of l)) (mark_child_blocked k l)
        (mark_child_blocked-EdgesMove k l))
      (λ _ m h. fail_both-Leaves (EdgesMove (edges_of l)) k parent child m h)

block_by_status-Leaves :
    (k parent child : String) (s : ChildEdgeStatus) (l : Ledger)
    → Leaves (EdgesMove (edges_of l)) (block_by_status k parent child s l)
unfolding block_by_status
block_by_status-Leaves k parent child (ChildEdgeStatus.ended s) l = tt
block_by_status-Leaves k parent child ChildEdgeStatus.blocked l =
    fail_both-Leaves (EdgesMove (edges_of l)) k parent child l (EdgesMove-refl (edges_of l))
block_by_status-Leaves k parent child ChildEdgeStatus.preparing l = after_mark k parent child l
block_by_status-Leaves k parent child ChildEdgeStatus.ready l = after_mark k parent child l
block_by_status-Leaves k parent child ChildEdgeStatus.claimed l = after_mark k parent child l
block_by_status-Leaves k parent child ChildEdgeStatus.resumable l = after_mark k parent child l
block_by_status-Leaves k parent child ChildEdgeStatus.delivery_pending l =
    after_mark k parent child l

block_edge-Leaves :
    (k : String) (o : Option TaskEdgeRow) (l : Ledger)
    → Leaves (EdgesMove (edges_of l)) (block_edge k o l)
unfolding block_edge
block_edge-Leaves k none l = tt
block_edge-Leaves k (some edge) l = elim (Option-cases edge.child_task_id) [
  | inl no_child ↦ rw no_child tt
  | inr (child, e) ↦ rw e (block_by_status-Leaves k edge.parent_task_id child edge.status l)
]

pub block_child-EdgesMove :
    (k : String) (l : Ledger) → EdgesMove (edges_of l) (edges_of (block_child k l).1)
unfolding block_child
block_child-EdgesMove k l =
    Leaves-transaction (EdgesMove (edges_of l)) (λ m. block_edge k (get_task_edge k m) m) l
      (EdgesMove-refl (edges_of l)) (block_edge-Leaves k (get_task_edge k l) l)
