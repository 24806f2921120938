-- ===== src/Ledger/Steps/Claims.antt =====
-- The claims of child edges make only moves of the state machine.
use pi_task.Common.{
  String, ℕ, Bool, true, false, Option, none, some, lookup, str_eq, ◌≡◌, refl, inl, inr, Bool-cases,
}
use pi_task.Ledger.Rows.{ChildEdgeStatus, TaskEdgeRow, Ledger, ChildTerminalSettlement}
use pi_task.Ledger.Children.{
  get_task_edge, claim, claim_if, claim_ready_child, claim_resumable_child, claim_ready_child_at,
  claim_at, edge_at, is_ready, is_resumable, drop_continuation_override, update_continuation,
  drop_edge_override, update_edge_status,
}
use pi_task.Ledger.View.{edges_of, view_of, view, update_drop-view}
use pi_task.Ledger.Machine.{Moves, claims, resumes}
use pi_task.Ledger.Steps.Moving.{
  EdgesMove, EdgesMove-refl, one_edge-EdgesMove, view-get_task_edge, at_status,
}

pub view-claim :
    (k e : String) (edge : TaskEdgeRow) (l : Ledger)
    → view e (claim k edge l) ≡ at_status ChildEdgeStatus.claimed (str_eq k e) (view e l)
unfolding claim drop_continuation_override update_continuation drop_edge_override update_edge_status
    view_of
view-claim k e edge l =
    update_drop-view e k ChildEdgeStatus.claimed l.task_edges l.task_edge_status_overrides
      l.child_terminal_settlements

ready_claims :
    (s : ChildEdgeStatus) (o : Option ChildTerminalSettlement)
    → is_ready s ≡ true
    → Moves (some s, o) (some ChildEdgeStatus.claimed, o)
unfolding is_ready
ready_claims ChildEdgeStatus.ready o h = claims o
ready_claims ChildEdgeStatus.preparing o h = cc
ready_claims ChildEdgeStatus.claimed o h = cc
ready_claims ChildEdgeStatus.resumable o h = cc
ready_claims ChildEdgeStatus.blocked o h = cc
ready_claims ChildEdgeStatus.delivery_pending o h = cc
ready_claims (ChildEdgeStatus.ended s) o h = cc

resumable_claims :
    (s : ChildEdgeStatus) (o : Option ChildTerminalSettlement)
    → is_resumable s ≡ true
    → Moves (some s, o) (some ChildEdgeStatus.claimed, o)
unfolding is_resumable
resumable_claims ChildEdgeStatus.resumable o h = resumes o
resumable_claims ChildEdgeStatus.preparing o h = cc
resumable_claims ChildEdgeStatus.claimed o h = cc
resumable_claims ChildEdgeStatus.ready o h = cc
resumable_claims ChildEdgeStatus.blocked o h = cc
resumable_claims ChildEdgeStatus.delivery_pending o h = cc
resumable_claims (ChildEdgeStatus.ended s) o h = cc

module _ (allowed : ChildEdgeStatus → Bool)
    (moves : (s : ChildEdgeStatus) (o : Option ChildTerminalSettlement)
      → allowed s ≡ true
      → Moves (some s, o) (some ChildEdgeStatus.claimed, o)) where
  claim_if-EdgesMove :
      (busy : Bool) (k : String) (o : Option TaskEdgeRow) (l : Ledger)
      → get_task_edge k l ≡ o
      → EdgesMove (edges_of l) (edges_of (claim_if allowed busy k o l).1)
  unfolding claim_if
  claim_if-EdgesMove true k o l q = EdgesMove-refl (edges_of l)
  claim_if-EdgesMove false k none l q = EdgesMove-refl (edges_of l)
  claim_if-EdgesMove false k (some edge) l q = elim (Bool-cases (allowed edge.status)) [
    | inl can ↦ rw can (
        one_edge-EdgesMove k (edges_of l) (edges_of (claim k edge l))
          (at_status ChildEdgeStatus.claimed) (λ v. refl) (λ e. view-claim k e edge l)
          (rw (view-get_task_edge k l, q)
            (moves edge.status (lookup k l.child_terminal_settlements) can)))
    | inr not_allowed ↦ rw not_allowed (EdgesMove-refl (edges_of l))
  ]

pub claim_ready_child-EdgesMove :
    (busy : Bool) (k : String) (l : Ledger)
    → EdgesMove (edges_of l) (edges_of (claim_ready_child busy k l).1)
unfolding claim_ready_child
claim_ready_child-EdgesMove busy k l =
    claim_if-EdgesMove is_ready ready_claims busy k (get_task_edge k l) l refl

pub claim_ready_child_at-EdgesMove :
    (busy : Bool) (parent : String) (n : ℕ) (l : Ledger)
    → EdgesMove (edges_of l) (edges_of (claim_ready_child_at busy parent n l).1)
unfolding claim_ready_child_at claim_at
claim_ready_child_at-EdgesMove busy parent n l = by_key (edge_at parent n l.task_edges)
  where
    by_key : (o : Option String) → EdgesMove (edges_of l) (edges_of (claim_at busy o l).1)
    by_key none = EdgesMove-refl (edges_of l)
    by_key (some k) = claim_if-EdgesMove is_ready ready_claims busy k (get_task_edge k l) l refl

pub claim_resumable_child-EdgesMove :
    (busy : Bool) (k : String) (l : Ledger)
    → EdgesMove (edges_of l) (edges_of (claim_resumable_child busy k l).1)
unfolding claim_resumable_child
claim_resumable_child-EdgesMove busy k l =
    claim_if-EdgesMove is_resumable resumable_claims busy k (get_task_edge k l) l refl
