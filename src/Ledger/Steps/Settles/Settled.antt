-- ===== src/Ledger/Steps/Settles/Settled.antt =====
-- The settlement of a child edge makes only moves of the state machine.
use pi_task.Common.{
  String, Bool, true, Option, none, some, lookup, ◌≡◌, refl, ap, inl, inr, Bool-cases,
}
use pi_task.Ledger.Tasks.{get_task}
use pi_task.Ledger.Rows.{
  ChildTerminalStatus, ArtifactReference, ChildEdgeStatus, TaskEdgeRow, Ledger,
  ChildTerminalSettlement,
}
use pi_task.Ledger.Children.{get_task_edge}
use pi_task.Ledger.Artifacts.{
  ChildSettlementArtifacts, insert_artifacts, settlement_artifacts, all_addressed,
}
use pi_task.Ledger.Outbox.{same_end, get_child_terminal_settlement, can_settle, matches_outbox}
use pi_task.Ledger.Settlement.{
  settle_evidence, settle_child_of, settle_by_status, settle_edge, settle_child,
}
use pi_task.Ledger.View.{Edges, edges_of}
use pi_task.Ledger.Machine.{defers, settles, IsOutboxOf}
use pi_task.Ledger.Steps.Moving.{
  EdgesMove, EdgesMove-refl, one_edge-EdgesMove, view-get_task_edge, Leaves, Leaves-then,
  Leaves-transaction,
}
use pi_task.Ledger.Steps.Evidence.{
  deferred_edges, ended_edges, at_link, view-deferred_edges, view-ended_edges,
  matches_outbox-IsOutboxOf, insert_artifacts-Leaves,
}
use pi_task.Ledger.Steps.Settles.Statements.{end_tasks-Leaves}

module _ (k : String) (l : Ledger) (edge : TaskEdgeRow) (row : get_task_edge k l ≡ some edge)
    (can : can_settle edge.status ≡ true) (status : ChildTerminalStatus)
    (outbox : IsOutboxOf status (lookup k l.child_terminal_settlements)) where
  deferred-EdgesMove : EdgesMove (edges_of l) (deferred_edges k (edges_of l))
  deferred-EdgesMove =
      one_edge-EdgesMove k (edges_of l) (deferred_edges k (edges_of l))
        (at_link ChildEdgeStatus.delivery_pending) (λ v. refl)
        (λ e. view-deferred_edges k e (edges_of l))
        (rw (view-get_task_edge k l, row)
          (defers edge.status status (lookup k l.child_terminal_settlements) can outbox))

  ended-EdgesMove : EdgesMove (edges_of l) (ended_edges k status (edges_of l))
  ended-EdgesMove =
      one_edge-EdgesMove k (edges_of l) (ended_edges k status (edges_of l))
        (at_link (ChildEdgeStatus.ended status)) (λ v. refl)
        (λ e. view-ended_edges k e status (edges_of l))
        (rw (view-get_task_edge k l, row)
          (settles edge.status status (lookup k l.child_terminal_settlements) can outbox))

module _ (parses : ArtifactReference → Bool) (is_content_address : String → Bool) (deferred : Bool)
    (k : String) (status : ChildTerminalStatus) (a : ChildSettlementArtifacts) (l : Ledger) where
  settle_evidence-Leaves :
      (edge : TaskEdgeRow) (child : String)
      → get_task_edge k l ≡ some edge
      → can_settle edge.status ≡ true
      → Leaves
          (EdgesMove (edges_of l))
          (settle_evidence parses is_content_address deferred k edge child status a l)
  unfolding settle_evidence get_child_terminal_settlement
  settle_evidence-Leaves edge child row can =
      let o : Option ChildTerminalSettlement = lookup k l.child_terminal_settlements in
      let P : Edges → Type 0 = EdgesMove (edges_of l) in
      let Q : Edges → Type 0 = λ b. P (deferred_edges k b) × P (ended_edges k status b) in
      elim (Bool-cases (matches_outbox status a o)) [
        | inl match ↦
            let outbox : IsOutboxOf status o = matches_outbox-IsOutboxOf status a o match in
            elim (Bool-cases (all_addressed is_content_address a)) [
              | inl addressed ↦
                  rw (match, addressed)
                    (Leaves-then Q P
                      (insert_artifacts parses (settlement_artifacts a edge.parent_task_id child) l)
                      _
                      (insert_artifacts-Leaves Q parses
                        (settlement_artifacts a edge.parent_task_id child) l
                        (
                          deferred-EdgesMove k l edge row can status outbox,
                          ended-EdgesMove k l edge row can status outbox,
                        ))
                      (λ _ m (g, h).
                        end_tasks-Leaves P deferred k edge child status (get_task child m)
                          (get_task edge.parent_task_id m) m g h))
              | inr other ↦ rw (match, other) tt
            ]
        | inr other ↦ rw other tt
      ]

  settle_child_of-Leaves :
      (edge : TaskEdgeRow) (o : Option String)
      → get_task_edge k l ≡ some edge
      → can_settle edge.status ≡ true
      → Leaves
          (EdgesMove (edges_of l))
          (settle_child_of parses is_content_address deferred k edge o status a l)
  settle_child_of-Leaves edge none row can = tt
  settle_child_of-Leaves edge (some child) row can = settle_evidence-Leaves edge child row can

  settle_by_status-Leaves :
      (edge : TaskEdgeRow) (s : ChildEdgeStatus)
      → get_task_edge k l ≡ some edge
      → edge.status ≡ s
      → Leaves
          (EdgesMove (edges_of l))
          (settle_by_status parses is_content_address deferred k edge s status a l)
  unfolding settle_by_status can_settle
  settle_by_status-Leaves edge (ChildEdgeStatus.ended s) row q =
      elim (Bool-cases (same_end s status)) [
        | inl same ↦ rw same (EdgesMove-refl (edges_of l))
        | inr other ↦ rw other tt
      ]
  settle_by_status-Leaves edge ChildEdgeStatus.claimed row q =
      settle_child_of-Leaves edge edge.child_task_id row (ap can_settle q)
  settle_by_status-Leaves edge ChildEdgeStatus.resumable row q =
      settle_child_of-Leaves edge edge.child_task_id row (ap can_settle q)
  settle_by_status-Leaves edge ChildEdgeStatus.preparing row q = tt
  settle_by_status-Leaves edge ChildEdgeStatus.ready row q = tt
  settle_by_status-Leaves edge ChildEdgeStatus.blocked row q = tt
  settle_by_status-Leaves edge ChildEdgeStatus.delivery_pending row q = tt

  settle_edge-Leaves :
      (o : Option TaskEdgeRow)
      → get_task_edge k l ≡ o
      → Leaves
          (EdgesMove (edges_of l))
          (settle_edge parses is_content_address deferred k o status a l)
  unfolding settle_edge
  settle_edge-Leaves none q = tt
  settle_edge-Leaves (some edge) q = settle_by_status-Leaves edge edge.status q refl

  pub settle_child-EdgesMove :
      EdgesMove
        (edges_of l)
        (edges_of (settle_child parses is_content_address deferred k status a l).1)
  unfolding settle_child
  settle_child-EdgesMove =
      Leaves-transaction (EdgesMove (edges_of l))
        (λ m. settle_edge parses is_content_address deferred k (get_task_edge k m) status a m) l
        (EdgesMove-refl (edges_of l)) (settle_edge-Leaves (get_task_edge k l) refl)
