-- ===== src/Ledger/Steps/Delivers/Acknowledges.antt =====
-- The acknowledgements of a delivery and its failures make only moves of the state machine.
use pi_task.Common.{
  String, Bool, true, Option, none, some, lookup, remove, Option-cases, str_eq, ◌≡◌, refl, ap, ◌∙◌,
  inl, inr, Bool-cases,
}
use pi_task.Ledger.Tables.{on_row, lookup-adjust, adjust}
use pi_task.Ledger.Tasks.{drop_task_override}
use pi_task.Ledger.Rows.{
  ChildTerminalStatus, SettlementState, pending, linked, ChildEdgeStatus, TaskEdgeRow, Ledger,
  ChildTerminalSettlement,
}
use pi_task.Ledger.Children.{
  get_task_edge, with_edge_status, drop_continuation_override, update_continuation,
  drop_edge_override, update_edge_status,
}
use pi_task.Ledger.Outbox.{get_child_terminal_settlement}
use pi_task.Ledger.View.{status_of, Edges, edges_of, View, view_of, moved, update_drop-view}
use pi_task.Ledger.Machine.{delivers, finishes, fails}
use pi_task.Ledger.Steps.Moving.{
  EdgesMove, EdgesMove-refl, one_edge-EdgesMove, view-get_task_edge, Leaves, Leaves-transaction,
}
use pi_task.Ledger.Delivery.{
  DeliveryStep, deliver, delivered_step, update_delivery, all_delivered, finish_delivery,
  finish_with, acknowledge_by_state, acknowledge_settlement, acknowledge_child_delivery_step,
  failed_delivery, record_failure, record_child_delivery_failure,
}
use pi_task.Ledger.Rows.{ChildDeliveryFailureCode}
use pi_task.Ledger.Tasks.{update_task_status}
use pi_task.Ledger.Steps.Delivers.Begins.{at_settlement, view-at_settlement}

-- The status and the settlement are changed.
abbrev at_finish : ChildTerminalStatus → DeliveryStep → Bool → View → View
at_finish c step b (now, o) =
    (moved b (ChildEdgeStatus.ended c) now, on_row b (delivered_step step) o)

abbrev finished_edges : String → ChildTerminalStatus → DeliveryStep → Edges → Edges
finished_edges k c step (edges, overrides, t) = (
  adjust k (with_edge_status (ChildEdgeStatus.ended c)) edges,
  remove k overrides,
  adjust k (delivered_step step) t,
)

view-finished_edges :
    (k e : String) (c : ChildTerminalStatus) (step : DeliveryStep) (a : Edges)
    → view_of e (finished_edges k c step a) ≡ at_finish c step (str_eq k e) (view_of e a)
unfolding view_of
view-finished_edges k e c step (edges, overrides, t) =
    update_drop-view e k (ChildEdgeStatus.ended c) edges overrides
      (adjust k (delivered_step step) t)
    ∙ ap
        (λ o. (moved (str_eq k e) (ChildEdgeStatus.ended c) (view_of e (edges, overrides, t)).0, o))
        (lookup-adjust k e (delivered_step step) t)

module _ (k : String) (step : DeliveryStep) (s : ChildTerminalSettlement) (l : Ledger) where
  finish_with-Leaves :
      (o : Option TaskEdgeRow)
      → get_task_edge k l ≡ o
      → lookup k l.child_terminal_settlements ≡ some s
      → s.state ≡ linked
      → all_delivered (deliver step s.delivery) ≡ true
      → Leaves (EdgesMove (edges_of l)) (finish_with k o s.child_status (update_delivery k step l))
  unfolding finish_delivery update_delivery drop_continuation_override drop_edge_override
      drop_task_override update_continuation update_edge_status update_task_status
  finish_with-Leaves none q t is all = tt
  finish_with-Leaves (some edge) q t is all = elim (Option-cases edge.child_task_id) [
    | inl no_child ↦ rw no_child tt
    | inr (child, e) ↦ rw e (
        one_edge-EdgesMove k (edges_of l) (finished_edges k s.child_status step (edges_of l))
          (at_finish s.child_status step) (λ v. refl)
          (λ j. view-finished_edges k j s.child_status step (edges_of l))
          (rw (view-get_task_edge k l, q, t) (finishes edge.status s step is all)))
  ]

  acknowledge_by_state-Leaves :
      (state : SettlementState)
      → lookup k l.child_terminal_settlements ≡ some s
      → s.state ≡ state
      → Leaves (EdgesMove (edges_of l)) (acknowledge_by_state k step s state l)
  unfolding acknowledge_by_state update_delivery get_task_edge
  acknowledge_by_state-Leaves pending t is = tt
  acknowledge_by_state-Leaves linked t is =
      elim (Bool-cases (all_delivered (deliver step s.delivery))) [
        | inl all ↦ rw all (finish_with-Leaves (get_task_edge k l) refl t is all)
        | inr some_left ↦ rw some_left (
            one_edge-EdgesMove k (edges_of l) (edges_of (update_delivery k step l))
              (at_settlement (delivered_step step)) (λ v. refl)
              (λ e.
                view-at_settlement k e (delivered_step step) l.task_edges
                  l.task_edge_status_overrides l.child_terminal_settlements)
              (rw (view-get_task_edge k l, t)
                (delivers (status_of (get_task_edge k l)) s step is some_left)))
      ]

acknowledge_settlement-Leaves :
    (k : String) (step : DeliveryStep) (o : Option ChildTerminalSettlement) (l : Ledger)
    → lookup k l.child_terminal_settlements ≡ o
    → Leaves (EdgesMove (edges_of l)) (acknowledge_settlement k step o l)
unfolding acknowledge_settlement
acknowledge_settlement-Leaves k step none l t = tt
acknowledge_settlement-Leaves k step (some s) l t =
    acknowledge_by_state-Leaves k step s l s.state t refl

pub acknowledge_child_delivery_step-EdgesMove :
    (k : String) (step : DeliveryStep) (l : Ledger)
    → EdgesMove (edges_of l) (edges_of (acknowledge_child_delivery_step k step l).1)
unfolding acknowledge_child_delivery_step get_child_terminal_settlement
acknowledge_child_delivery_step-EdgesMove k step l =
    Leaves-transaction (EdgesMove (edges_of l))
      (λ m. acknowledge_settlement k step (get_child_terminal_settlement k m) m) l
      (EdgesMove-refl (edges_of l))
      (acknowledge_settlement-Leaves k step (get_child_terminal_settlement k l) l refl)

record_failure-Leaves :
    (bounded : String → String) (k : String) (code : ChildDeliveryFailureCode) (detail : String)
    (o : Option ChildTerminalSettlement) (l : Ledger)
    → lookup k l.child_terminal_settlements ≡ o
    → Leaves (EdgesMove (edges_of l)) (record_failure bounded k code detail o l)
record_failure-Leaves bounded k code detail none l t = tt
record_failure-Leaves bounded k code detail (some s) l t =
    one_edge-EdgesMove k (edges_of l)
      (
        l.task_edges,
        l.task_edge_status_overrides,
        adjust k (failed_delivery code (bounded detail)) l.child_terminal_settlements,
      )
      (at_settlement (failed_delivery code (bounded detail))) (λ v. refl)
      (λ e.
        view-at_settlement k e (failed_delivery code (bounded detail)) l.task_edges
          l.task_edge_status_overrides l.child_terminal_settlements)
      (rw (view-get_task_edge k l, t)
        (fails (status_of (get_task_edge k l)) s code (bounded detail)))

pub record_child_delivery_failure-EdgesMove :
    (bounded : String → String) (k : String) (code : ChildDeliveryFailureCode) (detail : String)
    (l : Ledger)
    → EdgesMove (edges_of l) (edges_of (record_child_delivery_failure bounded k code detail l).1)
unfolding record_child_delivery_failure get_child_terminal_settlement
record_child_delivery_failure-EdgesMove bounded k code detail l =
    Leaves-transaction (EdgesMove (edges_of l))
      (λ m. record_failure bounded k code detail (get_child_terminal_settlement k m) m) l
      (EdgesMove-refl (edges_of l))
      (record_failure-Leaves bounded k code detail (get_child_terminal_settlement k l) l refl)
