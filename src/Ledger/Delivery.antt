-- ===== src/Ledger/Delivery.antt =====
-- packages/core-v2/src/ledger/store.ts: the acknowledgements of a settlement's delivery, and its
-- failures. What `detail.slice(0, 256)` keeps of a text is the parameter `bounded`.
use pi_task.Common.{String, ◌&&◌, Bool, true, Option, none, some, if◌then◌else◌, returns, throws}
use pi_task.Ledger.Tables.{adjust}
use pi_task.Ledger.Rows.{
  ChildTerminalStatus, ChildEdgeStatus, TaskStatus, TaskEdgeRow, Ledger, Outcome, SettlementState,
  pending, linked, ChildDeliveryState, ChildTerminalSettlement, ChildDeliveryFailureCode,
  process_lost_between_delivery_steps,
}
use pi_task.Ledger.Tasks.{update_task_status, drop_task_override, transaction, ◌then◌}
use pi_task.Ledger.Outbox.{get_child_terminal_settlement}
use pi_task.Ledger.Children.{
  get_task_edge, update_edge_status, drop_edge_override, update_continuation,
  drop_continuation_override, read_edge,
}

pub data DeliveryStep : Type 0 where
  receipt trace final_receipt : DeliveryStep

unfoldable pub deliver : DeliveryStep → ChildDeliveryState → ChildDeliveryState
deliver receipt d = record d { receipt_delivered = true }
deliver trace d = record d { trace_delivered = true }
deliver final_receipt d = record d { final_receipt_delivered = true }

abbrev pub delivered_step : DeliveryStep → ChildTerminalSettlement → ChildTerminalSettlement
delivered_step step s = record s { delivery = deliver step s.delivery }

unfoldable pub update_delivery : String → DeliveryStep → Ledger → Ledger
update_delivery id step l = record l {
  child_terminal_settlements = adjust id (delivered_step step) l.child_terminal_settlements;
}

unfoldable pub all_delivered : ChildDeliveryState → Bool
all_delivered d = d.receipt_delivered && d.trace_delivered && d.final_receipt_delivered

-- The statements that end the edge and its tasks once all is delivered.
unfoldable pub finish_delivery :
    String → TaskEdgeRow → String → ChildTerminalStatus → Ledger → Ledger
finish_delivery id edge child status l = drop_continuation_override edge.workspace_continuation_id (
    drop_edge_override id (
      drop_task_override child (
        drop_task_override edge.parent_task_id (
          update_continuation edge.workspace_continuation_id (ChildEdgeStatus.ended status) (
            update_edge_status id (ChildEdgeStatus.ended status) (
              update_task_status child (TaskStatus.ended status)
                (update_task_status edge.parent_task_id (TaskStatus.ended status) l)))))))

abbrev pub finish_with :
    String → Option TaskEdgeRow → ChildTerminalStatus → Ledger → Outcome (Option TaskEdgeRow)
finish_with id none status l = (throws "unknown terminal child edge", l)
finish_with id (some edge) status l = finish_child edge.child_task_id
  where
    finish_child : Option String → Outcome (Option TaskEdgeRow)
    finish_child none = (throws "unknown terminal child edge", l)
    finish_child (some child) = read_edge id (finish_delivery id edge child status l)

unfoldable pub acknowledge_by_state :
    String
    → DeliveryStep
    → ChildTerminalSettlement
    → SettlementState
    → Ledger
    → Outcome (Option TaskEdgeRow)
acknowledge_by_state id step s pending l = (throws "canonical terminal evidence is not linked", l)
acknowledge_by_state id step s linked l =
    if all_delivered (deliver step s.delivery)
    then finish_with id (get_task_edge id (update_delivery id step l)) s.child_status
        (update_delivery id step l)
    else read_edge id (update_delivery id step l)

-- On the settlement as it is before the step.
unfoldable pub acknowledge_settlement :
    String → DeliveryStep → Option ChildTerminalSettlement → Ledger → Outcome (Option TaskEdgeRow)
acknowledge_settlement id step none l = (throws "terminal settlement does not exist", l)
acknowledge_settlement id step (some s) l = acknowledge_by_state id step s s.state l

unfoldable pub acknowledge_child_delivery_step :
    String → DeliveryStep → Ledger → Outcome (Option TaskEdgeRow)
acknowledge_child_delivery_step id step =
    transaction (λ l. acknowledge_settlement id step (get_child_terminal_settlement id l) l)

unfoldable pub acknowledge_child_delivery : String → Ledger → Outcome (Option TaskEdgeRow)
acknowledge_child_delivery id l = acknowledge_child_delivery_step id receipt l then λ _ m.
    acknowledge_child_delivery_step id trace m then λ _ n.
    acknowledge_child_delivery_step id final_receipt n

abbrev pub failed_delivery :
    ChildDeliveryFailureCode → String → ChildTerminalSettlement → ChildTerminalSettlement
failed_delivery code detail s = record s {
  delivery = record s.delivery { failure_code = some code; failure_detail = some detail };
}

module _ (bounded : String → String) where
  abbrev pub record_failure :
      String
      → ChildDeliveryFailureCode
      → String
      → Option ChildTerminalSettlement
      → Ledger
      → Outcome (Option ChildTerminalSettlement)
  record_failure id code detail none l = (throws "terminal settlement does not exist", l)
  record_failure id code detail (some s) l =
      let after = record l {
        child_terminal_settlements =
            adjust id (failed_delivery code (bounded detail)) l.child_terminal_settlements;
      } in
      (returns (get_child_terminal_settlement id after), after)

  unfoldable pub record_child_delivery_failure :
      String → ChildDeliveryFailureCode → String → Ledger → Outcome (Option ChildTerminalSettlement)
  record_child_delivery_failure id code detail =
      transaction (λ l. record_failure id code detail (get_child_terminal_settlement id l) l)

  unfoldable pub note_child_delivery_process_loss :
      String → Ledger → Outcome (Option ChildTerminalSettlement)
  note_child_delivery_process_loss id =
      record_child_delivery_failure id process_lost_between_delivery_steps
        "process ended before all external delivery acknowledgements"
