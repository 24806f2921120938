-- ===== src/Ledger/Outbox.antt =====
-- packages/core-v2/src/ledger/store.ts: the durable outbox of a terminal settlement and its start.
-- The schema of a reference is that of a library, the parameter `parses`.
use pi_task.Common.{
  String, ◌&&◌, Bool, true, false, Option, none, some, List, [], ◌∷◌, if◌then◌else◌, lookup, put,
  str_eq, every, returns, throws,
}
use pi_task.Ledger.Tables.{adjust}
use pi_task.Ledger.Rows.{
  ChildTerminalStatus, completed, failed, escalated, ChildEdgeStatus, TaskEdgeRow, Ledger, Outcome,
  ArtifactReference, SettlementState, pending, linked, ChildDeliveryState, ChildTerminalSettlement,
}
use pi_task.Ledger.Tasks.{transaction, ◌then◌}
use pi_task.Ledger.Artifacts.{ChildSettlementArtifacts}
use pi_task.Ledger.Children.{get_task_edge}

unfoldable pub same_end : ChildTerminalStatus → ChildTerminalStatus → Bool
same_end completed completed = true
same_end failed failed = true
same_end escalated escalated = true
same_end _ _ = false

unfoldable pub get_child_terminal_settlement : String → Ledger → Option ChildTerminalSettlement
get_child_terminal_settlement id l = lookup id l.child_terminal_settlements

abbrev pub same_json : ArtifactReference → ArtifactReference → Bool
same_json a b = str_eq a.json b.json

unfoldable pub same_settlement : ChildTerminalSettlement → ChildTerminalSettlement → Bool
same_settlement a b =
    same_end a.child_status b.child_status
    && same_json a.verification_reference b.verification_reference
    && same_json a.result_reference b.result_reference
    && same_json a.receipt_reference b.receipt_reference
    && same_json a.trace_reference b.trace_reference
    && same_json a.parent_receipt_reference b.parent_receipt_reference
    && same_json a.parent_trace_reference b.parent_trace_reference

unfoldable pub references_of : ChildTerminalSettlement → List ArtifactReference
references_of s =
    s.verification_reference ∷ s.result_reference ∷ s.receipt_reference ∷ s.trace_reference
    ∷ s.parent_receipt_reference ∷ s.parent_trace_reference ∷ []

abbrev pub undelivered : ChildDeliveryState
undelivered = record {
  receipt_delivered = false;
  trace_delivered = false;
  final_receipt_delivered = false;
  failure_code = none;
  failure_detail = none;
}

-- `claimed` and `resumable`
unfoldable pub can_settle : ChildEdgeStatus → Bool
can_settle ChildEdgeStatus.claimed = true
can_settle ChildEdgeStatus.resumable = true
can_settle _ = false

-- The row that is inserted: the settlement of the caller, pending and undelivered.
abbrev pub fresh : ChildTerminalSettlement → ChildTerminalSettlement
fresh s = record s { state = pending; delivery = undelivered }

-- After the references have passed their schema.
unfoldable pub begin_settlement :
    String
    → ChildTerminalSettlement
    → Option TaskEdgeRow
    → Option ChildTerminalSettlement
    → Ledger
    → Outcome ChildTerminalSettlement
begin_settlement id s none existing l = (throws "unknown child edge", l)
begin_settlement id s (some edge) (some existing) l =
    if same_settlement existing s
    then (returns existing, l)
    else (throws "terminal settlement conflicts with durable evidence", l)
begin_settlement id s (some edge) none l =
    if can_settle edge.status
    then (
      returns (fresh s),
      record l { child_terminal_settlements = put id (fresh s) l.child_terminal_settlements },
    )
    else (throws "child edge must be claimed before terminal settlement", l)

abbrev pub linked_state : ChildTerminalSettlement → ChildTerminalSettlement
linked_state s = record s { state = linked }

unfoldable pub link_settlement : String → Ledger → Ledger
link_settlement id l = record l {
  child_terminal_settlements = adjust id linked_state l.child_terminal_settlements;
}

abbrev pub names : String → Option String → Bool
names id none = false
names id (some other) = str_eq id other

-- A pending settlement must be the one that is linked.
unfoldable pub matches_outbox :
    ChildTerminalStatus → ChildSettlementArtifacts → Option ChildTerminalSettlement → Bool
matches_outbox status a none = true
matches_outbox status a (some s) = of_state s.state
  where
    of_state : SettlementState → Bool
    of_state linked = true
    of_state pending =
        same_end s.child_status status
        && str_eq s.result_reference.id a.result_artifact_id
        && str_eq s.receipt_reference.id a.receipt_artifact_id
        && str_eq s.trace_reference.id a.trace_artifact_id
        && names s.parent_receipt_reference.id a.parent_receipt_artifact_id
        && names s.parent_trace_reference.id a.parent_trace_artifact_id

module _ (parses : ArtifactReference → Bool) where
  unfoldable pub begin_child_terminal_settlement :
      String → ChildTerminalSettlement → Ledger → Outcome ChildTerminalSettlement
  begin_child_terminal_settlement id s = transaction (λ l.
      if every parses (references_of s)
      then begin_settlement id s (get_task_edge id l) (get_child_terminal_settlement id l) l
      else (throws "ZodError", l))
