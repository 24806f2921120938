-- ===== src/Ledger/Acknowledged.antt =====
-- That three acknowledgements end a pending delivery of ledger/store.ts.
use mathlib.Core.Path.{subst}
use pi_task.Common.{
  String, Bool, true, false, Option, none, some, ◌≡◌, refl, sym, ap, ◌∙◌, inl, inr, Bool-cases,
  returns, throws, lookup, eq_refl, lookup-remove,
}
use pi_task.Ledger.Tables.{adjust, on_row, lookup-adjust}
use pi_task.Ledger.Rows.{
  ChildTerminalStatus, ChildEdgeStatus, TaskEdgeRow, Ledger, Outcome, ChildTerminalSettlement,
  linked, ChildDeliveryState,
}
use pi_task.Ledger.Tasks.{
  transaction, commit_or_rollback, ◌then◌, update_task_status, drop_task_override,
}
use pi_task.Ledger.Children.{
  get_task_edge, joined_edge, with_edge_status, drop_continuation_override, update_continuation,
  drop_edge_override, update_edge_status,
}
use pi_task.Ledger.View.{status_of}
use pi_task.Ledger.Outbox.{get_child_terminal_settlement}
use pi_task.Ledger.Delivery.{
  DeliveryStep, receipt, trace, final_receipt, deliver, delivered_step, update_delivery,
  all_delivered, finish_delivery, finish_with, acknowledge_by_state, acknowledge_settlement,
  acknowledge_child_delivery_step, acknowledge_child_delivery,
}

-- An edge with a child, whose settlement is linked, has this end and this delivery.
pub record IsOpen (k child : String) (c : ChildTerminalStatus) (d : ChildDeliveryState) (l : Ledger)
    : Type 0 where
  pub edge : TaskEdgeRow
  pub settlement : ChildTerminalSettlement
  pub row : get_task_edge k l ≡ some edge
  pub of_child : edge.child_task_id ≡ some child
  pub stored : lookup k l.child_terminal_settlements ≡ some settlement
  pub is_linked : settlement.state ≡ linked
  pub end_status : settlement.child_status ≡ c
  pub delivery : settlement.delivery ≡ d

-- A call that returns leaves tables for which `P` holds; one that throws is excluded.
abbrev pub Returns : {A : Type 0} → (A → Ledger → Type 0) → Outcome A → Type 0
Returns P (returns a, l) = P a l
Returns P (throws e, l) = ⊥

Returns-transaction :
    {A : Type 0}
    → (P : A → Ledger → Type 0) (work : Ledger → Outcome A) (l : Ledger) → Returns P (work l)
    → Returns P (transaction work l)
unfolding transaction
Returns-transaction P work l h = go P (work l) h
  where
    go :
        {A : Type 0}
        → (P : A → Ledger → Type 0) → (o : Outcome A) → Returns P o
        → Returns P (commit_or_rollback l o)
    go P (returns a, m) h = h
    go P (throws e, m) h = elim h [ ]

Returns-then :
    {A B : Type 0}
    → (Q : A → Ledger → Type 0) (P : B → Ledger → Type 0) (o : Outcome A)
      (rest : A → Ledger → Outcome B)
    → Returns Q o
    → ((a : A) (l : Ledger) → Q a l → Returns P (rest a l))
    → Returns P (o then rest)
Returns-then Q P (returns a, l) rest h next = next a l h
Returns-then Q P (throws e, l) rest h next = elim h [ ]

finished_row :
    (o : Option ChildEdgeStatus) (row : Option TaskEdgeRow) (s : ChildEdgeStatus)
    (edge : TaskEdgeRow)
    → joined_edge o row ≡ some edge
    → joined_edge none (on_row true (with_edge_status s) row) ≡ some (with_edge_status s edge)
finished_row o none s edge h = cc
finished_row none (some base) s edge h = ap (on_row true (with_edge_status s)) h
finished_row (some t) (some base) s edge h = ap (on_row true (with_edge_status s)) h

-- What an acknowledgement leaves: the delivery with the step, and the end if that is all of it.
Returns-weaken :
    {A : Type 0}
    → (Q P : A → Ledger → Type 0) (o : Outcome A) → Returns Q o
    → ((a : A) (l : Ledger) → Q a l → P a l)
    → Returns P o
Returns-weaken Q P (returns a, l) h next = next a l h
Returns-weaken Q P (throws e, l) h next = elim h [ ]

abbrev IsAfter :
    String
    → String
    → ChildTerminalStatus
    → ChildDeliveryState
    → Option TaskEdgeRow
    → Ledger
    → Type 0
IsAfter k child c d answer l =
    IsOpen k child c d l
    × (all_delivered d ≡ true → status_of (get_task_edge k l) ≡ some (ChildEdgeStatus.ended c))

module _ (k child : String) (c : ChildTerminalStatus) (d : ChildDeliveryState) (step : DeliveryStep)
    (l : Ledger) (is_open : IsOpen k child c d l) where
  stored_after :
      lookup k (adjust k (delivered_step step) l.child_terminal_settlements)
      ≡ some (delivered_step step is_open.settlement)
  stored_after =
      rw
        (
          lookup-adjust k k (delivered_step step) l.child_terminal_settlements,
          eq_refl k,
          is_open.stored,
        )
        refl

  updated-IsOpen : IsOpen k child c (deliver step d) (update_delivery k step l)
  unfolding update_delivery get_task_edge
  updated-IsOpen = record {
    edge = is_open.edge;
    settlement = delivered_step step is_open.settlement;
    row = is_open.row;
    of_child = is_open.of_child;
    stored = stored_after;
    is_linked = is_open.is_linked;
    end_status = is_open.end_status;
    delivery = ap (deliver step) is_open.delivery;
  }

  last : Ledger
  last =
      finish_delivery k is_open.edge child is_open.settlement.child_status
        (update_delivery k step l)

  row_after :
      get_task_edge k last
      ≡ some (with_edge_status (ChildEdgeStatus.ended is_open.settlement.child_status) is_open.edge)
  unfolding last get_task_edge finish_delivery update_delivery drop_continuation_override
      drop_edge_override drop_task_override update_continuation update_edge_status
      update_task_status
  row_after =
      rw
        (
          lookup-remove k k l.task_edge_status_overrides,
          lookup-adjust k k
              (with_edge_status (ChildEdgeStatus.ended is_open.settlement.child_status))
              l.task_edges,
          eq_refl k,
        )
        (finished_row (lookup k l.task_edge_status_overrides) (lookup k l.task_edges)
          (ChildEdgeStatus.ended is_open.settlement.child_status) is_open.edge is_open.row)

  last-IsOpen : IsOpen k child c (deliver step d) last
  unfolding last finish_delivery update_delivery drop_continuation_override drop_edge_override
      drop_task_override update_continuation update_edge_status update_task_status
  last-IsOpen = record {
    edge = with_edge_status (ChildEdgeStatus.ended is_open.settlement.child_status) is_open.edge;
    settlement = delivered_step step is_open.settlement;
    row = row_after;
    of_child = is_open.of_child;
    stored = stored_after;
    is_linked = is_open.is_linked;
    end_status = is_open.end_status;
    delivery = ap (deliver step) is_open.delivery;
  }

  last-IsAfter : IsAfter k child c (deliver step d) (get_task_edge k last) last
  last-IsAfter = (
    last-IsOpen,
    λ all. ap status_of row_after ∙ ap (λ e. some (ChildEdgeStatus.ended e)) is_open.end_status,
  )

  finish_with-Returns :
      Returns (IsAfter k child c (deliver step d)) (
        finish_with k
          (some is_open.edge)
          is_open.settlement.child_status
          (update_delivery k step l))
  unfolding last finish_delivery
  finish_with-Returns = rw is_open.of_child last-IsAfter

  by_state-Returns :
      Returns
        (IsAfter k child c (deliver step d))
        (acknowledge_by_state k step is_open.settlement linked l)
  unfolding acknowledge_by_state updated-IsOpen
  by_state-Returns = elim (Bool-cases (all_delivered (deliver step is_open.settlement.delivery))) [
    | inl all ↦ rw all (
        subst
          (λ o.
            Returns (IsAfter k child c (deliver step d))
              (finish_with k o is_open.settlement.child_status (update_delivery k step l)))
          (sym updated-IsOpen.row) finish_with-Returns)
    | inr left ↦ rw left (
      updated-IsOpen,
      λ all.
          elim (clash left (ap (λ x. all_delivered (deliver step x)) is_open.delivery ∙ all)) [ ],
    )
  ]
    where
      clash : {b : Bool} → b ≡ false → b ≡ true → ⊥
      clash p r = cc

  acknowledge-Returns :
      Returns (IsAfter k child c (deliver step d)) (acknowledge_child_delivery_step k step l)
  unfolding acknowledge_child_delivery_step get_child_terminal_settlement acknowledge_settlement
  acknowledge-Returns =
      let P : Option TaskEdgeRow → Ledger → Type 0 = IsAfter k child c (deliver step d) in
      Returns-transaction P _ l (
        subst (λ o. Returns P (acknowledge_settlement k step o l)) (sym is_open.stored)
          (subst (λ state. Returns P (acknowledge_by_state k step is_open.settlement state l))
            (sym is_open.is_linked) by_state-Returns))

-- On an edge with a child whose settlement is linked, `acknowledgeChildDelivery` returns, and leaves
-- the edge with the end of the settlement, whatever was delivered before.
pub acknowledge_child_delivery_ends :
    (k child : String) (c : ChildTerminalStatus) (d : ChildDeliveryState) (l : Ledger)
    → IsOpen k child c d l
    → Returns
        (λ answer m. status_of (get_task_edge k m) ≡ some (ChildEdgeStatus.ended c))
        (acknowledge_child_delivery k l)
unfolding acknowledge_child_delivery all_delivered deliver
acknowledge_child_delivery_ends k child c d l h =
    let P : Option TaskEdgeRow → Ledger → Type 0 =
      λ answer m. status_of (get_task_edge k m) ≡ some (ChildEdgeStatus.ended c) in
    let Q : ChildDeliveryState → Option TaskEdgeRow → Ledger → Type 0 = IsAfter k child c in
    Returns-then (Q (deliver receipt d)) P (acknowledge_child_delivery_step k receipt l) _
      (acknowledge-Returns k child c d receipt l h)
      (λ _ m (first, _).
        Returns-then (Q (deliver trace (deliver receipt d))) P
          (acknowledge_child_delivery_step k trace m) _
          (acknowledge-Returns k child c (deliver receipt d) trace m first)
          (λ _ n (second, _).
            Returns-weaken (Q (deliver final_receipt (deliver trace (deliver receipt d)))) P
              (acknowledge_child_delivery_step k final_receipt n)
              (acknowledge-Returns k child c (deliver trace (deliver receipt d)) final_receipt n
                second)
              (λ _ _ (_, ended). ended refl)))
