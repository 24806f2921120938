-- ===== src/Ledger/Delivered.antt =====
-- That a pending delivery of ledger/store.ts ends only with all three acknowledgements.
use pi_task.Common.{String, Bool, true, Option, none, some, List, ◌≡◌, refl, arith}
use pi_task.Ledger.Rows.{
  ChildTerminalStatus, ChildEdgeStatus, ArtifactReference, Ledger, linked, ChildDeliveryState,
}
use pi_task.Ledger.Children.{can_block}
use pi_task.Ledger.Outbox.{can_settle}
use pi_task.Ledger.Delivery.{DeliveryStep, receipt, trace, final_receipt, deliver, all_delivered}
use pi_task.Ledger.View.{View, view}
use pi_task.Ledger.Machine.{
  Moves, stays, claims, resumes, suspends, blocks, begins, defers, settles, delivers, finishes,
  fails,
}
use pi_task.Ledger.Runs.{Call, run, IsCareful, run-keeps}

-- The receipt, the trace and the final receipt are delivered.
abbrev pub AreDelivered : ChildDeliveryState → Type 0
AreDelivered d =
    (d.receipt_delivered ≡ true) × (d.trace_delivered ≡ true) × (d.final_receipt_delivered ≡ true)

-- The delivery is pending, or it is over: with this end, and all three parts delivered.
abbrev pub IsWaiting : ChildTerminalStatus → Option ChildEdgeStatus → ChildDeliveryState → Type 0
IsWaiting c none d = ⊥
IsWaiting c (some ChildEdgeStatus.delivery_pending) d = Unit
IsWaiting c (some (ChildEdgeStatus.ended s)) d = (s ≡ c) × AreDelivered d
IsWaiting c (some _) d = ⊥

abbrev pub IsDelivering : ChildTerminalStatus → View → Type 0
IsDelivering c (s, none) = ⊥
IsDelivering c (s, some t) = (t.state ≡ linked) × (t.child_status ≡ c) × IsWaiting c s t.delivery

AreDelivered-deliver :
    (step : DeliveryStep) (d : ChildDeliveryState) → AreDelivered d → AreDelivered (deliver step d)
unfolding deliver
AreDelivered-deliver receipt d (r, t, f) = (refl, t, f)
AreDelivered-deliver trace d (r, t, f) = (r, refl, f)
AreDelivered-deliver final_receipt d (r, t, f) = (r, t, refl)

all_delivered-AreDelivered : (d : ChildDeliveryState) → all_delivered d ≡ true → AreDelivered d
unfolding all_delivered
all_delivered-AreDelivered d h = (ground arith, ground arith, ground arith)

blocked_not_waiting :
    (c : ChildTerminalStatus) (s : ChildEdgeStatus) (d : ChildDeliveryState)
    → can_block s ≡ true
    → IsWaiting c (some s) d
    → ⊥
unfolding can_block
blocked_not_waiting c ChildEdgeStatus.claimed d h e = e
blocked_not_waiting c ChildEdgeStatus.resumable d h e = e
blocked_not_waiting c ChildEdgeStatus.preparing d h e = e
blocked_not_waiting c ChildEdgeStatus.ready d h e = e
blocked_not_waiting c ChildEdgeStatus.blocked d h e = e
blocked_not_waiting c ChildEdgeStatus.delivery_pending d h e = cc
blocked_not_waiting c (ChildEdgeStatus.ended s) d h e = cc

settled_not_waiting :
    (c : ChildTerminalStatus) (s : ChildEdgeStatus) (d : ChildDeliveryState)
    → can_settle s ≡ true
    → IsWaiting c (some s) d
    → ⊥
unfolding can_settle
settled_not_waiting c ChildEdgeStatus.claimed d h e = e
settled_not_waiting c ChildEdgeStatus.resumable d h e = e
settled_not_waiting c ChildEdgeStatus.preparing d h e = e
settled_not_waiting c ChildEdgeStatus.ready d h e = e
settled_not_waiting c ChildEdgeStatus.blocked d h e = e
settled_not_waiting c ChildEdgeStatus.delivery_pending d h e = cc
settled_not_waiting c (ChildEdgeStatus.ended s) d h e = cc

delivers-IsWaiting :
    (c : ChildTerminalStatus) (s : Option ChildEdgeStatus) (step : DeliveryStep)
    (d : ChildDeliveryState)
    → IsWaiting c s d
    → IsWaiting c s (deliver step d)
delivers-IsWaiting c (some ChildEdgeStatus.delivery_pending) step d h = tt
delivers-IsWaiting c (some (ChildEdgeStatus.ended s)) step d h =
    (h.0, AreDelivered-deliver step d h.1)
delivers-IsWaiting c none step d h = h
delivers-IsWaiting c (some ChildEdgeStatus.claimed) step d h = h
delivers-IsWaiting c (some ChildEdgeStatus.resumable) step d h = h
delivers-IsWaiting c (some ChildEdgeStatus.preparing) step d h = h
delivers-IsWaiting c (some ChildEdgeStatus.ready) step d h = h
delivers-IsWaiting c (some ChildEdgeStatus.blocked) step d h = h

fails-IsWaiting :
    (c : ChildTerminalStatus) (s : Option ChildEdgeStatus) (d f : ChildDeliveryState)
    → (AreDelivered d → AreDelivered f)
    → IsWaiting c s d
    → IsWaiting c s f
fails-IsWaiting c (some ChildEdgeStatus.delivery_pending) d f e h = tt
fails-IsWaiting c (some (ChildEdgeStatus.ended s)) d f e h = (h.0, e h.1)
fails-IsWaiting c none d f e h = h
fails-IsWaiting c (some ChildEdgeStatus.claimed) d f e h = h
fails-IsWaiting c (some ChildEdgeStatus.resumable) d f e h = h
fails-IsWaiting c (some ChildEdgeStatus.preparing) d f e h = h
fails-IsWaiting c (some ChildEdgeStatus.ready) d f e h = h
fails-IsWaiting c (some ChildEdgeStatus.blocked) d f e h = h

Moves-IsDelivering :
    (c : ChildTerminalStatus) (v w : View) → Moves v w → IsDelivering c v → IsDelivering c w
Moves-IsDelivering c v w (stays _) h = h
Moves-IsDelivering c v w (claims none) h = h
Moves-IsDelivering c v w (claims (some t)) h = h
Moves-IsDelivering c v w (resumes none) h = h
Moves-IsDelivering c v w (resumes (some t)) h = h
Moves-IsDelivering c v w (suspends none) h = h
Moves-IsDelivering c v w (suspends (some t)) h = h
Moves-IsDelivering c v w (blocks s none can) h = h
Moves-IsDelivering c v w (blocks s (some t) can) h =
    elim (blocked_not_waiting c s t.delivery can h.2) [ ]
Moves-IsDelivering c v w (begins s t can) h = elim h [ ]
Moves-IsDelivering c v w (defers s end_status none can outbox) h = h
Moves-IsDelivering c v w (defers s end_status (some t) can outbox) h =
    elim (settled_not_waiting c s t.delivery can h.2) [ ]
Moves-IsDelivering c v w (settles s end_status none can outbox) h = h
Moves-IsDelivering c v w (settles s end_status (some t) can outbox) h =
    elim (settled_not_waiting c s t.delivery can h.2) [ ]
Moves-IsDelivering c v w (delivers s t step is all) h =
    (h.0, h.1, delivers-IsWaiting c s step t.delivery h.2)
Moves-IsDelivering c v w (finishes s t step is all) h =
    (h.0, h.1, (h.1, all_delivered-AreDelivered _ all))
Moves-IsDelivering c v w (fails s t code detail) h =
    (h.0, h.1, fails-IsWaiting c s t.delivery _ (λ p. p) h.2)

-- From a pending delivery with a linked settlement on, a run in which an edge is only marked
-- resumable when its status is `claimed` leaves the edge pending, or with the end of its settlement,
-- of which the receipt, the trace and the final receipt are then delivered.
pub ends_when_delivered :
    (parses : ArtifactReference → Bool) (is_content_address : String → Bool)
    (bounded : String → String) (e : String) (cs : List Call) (l : Ledger) (c : ChildTerminalStatus)
    → IsCareful parses is_content_address bounded cs l
    → IsDelivering c (view e l)
    → IsDelivering c (view e (run parses is_content_address bounded cs l))
ends_when_delivered parses is_content_address bounded e cs l c careful h =
    run-keeps parses is_content_address bounded (IsDelivering c) (Moves-IsDelivering c) e cs l
      careful h
