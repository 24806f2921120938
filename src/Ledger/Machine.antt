-- ===== src/Ledger/Machine.antt =====
-- The state machine of one child edge that ledger/store.ts promises: its status with its
-- settlement, and the moves that the operations may make of them.
use mathlib.Core.Path.{subst}
use pi_task.Common.{String, true, false, Option, none, some, ◌≡◌, refl, sym, ap, arith}
use pi_task.Ledger.Tables.{on_row}
use pi_task.Ledger.Rows.{
  ChildTerminalStatus, ChildEdgeStatus, SettlementState, pending, linked, ChildTerminalSettlement,
  ChildDeliveryFailureCode,
}
use pi_task.Ledger.Children.{can_block}
use pi_task.Ledger.Outbox.{can_settle, fresh, linked_state}
use pi_task.Ledger.Delivery.{DeliveryStep, deliver, delivered_step, all_delivered, failed_delivery}
use pi_task.Ledger.View.{View}

abbrev pub linked_option : Option ChildTerminalSettlement → Option ChildTerminalSettlement
linked_option o = on_row true linked_state o

-- A settlement that is still pending has this end.
abbrev pub IsOutboxOf : ChildTerminalStatus → Option ChildTerminalSettlement → Type 0
IsOutboxOf status none = Unit
IsOutboxOf status (some t) = t.state ≡ pending → t.child_status ≡ status

pub data Moves : View → View → Type 0 where
  stays : (v : View) → Moves v v
  claims :
      (o : Option ChildTerminalSettlement)
      → Moves (some ChildEdgeStatus.ready, o) (some ChildEdgeStatus.claimed, o)
  resumes :
      (o : Option ChildTerminalSettlement)
      → Moves (some ChildEdgeStatus.resumable, o) (some ChildEdgeStatus.claimed, o)
  suspends :
      (o : Option ChildTerminalSettlement)
      → Moves (some ChildEdgeStatus.claimed, o) (some ChildEdgeStatus.resumable, o)
  blocks :
      (s : ChildEdgeStatus) (o : Option ChildTerminalSettlement)
      → can_block s ≡ true
      → Moves (some s, o) (some ChildEdgeStatus.blocked, o)
  begins :
      (s : ChildEdgeStatus) (t : ChildTerminalSettlement)
      → can_settle s ≡ true
      → Moves (some s, none) (some s, some (fresh t))
  defers :
      (s : ChildEdgeStatus) (end_status : ChildTerminalStatus) (o : Option ChildTerminalSettlement)
      → can_settle s ≡ true
      → IsOutboxOf end_status o
      → Moves (some s, o) (some ChildEdgeStatus.delivery_pending, linked_option o)
  settles :
      (s : ChildEdgeStatus) (end_status : ChildTerminalStatus) (o : Option ChildTerminalSettlement)
      → can_settle s ≡ true
      → IsOutboxOf end_status o
      → Moves (some s, o) (some (ChildEdgeStatus.ended end_status), linked_option o)
  delivers :
      (s : Option ChildEdgeStatus) (t : ChildTerminalSettlement) (step : DeliveryStep)
      → t.state ≡ linked
      → all_delivered (deliver step t.delivery) ≡ false
      → Moves (s, some t) (s, some (delivered_step step t))
  finishes :
      (s : ChildEdgeStatus) (t : ChildTerminalSettlement) (step : DeliveryStep)
      → t.state ≡ linked
      → all_delivered (deliver step t.delivery) ≡ true
      → Moves
          (some s, some t)
          (some (ChildEdgeStatus.ended t.child_status), some (delivered_step step t))
  fails :
      (s : Option ChildEdgeStatus) (t : ChildTerminalSettlement) (code : ChildDeliveryFailureCode)
      (detail : String)
      → Moves (s, some t) (s, some (failed_delivery code detail t))

-- An edge with a linked settlement waits for its delivery, or has the end of the settlement.
abbrev pub IsEndOf : ChildTerminalStatus → Option ChildEdgeStatus → Type 0
IsEndOf c none = Unit
IsEndOf c (some ChildEdgeStatus.delivery_pending) = Unit
IsEndOf c (some (ChildEdgeStatus.ended s)) = s ≡ c
IsEndOf c (some _) = ⊥

abbrev pub Agrees : View → Type 0
Agrees (s, none) = Unit
Agrees (s, some t) = t.state ≡ linked → IsEndOf t.child_status s

open_not_ended :
    (c : ChildTerminalStatus) (s : ChildEdgeStatus) → can_settle s ≡ true → IsEndOf c (some s) → ⊥
unfolding can_settle
open_not_ended c ChildEdgeStatus.claimed h e = e
open_not_ended c ChildEdgeStatus.resumable h e = e
open_not_ended c ChildEdgeStatus.preparing h e = e
open_not_ended c ChildEdgeStatus.ready h e = e
open_not_ended c ChildEdgeStatus.blocked h e = e
open_not_ended c ChildEdgeStatus.delivery_pending h e = cc
open_not_ended c (ChildEdgeStatus.ended s) h e = cc

blockable_not_ended :
    (c : ChildTerminalStatus) (s : ChildEdgeStatus) → can_block s ≡ true → IsEndOf c (some s) → ⊥
unfolding can_block
blockable_not_ended c ChildEdgeStatus.claimed h e = e
blockable_not_ended c ChildEdgeStatus.resumable h e = e
blockable_not_ended c ChildEdgeStatus.preparing h e = e
blockable_not_ended c ChildEdgeStatus.ready h e = e
blockable_not_ended c ChildEdgeStatus.blocked h e = e
blockable_not_ended c ChildEdgeStatus.delivery_pending h e = cc
blockable_not_ended c (ChildEdgeStatus.ended s) h e = cc

settled_as :
    (s : ChildEdgeStatus) (end_status c : ChildTerminalStatus) (state : SettlementState)
    → can_settle s ≡ true
    → (state ≡ pending → c ≡ end_status)
    → (state ≡ linked → IsEndOf c (some s))
    → end_status ≡ c
settled_as s end_status c pending can outbox agrees = sym (outbox refl)
settled_as s end_status c linked can outbox agrees = elim (open_not_ended c s can (agrees refl)) [ ]

-- Every move keeps a linked settlement and the status in agreement.
pub Moves-Agrees : (v w : View) → Moves v w → Agrees v → Agrees w
Moves-Agrees v w (stays _) h = h
Moves-Agrees v w (claims none) h = tt
Moves-Agrees v w (claims (some t)) h = h
Moves-Agrees v w (resumes none) h = tt
Moves-Agrees v w (resumes (some t)) h = h
Moves-Agrees v w (suspends none) h = tt
Moves-Agrees v w (suspends (some t)) h = h
Moves-Agrees v w (blocks s none can) h = tt
Moves-Agrees v w (blocks s (some t) can) h = λ e. blockable_not_ended t.child_status s can (h e)
Moves-Agrees v w (begins s t can) h = λ e. cc
Moves-Agrees v w (defers s end_status none can outbox) h = tt
Moves-Agrees v w (defers s end_status (some t) can outbox) h = λ _. tt
Moves-Agrees v w (settles s end_status none can outbox) h = tt
Moves-Agrees v w (settles s end_status (some t) can outbox) h =
    λ _. settled_as s end_status t.child_status t.state can outbox h
Moves-Agrees v w (delivers s t step is all) h = h
Moves-Agrees v w (finishes s t step is all) h = λ _. refl
Moves-Agrees v w (fails s t code detail) h = h

-- An edge with an end keeps it.
pub Moves-keeps_end :
    (v w : View) (c : ChildTerminalStatus)
    → Moves v w
    → Agrees v
    → v.0 ≡ some (ChildEdgeStatus.ended c)
    → w.0 ≡ some (ChildEdgeStatus.ended c)
unfolding can_block can_settle
Moves-keeps_end v w c (stays _) h e = e
Moves-keeps_end v w c (claims o) h e = cc
Moves-keeps_end v w c (resumes o) h e = cc
Moves-keeps_end v w c (suspends o) h e = cc
Moves-keeps_end v w c (blocks s o can) h e = ground arith
Moves-keeps_end v w c (begins s t can) h e = e
Moves-keeps_end v w c (defers s end_status o can outbox) h e = ground arith
Moves-keeps_end v w c (settles s end_status o can outbox) h e = ground arith
Moves-keeps_end v w c (delivers s t step is all) h e = e
Moves-keeps_end v w c (finishes s t step is all) h e =
    ap (λ d. some (ChildEdgeStatus.ended d)) (sym (subst (IsEndOf t.child_status) e (h is)))
Moves-keeps_end v w c (fails s t code detail) h e = e
