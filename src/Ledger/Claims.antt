-- ===== src/Ledger/Claims.antt =====
-- That a claim of ledger/store.ts has one winner.
use mathlib.Core.Path.{subst}
use pi_task.Common.{
  String, Bool, true, false, Option, none, some, str_eq, ◌≡◌, refl, sym, ap, ◌∙◌, arith, inl, inr,
  Bool-cases,
}
use pi_task.Ledger.Rows.{ChildEdgeStatus, TaskEdgeRow, Ledger}
use pi_task.Ledger.Children.{
  get_task_edge, is_ready, is_resumable, claim, claim_if, claim_ready_child, claim_resumable_child,
}
use pi_task.Ledger.View.{status_of}
use pi_task.Ledger.View.{View, view_of, moved}
use pi_task.Ledger.Steps.Claims.{view-claim}
use pi_task.Common.{eq_refl}

status_after :
    (k j : String) (edge : TaskEdgeRow) (l : Ledger)
    → status_of (get_task_edge j (claim k edge l))
      ≡ moved (str_eq k j) ChildEdgeStatus.claimed (status_of (get_task_edge j l))
unfolding view_of get_task_edge
status_after k j edge l = ap (λ (v : View). v.0) (view-claim k j edge l)

pub claim-row :
    (k : String) (edge : TaskEdgeRow) (l : Ledger)
    → get_task_edge k l ≡ some edge
    → status_of (get_task_edge k (claim k edge l)) ≡ some ChildEdgeStatus.claimed
claim-row k edge l q = rw (status_after k k edge l, q, eq_refl k) refl

-- The next claim finds another status.
module _ (allowed : ChildEdgeStatus → Bool) (no : allowed ChildEdgeStatus.claimed ≡ false) where
  claim_lost :
      (busy : Bool) (k : String) (o : Option TaskEdgeRow) (l : Ledger)
      → status_of o ≡ some ChildEdgeStatus.claimed
      → claim_if allowed busy k o l ≡ (none, l)
  unfolding claim_if
  claim_lost true k o l e = refl
  claim_lost false k none l e = refl
  claim_lost false k (some edge) l e = ground (arith, no)

pub claim_won :
    (allowed : ChildEdgeStatus → Bool) (busy : Bool) (k : String) (o : Option TaskEdgeRow)
    (l : Ledger) (edge : TaskEdgeRow)
    → (claim_if allowed busy k o l).0 ≡ some edge
    → (row : TaskEdgeRow) × (o ≡ some row)
      × (busy ≡ false)
      × (allowed row.status ≡ true)
      × ((claim_if allowed busy k o l).1 ≡ claim k row l)
unfolding claim_if
claim_won allowed true k o l edge h = cc
claim_won allowed false k none l edge h = cc
claim_won allowed false k (some row) l edge h = elim (Bool-cases (allowed row.status)) [
  | inl can ↦ (row, refl, refl, can, rw can refl)
  | inr other ↦ ground arith
]

module _ (again : Bool) (k : String) (l : Ledger) where
  abbrev IsWonAfter : Ledger → Type 0
  IsWonAfter after =
      ((j : String)
        → status_of (get_task_edge j after)
          ≡ moved (str_eq k j) ChildEdgeStatus.claimed (status_of (get_task_edge j l)))
      × (claim_ready_child again k after ≡ (none, after))
      × (claim_resumable_child again k after ≡ (none, after))

  claim-IsWonAfter : (row : TaskEdgeRow) → get_task_edge k l ≡ some row → IsWonAfter (claim k row l)
  unfolding claim_ready_child claim_resumable_child is_ready is_resumable
  claim-IsWonAfter row q = (
    λ j. status_after k j row l,
    claim_lost is_ready refl again k (get_task_edge k (claim k row l)) (claim k row l)
        (claim-row k row l q),
    rw
        (claim_lost is_resumable refl again k (get_task_edge k (claim k row l)) (claim k row l)
          (claim-row k row l q))
        refl,
  )

ready_status : (s : ChildEdgeStatus) → is_ready s ≡ true → s ≡ ChildEdgeStatus.ready
unfolding is_ready
ready_status ChildEdgeStatus.ready h = refl
ready_status ChildEdgeStatus.preparing h = cc
ready_status ChildEdgeStatus.claimed h = cc
ready_status ChildEdgeStatus.resumable h = cc
ready_status ChildEdgeStatus.blocked h = cc
ready_status ChildEdgeStatus.delivery_pending h = cc
ready_status (ChildEdgeStatus.ended s) h = cc

-- A claim that returns an edge had the lock and found the edge ready; it makes that edge claimed and
-- no other, and any further claim of it, as ready or as resumable, returns none and changes nothing.
pub one_winner :
    (busy again : Bool) (k : String) (l : Ledger) (edge : TaskEdgeRow)
    → (claim_ready_child busy k l).0 ≡ some edge
    → let after = (claim_ready_child busy k l).1 in
      (busy ≡ false)
      × (status_of (get_task_edge k l) ≡ some ChildEdgeStatus.ready)
      × ((j : String)
          → status_of (get_task_edge j after)
            ≡ moved (str_eq k j) ChildEdgeStatus.claimed (status_of (get_task_edge j l)))
      × (claim_ready_child again k after ≡ (none, after))
      × (claim_resumable_child again k after ≡ (none, after))
unfolding claim_ready_child
one_winner busy again k l edge h =
    let (row, q, free, can, e) = claim_won is_ready busy k (get_task_edge k l) l edge h in
    let (others, ready_again, resumable_again) =
      subst (IsWonAfter again k l) (sym e) (claim-IsWonAfter again k l row q) in
    (
      free,
      ap status_of q ∙ ap some (ready_status row.status can),
      others,
      ready_again,
      resumable_again,
    )
