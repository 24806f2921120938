-- ===== src/Ledger/Runs.antt =====
-- Runs of calls of ledger/store.ts, against the state machine of each child edge.
use pi_task.Common.{ℕ, String, Bool, some, List, [], ◌∷◌, ◌≡◌}
use pi_task.Ledger.Rows.{
  ChildTerminalStatus, ChildEdgeStatus, ArtifactReference, Ledger, ChildTerminalSettlement,
  ChildDeliveryFailureCode,
}
use pi_task.Ledger.Tasks.{increment_retry}
use pi_task.Ledger.Children.{
  get_task_edge, claim_ready_child, claim_ready_child_at, claim_resumable_child,
  mark_child_resumable, mark_child_blocked, block_child,
}
use pi_task.Ledger.Artifacts.{ChildSettlementArtifacts}
use pi_task.Ledger.Outbox.{begin_child_terminal_settlement}
use pi_task.Ledger.Settlement.{settle_child}
use pi_task.Ledger.Delivery.{
  DeliveryStep, acknowledge_child_delivery_step, record_child_delivery_failure,
}
use pi_task.Ledger.View.{status_of, View, view}
use pi_task.Ledger.Machine.{Moves, stays, Agrees, Moves-Agrees, Moves-keeps_end}
use pi_task.Ledger.Steps.Claims.{
  claim_ready_child-EdgesMove, claim_ready_child_at-EdgesMove, claim_resumable_child-EdgesMove,
}
use pi_task.Ledger.Steps.Blocks.{
  mark_child_resumable-EdgesMove, mark_child_blocked-EdgesMove, block_child-EdgesMove,
}
use pi_task.Ledger.Steps.Settles.Settled.{settle_child-EdgesMove}
use pi_task.Ledger.Steps.Delivers.Begins.{begin_child_terminal_settlement-EdgesMove}
use pi_task.Ledger.Steps.Delivers.Acknowledges.{
  acknowledge_child_delivery_step-EdgesMove, record_child_delivery_failure-EdgesMove,
}

-- A call on one edge; of a claim, whether another connection has the lock.
pub data Call : Type 0 where
  claim_ready claim_resumable : Bool → String → Call
  claim_ready_at : Bool → String → ℕ → Call
  mark_resumable mark_blocked block : String → Call
  begin : String → ChildTerminalSettlement → Call
  settle : Bool → String → ChildTerminalStatus → ChildSettlementArtifacts → Call
  acknowledge : String → DeliveryStep → Call
  record_failure : String → ChildDeliveryFailureCode → String → Call
  retry : String → Call

module _ (parses : ArtifactReference → Bool) (is_content_address : String → Bool)
    (bounded : String → String) where
  unfoldable pub step : Call → Ledger → Ledger
  step (claim_ready busy k) l = (claim_ready_child busy k l).1
  step (claim_resumable busy k) l = (claim_resumable_child busy k l).1
  step (claim_ready_at busy parent n) l = (claim_ready_child_at busy parent n l).1
  step (mark_resumable k) l = (mark_child_resumable k l).1
  step (mark_blocked k) l = (mark_child_blocked k l).1
  step (block k) l = (block_child k l).1
  step (begin k s) l = (begin_child_terminal_settlement parses k s l).1
  step (settle deferred k status a) l =
      (settle_child parses is_content_address deferred k status a l).1
  step (acknowledge k s) l = (acknowledge_child_delivery_step k s l).1
  step (record_failure k code detail) l = (record_child_delivery_failure bounded k code detail l).1
  step (retry id) l = increment_retry id l

  unfoldable pub run : List Call → Ledger → Ledger
  run [] l = l
  run (c ∷ cs) l = run cs (step c l)

  -- An edge is only marked resumable when its status is `claimed`.
  abbrev pub IsCarefulCall : Call → Ledger → Type 0
  IsCarefulCall (mark_resumable k) l = status_of (get_task_edge k l) ≡ some ChildEdgeStatus.claimed
  IsCarefulCall c l = Unit

  abbrev pub IsCareful : List Call → Ledger → Type 0
  IsCareful [] l = Unit
  IsCareful (c ∷ cs) l = IsCarefulCall c l × IsCareful cs (step c l)

  step-Moves :
      (c : Call) (l : Ledger) (e : String)
      → IsCarefulCall c l
      → Moves (view e l) (view e (step c l))
  unfolding step increment_retry
  step-Moves (claim_ready busy k) l e h = claim_ready_child-EdgesMove busy k l e
  step-Moves (claim_resumable busy k) l e h = claim_resumable_child-EdgesMove busy k l e
  step-Moves (claim_ready_at busy parent n) l e h = claim_ready_child_at-EdgesMove busy parent n l e
  step-Moves (mark_resumable k) l e h = mark_child_resumable-EdgesMove k l h e
  step-Moves (mark_blocked k) l e h = mark_child_blocked-EdgesMove k l e
  step-Moves (block k) l e h = block_child-EdgesMove k l e
  step-Moves (begin k s) l e h = begin_child_terminal_settlement-EdgesMove parses k s l e
  step-Moves (settle deferred k status a) l e h =
      settle_child-EdgesMove parses is_content_address deferred k status a l e
  step-Moves (acknowledge k s) l e h = acknowledge_child_delivery_step-EdgesMove k s l e
  step-Moves (record_failure k code detail) l e h =
      record_child_delivery_failure-EdgesMove bounded k code detail l e
  step-Moves (retry id) l e h = stays (view e l)

  -- What every move keeps, a run of careful calls keeps.
  module _ (P : View → Type 0) (kept : (v w : View) → Moves v w → P v → P w) (e : String) where
    pub run-keeps :
        (cs : List Call) (l : Ledger) → IsCareful cs l → P (view e l) → P (view e (run cs l))
    unfolding run
    run-keeps [] l h p = p
    run-keeps (c ∷ cs) l h p =
        run-keeps cs (step c l) h.1 (kept (view e l) (view e (step c l)) (step-Moves c l e h.0) p)

  -- In a run in which an edge is only marked resumable when its status is `claimed`, an edge with an
  -- end keeps it, and stays in agreement with its settlement, if it was: a linked settlement stands
  -- with a pending delivery or with the end that it names.
  pub ended_for_good :
      (e : String) (cs : List Call) (l : Ledger) (c : ChildTerminalStatus)
      → IsCareful cs l
      → Agrees (view e l)
      → (view e l).0 ≡ some (ChildEdgeStatus.ended c)
      → ((view e (run cs l)).0 ≡ some (ChildEdgeStatus.ended c)) × Agrees (view e (run cs l))
  ended_for_good e cs l c careful agrees ended =
      run-keeps (λ v. (v.0 ≡ some (ChildEdgeStatus.ended c)) × Agrees v)
        (λ v w m (q, a). (Moves-keeps_end v w c m a q, Moves-Agrees v w m a)) e cs l careful
        (ended, agrees)
