-- ===== src/Ledger/Refusals.antt =====
-- That a refused call of ledger/store.ts leaves the tables as they were, and which claimed rows are
-- opened again.
use pi_task.Common.{
  String, Bool, true, false, Option, none, some, ◌≡◌, refl, sym, ap, ◌∙◌, inl, inr, Bool-cases,
  Option-cases, Result, returns, throws, lookup, eq_refl, str_eq, if◌then◌else◌,
}
use pi_task.Ledger.Rows.{ChildEdgeStatus, TaskEdgeRow, ArtifactReference, Ledger, Outcome}
use pi_task.Ledger.Tasks.{transaction, commit_or_rollback, ◌then◌}
use pi_task.Ledger.Children.{
  get_task_edge, joined_edge, claim, update_edge_status, with_edge_status, is_claimed, claim_if,
  can_block, claim_ready_child, claim_ready_child_at, claim_at, read_again, row_alone, edge_at,
  claim_resumable_child, mark_child_resumable, mark_child_blocked, mark_resumable_if,
  mark_blocked_if, block_child, read_edge, is_ready, is_resumable, resumable_statements,
}
use pi_task.Ledger.Tables.{on_row, lookup-adjust}
use pi_task.Ledger.Claims.{claim_won, claim-row}
use pi_task.Ledger.Outbox.{begin_child_terminal_settlement}
use pi_task.Ledger.Settlement.{settle_child}
use pi_task.Ledger.Delivery.{acknowledge_child_delivery_step, record_child_delivery_failure}
use pi_task.Ledger.Runs.{
  Call, claim_ready, claim_resumable, claim_ready_at, mark_resumable, mark_blocked, block, begin,
  settle, acknowledge, record_failure, retry, step,
}
use pi_task.Ledger.View.{status_of, View, view_of, moved}
use pi_task.Ledger.Steps.Blocks.{view-resumable_statements}

abbrev pub has_thrown : {A : Type 0} → Result String A → Bool
has_thrown (returns a) = false
has_thrown (throws e) = true

abbrev pub is_lost : Option TaskEdgeRow → Bool
is_lost none = true
is_lost (some edge) = false

module _ (parses : ArtifactReference → Bool) (is_content_address : String → Bool)
    (bounded : String → String) where
  -- The call throws, or it is a claim that returns no edge.
  abbrev pub is_refused : Call → Ledger → Bool
  is_refused (claim_ready busy k) l = is_lost (claim_ready_child busy k l).0
  is_refused (claim_resumable busy k) l = is_lost (claim_resumable_child busy k l).0
  is_refused (claim_ready_at busy parent n) l = is_lost (claim_ready_child_at busy parent n l).0
  is_refused (mark_resumable k) l = has_thrown (mark_child_resumable k l).0
  is_refused (mark_blocked k) l = has_thrown (mark_child_blocked k l).0
  is_refused (block k) l = has_thrown (block_child k l).0
  is_refused (begin k s) l = has_thrown (begin_child_terminal_settlement parses k s l).0
  is_refused (settle deferred k status a) l =
      has_thrown (settle_child parses is_content_address deferred k status a l).0
  is_refused (acknowledge k s) l = has_thrown (acknowledge_child_delivery_step k s l).0
  is_refused (record_failure k code detail) l =
      has_thrown (record_child_delivery_failure bounded k code detail l).0
  is_refused (retry id) l = false

rolled_back :
    {A : Type 0}
    → (work : Ledger → Outcome A) (l : Ledger) → has_thrown (transaction work l).0 ≡ true
    → (transaction work l).1 ≡ l
unfolding transaction
rolled_back work l h = go (work l) h
  where
    go :
        {A : Type 0}
        → (o : Outcome A) → has_thrown (commit_or_rollback l o).0 ≡ true
        → (commit_or_rollback l o).1 ≡ l
    go (returns a, m) h = cc
    go (throws e, m) h = refl

-- An edge whose status is known is there, in its row alone too.
not_lost :
    (k : String) (m : Ledger) (s : ChildEdgeStatus)
    → status_of (get_task_edge k m) ≡ some s
    → (is_lost (get_task_edge k m) ≡ false) × (is_lost (lookup k m.task_edges) ≡ false)
unfolding get_task_edge
not_lost k m s h = go (lookup k m.task_edge_status_overrides) (lookup k m.task_edges) h
  where
    go :
        (o : Option ChildEdgeStatus) (row : Option TaskEdgeRow)
        → status_of (joined_edge o row) ≡ some s
        → (is_lost (joined_edge o row) ≡ false) × (is_lost row ≡ false)
    go o none h = cc
    go o (some row) h = (refl, refl)

joined_lost :
    (o p : Option ChildEdgeStatus) (f : TaskEdgeRow → TaskEdgeRow) (b : Bool)
    (row : Option TaskEdgeRow)
    → is_lost (joined_edge p (on_row b f row)) ≡ is_lost (joined_edge o row)
joined_lost o p f true none = refl
joined_lost o p f true (some row) = refl
joined_lost o p f false none = refl
joined_lost o p f false (some row) = refl

clash : {b : Bool} → b ≡ false → b ≡ true → ⊥
clash p r = cc

taken :
    (b : Bool) (x : Option TaskEdgeRow × Ledger) (l : Ledger)
    → b ≡ true
    → is_lost (if◌then◌else◌ {A = Option TaskEdgeRow × Ledger} b x (none, l)).0 ≡ true
    → is_lost x.0 ≡ true
taken true x l e h = h
taken false x l e h = cc

still_there :
    (k : String) (edge : TaskEdgeRow) (l : Ledger)
    → get_task_edge k l ≡ some edge
    → is_lost (get_task_edge k (update_edge_status k ChildEdgeStatus.claimed l)) ≡ false
unfolding get_task_edge update_edge_status
still_there k edge l q =
    ap (λ row. is_lost (joined_edge (lookup k l.task_edge_status_overrides) row))
      (lookup-adjust k k (with_edge_status ChildEdgeStatus.claimed) l.task_edges)
    ∙ joined_lost (lookup k l.task_edge_status_overrides) (lookup k l.task_edge_status_overrides)
        (with_edge_status ChildEdgeStatus.claimed) (str_eq k k) (lookup k l.task_edges)
    ∙ ap is_lost q

claim_if_lost :
    (allowed : ChildEdgeStatus → Bool) (busy : Bool) (k : String) (o : Option TaskEdgeRow)
    (l : Ledger)
    → get_task_edge k l ≡ o
    → is_lost (claim_if allowed busy k o l).0 ≡ true
    → (claim_if allowed busy k o l).1 ≡ l
unfolding claim_if
claim_if_lost allowed true k o l q h = refl
claim_if_lost allowed false k none l q h = refl
claim_if_lost allowed false k (some edge) l q h = elim (Bool-cases (allowed edge.status)) [
  | inl can ↦ elim (clash (still_there k edge l q) (taken (allowed edge.status) _ l can h)) [ ]
  | inr other ↦ rw other refl
]

-- A claim that has won has the edge to return.
claim_lost_or_won :
    (allowed : ChildEdgeStatus → Bool) (busy : Bool) (k : String) (l : Ledger)
    (read : Option TaskEdgeRow → Ledger → Option TaskEdgeRow)
    → ((edge row : TaskEdgeRow)
        → get_task_edge k l ≡ some row
        → is_lost (read (some edge) (claim k row l)) ≡ false)
    → let (won, after) = claim_if allowed busy k (get_task_edge k l) l in
      is_lost (read won after) ≡ true → after ≡ l
claim_lost_or_won allowed busy k l read there h =
    elim (Option-cases (claim_if allowed busy k (get_task_edge k l) l).0) [
      | inl lost ↦ claim_if_lost allowed busy k (get_task_edge k l) l refl (ap is_lost lost)
      | inr (edge, e) ↦
          let (row, q, free, can, after) = claim_won allowed busy k (get_task_edge k l) l edge e in
          let kept : is_lost (read (some edge) (claim k row l)) ≡ false = there edge row q in
          elim (clash kept (
            sym (ap (λ o. is_lost (read o (claim k row l))) e)
            ∙ sym
                (ap (λ m. is_lost (read (claim_if allowed busy k (get_task_edge k l) l).0 m)) after)
            ∙ h)) [ ]
    ]

claim_at_refused :
    (busy : Bool) (o : Option String) (l : Ledger)
    → is_lost (claim_at busy o l).0 ≡ true
    → (claim_at busy o l).1 ≡ l
unfolding claim_at
claim_at_refused busy none l h = refl
claim_at_refused busy (some k) l h =
    claim_lost_or_won is_ready busy k l (row_alone k)
      (λ edge row q. (not_lost k (claim k row l) ChildEdgeStatus.claimed (claim-row k row l q)).1) h

marked_refused :
    {A : Type 0}
    → (o : Outcome A) (k : String) (l : Ledger) → (has_thrown o.0 ≡ true → o.1 ≡ l)
    → has_thrown (o then λ _ m. read_edge k m).0 ≡ true
    → (o then λ _ m. read_edge k m).1 ≡ l
marked_refused (returns a, m) k l same h = cc
marked_refused (throws e, m) k l same h = same refl

mark_resumable_if_refused :
    (k : String) (o : Option TaskEdgeRow) (l : Ledger)
    → has_thrown (mark_resumable_if k o l).0 ≡ true
    → (mark_resumable_if k o l).1 ≡ l
unfolding mark_resumable_if
mark_resumable_if_refused k none l = λ h. refl
mark_resumable_if_refused k (some base) l = elim (Bool-cases (is_claimed base.status)) [
  | inl e ↦ rw e (λ h. cc)
  | inr e ↦ rw e (λ h. refl)
]

mark_blocked_if_refused :
    (k : String) (o : Option TaskEdgeRow) (l : Ledger)
    → has_thrown (mark_blocked_if k o l).0 ≡ true
    → (mark_blocked_if k o l).1 ≡ l
unfolding mark_blocked_if
mark_blocked_if_refused k none l = λ h. refl
mark_blocked_if_refused k (some edge) l = elim (Bool-cases (can_block edge.status)) [
  | inl e ↦ rw e (λ h. cc)
  | inr e ↦ rw e (λ h. refl)
]

module _ (parses : ArtifactReference → Bool) (is_content_address : String → Bool)
    (bounded : String → String) where
  -- A call that throws, and a claim that returns no edge, leaves every table as it was.
  pub refused_call_changes_nothing :
      (c : Call) (l : Ledger)
      → is_refused parses is_content_address bounded c l ≡ true
      → step parses is_content_address bounded c l ≡ l
  unfolding step claim_ready_child claim_resumable_child claim_ready_child_at claim_at
      mark_child_resumable mark_child_blocked block_child begin_child_terminal_settlement
      settle_child acknowledge_child_delivery_step record_child_delivery_failure
  refused_call_changes_nothing (claim_ready busy k) l h =
      claim_if_lost is_ready busy k (get_task_edge k l) l refl h
  refused_call_changes_nothing (claim_resumable busy k) l h =
      claim_lost_or_won is_resumable busy k l (read_again k)
        (λ edge row q. (not_lost k (claim k row l) ChildEdgeStatus.claimed (claim-row k row l q)).0)
        h
  refused_call_changes_nothing (claim_ready_at busy parent n) l h =
      claim_at_refused busy (edge_at parent n l.task_edges) l h
  refused_call_changes_nothing (mark_resumable k) l h =
      marked_refused (mark_resumable_if k (lookup k l.task_edges) l) k l
        (mark_resumable_if_refused k (lookup k l.task_edges) l) h
  refused_call_changes_nothing (mark_blocked k) l h =
      marked_refused (mark_blocked_if k (get_task_edge k l) l) k l
        (mark_blocked_if_refused k (get_task_edge k l) l) h
  refused_call_changes_nothing (block k) l h = rolled_back _ l h
  refused_call_changes_nothing (begin k s) l h = rolled_back _ l h
  refused_call_changes_nothing (settle deferred k status a) l h = rolled_back _ l h
  refused_call_changes_nothing (acknowledge k s) l h = rolled_back _ l h
  refused_call_changes_nothing (record_failure k code detail) l h = rolled_back _ l h
  refused_call_changes_nothing (retry id) l h = cc

reopened :
    (k : String) (l : Ledger) (base : TaskEdgeRow)
    → lookup k l.task_edges ≡ some base
    → status_of (get_task_edge k (resumable_statements k base l)) ≡ some ChildEdgeStatus.resumable
unfolding view_of get_task_edge
reopened k l base row =
    ap (λ (v : View). v.0) (view-resumable_statements k k base l)
    ∙ rw (eq_refl k, row) (found (lookup k l.task_edge_status_overrides))
  where
    found :
        (o : Option ChildEdgeStatus)
        → moved true ChildEdgeStatus.resumable (status_of (joined_edge o (some base)))
          ≡ some ChildEdgeStatus.resumable
    found o = refl

-- An edge whose row says `claimed` becomes resumable whatever its status is, also when an override
-- says that its terminal evidence is linked and the delivery pending.
pub claimed_row_becomes_resumable :
    (k : String) (l : Ledger) (base : TaskEdgeRow)
    → lookup k l.task_edges ≡ some base
    → base.status ≡ ChildEdgeStatus.claimed
    → (has_thrown (mark_child_resumable k l).0 ≡ false)
      × (status_of (get_task_edge k (mark_child_resumable k l).1) ≡ some ChildEdgeStatus.resumable)
unfolding mark_child_resumable mark_resumable_if is_claimed
claimed_row_becomes_resumable k l base row claimed_row =
    let can : is_claimed base.status ≡ true = ap is_claimed claimed_row in
    rw (row, can) (refl, reopened k l base row)
