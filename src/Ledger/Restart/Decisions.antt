-- ===== src/Ledger/Restart/Decisions.antt =====
-- What the decision on one crashed task of ledger/store.ts does to the tables.
use mathlib.Core.Path.{subst}
use pi_task.Common.{
  ltb, String, ◌&&◌, not, Bool, true, false, Option, none, some, List, [], ◌∷◌, if◌then◌else◌,
  lookup, str_eq, keep, keys, IsDistinct, ◌≡◌, refl, sym, ap, ◌∙◌, inl, inr, Bool-cases, eq_iff,
}
use pi_task.Ledger.Tables.{adjust, on_row, lookup-adjust}
use pi_task.Ledger.Rows.{failed, TaskStatus, TaskRow, Ledger}
use pi_task.Ledger.Tasks.{
  get_task, joined_task, row_to_task, with_task_status, update_task_status, is_extended,
}
use pi_task.Ledger.Boot.{
  is_in_flight, ReconcileDecision, keeps, requeues, fails, reconcile_crashed_task, is_owned,
  requeued_row, requeue, Touched, by_decision, reconcile_tasks, in_flight,
}

-- A task that was in flight and that nothing owns is queued once more, or has failed.
abbrev pub restarted_row : TaskRow → TaskRow
restarted_row row =
    if ltb row.retry_count row.max_retries
    then requeued_row row
    else with_task_status (TaskStatus.ended failed) row

abbrev pub restarted : Bool → Option TaskRow → Option TaskRow
restarted owned none = none
restarted owned (some row) =
    if not owned && is_in_flight row.status then some (restarted_row row) else some row

-- Only the statuses that go there stand in the table of overrides, and no task has two rows.
pub record IsSound (l : Ledger) : Type 0 where
  pub extended :
      (j : String) (s : TaskStatus)
      → lookup j l.task_status_overrides ≡ some s
      → is_extended s ≡ true
  pub distinct : IsDistinct (keys l.tasks)

unfoldable pub decision : Bool → TaskRow → ReconcileDecision
decision owned row =
    if owned then keeps else reconcile_crashed_task row.status row.retry_count row.max_retries

-- A task in flight has no override, so its row is what is updated.
pub not_overridden :
    (o : Option TaskStatus) (row : TaskRow)
    → ((s : TaskStatus) → o ≡ some s → is_extended s ≡ true)
    → is_in_flight (row_to_task o row).status ≡ true
    → o ≡ none
unfolding is_in_flight is_extended
not_overridden none row h e = refl
not_overridden (some s) row h e = elim (both s (h s refl) e) [ ]
  where
    both : (s : TaskStatus) → is_extended s ≡ true → is_in_flight s ≡ true → ⊥
    both TaskStatus.awaiting_child h e = cc
    both TaskStatus.preparing h e = cc
    both TaskStatus.awaiting_execution h e = cc
    both TaskStatus.resumable h e = cc
    both TaskStatus.delivery_pending h e = cc
    both TaskStatus.queued h e = cc
    both TaskStatus.planning h e = cc
    both TaskStatus.executing h e = cc
    both TaskStatus.verifying h e = cc
    both TaskStatus.reviewing h e = cc
    both (TaskStatus.ended c) h e = cc

joined-on_row :
    (b : Bool) (f : TaskRow → TaskRow) (o : Option TaskStatus) (row : Option TaskRow)
    → (b ≡ true → o ≡ none)
    → joined_task o (on_row b f row) ≡ on_row b f (joined_task o row)
joined-on_row true f o none h = refl
joined-on_row true f o (some row) h = rw (h refl) refl
joined-on_row false f o row h = refl

-- What a decision does to the task.
abbrev pub acted : ReconcileDecision → TaskRow → TaskRow
acted keeps row = row
acted requeues row = requeued_row row
acted fails row = with_task_status (TaskStatus.ended failed) row

abbrev pub applied : ReconcileDecision → String → Ledger → Ledger
applied keeps id l = l
applied requeues id l = requeue id l
applied fails id l = update_task_status id (TaskStatus.ended failed) l

kept_row : (b : Bool) (o : Option TaskRow) → on_row b (acted keeps) o ≡ o
kept_row true none = refl
kept_row true (some row) = refl
kept_row false o = refl

module _ (id j : String) (l : Ledger) where
  updated-get_task :
      (f : TaskRow → TaskRow)
      → lookup id l.task_status_overrides ≡ none
      → get_task j (record l { tasks = adjust id f l.tasks })
        ≡ on_row (str_eq id j) f (get_task j l)
  unfolding get_task
  updated-get_task f h = rw (lookup-adjust id j f l.tasks) (
      joined-on_row (str_eq id j) f (lookup j l.task_status_overrides) (lookup j l.tasks)
        (λ same. subst (λ i. lookup i l.task_status_overrides ≡ none) ((eq_iff id j).0 same) h))

  applied-get_task :
      (d : ReconcileDecision)
      → lookup id l.task_status_overrides ≡ none
      → get_task j (applied d id l) ≡ on_row (str_eq id j) (acted d) (get_task j l)
  unfolding requeue update_task_status
  applied-get_task keeps h = sym (kept_row (str_eq id j) (get_task j l))
  applied-get_task requeues h = updated-get_task requeued_row h
  applied-get_task fails h = updated-get_task (with_task_status (TaskStatus.ended failed)) h

  pub decided-get_task :
      (owned : Bool) (row : TaskRow)
      → (is_in_flight row.status ≡ true → lookup id l.task_status_overrides ≡ none)
      → get_task j (applied (decision owned row) id l)
        ≡ on_row (str_eq id j) (acted (decision owned row)) (get_task j l)
  unfolding decision reconcile_crashed_task
  decided-get_task owned row h = elim (Bool-cases (is_in_flight row.status)) [
    | inl e ↦ applied-get_task (decision owned row) (h e)
    | inr e ↦
        subst (λ d. get_task j (applied d id l) ≡ on_row (str_eq id j) (acted d) (get_task j l))
          (kept owned e) (sym (kept_row (str_eq id j) (get_task j l)))
  ]
    where
      kept : (b : Bool) → is_in_flight row.status ≡ false → keeps ≡ decision b row
      kept true e = refl
      kept false e = rw e refl

pub acted-restarted :
    (owned : Bool) (row : TaskRow)
    → some (acted (decision owned row) row) ≡ restarted owned (some row)
unfolding decision reconcile_crashed_task
acted-restarted true row = refl
acted-restarted false row = elim (Bool-cases (is_in_flight row.status)) [
  | inr e ↦ rw e refl
  | inl e ↦ elim (Bool-cases (ltb row.retry_count row.max_retries)) [
    | inl left ↦ rw (e, left) refl
    | inr spent ↦ rw (e, spent) refl
  ]
]

pub by_decision-applied :
    (d : ReconcileDecision) (id : String) (rest : Ledger → Touched × Ledger) (l : Ledger)
    → (by_decision d id rest l).1 ≡ (rest (applied d id l)).1
by_decision-applied keeps id rest l = refl
by_decision-applied requeues id rest l = refl
by_decision-applied fails id rest l = refl

by_decision-eq :
    (d : ReconcileDecision) (id : String) (r s : Ledger → Touched × Ledger) (l : Ledger)
    → ((m : Ledger) → r m ≡ s m)
    → by_decision d id r l ≡ by_decision d id s l
by_decision-eq keeps id r s l h = h l
by_decision-eq requeues id r s l h =
    ap (λ o. (record o.0 { requeued = id ∷ o.0.requeued }, o.1)) (h (requeue id l))
by_decision-eq fails id r s l h =
    ap (λ o. (record o.0 { failed = id ∷ o.0.failed }, o.1))
      (h (update_task_status id (TaskStatus.ended failed) l))

keep_first :
    (id : String) (row : TaskRow) (rows : List (String × TaskRow))
    → is_in_flight row.status ≡ true
    → keep in_flight ((id, row) ∷ rows) ≡ (id, row) ∷ keep in_flight rows
keep_first id row rows e = rw e refl

-- The loop over the tasks in flight is the loop over all of them.
pub reconcile-keep :
    (rows : List (String × TaskRow)) (l : Ledger)
    → reconcile_tasks (keep in_flight rows) l ≡ reconcile_tasks rows l
unfolding reconcile_tasks reconcile_crashed_task
reconcile-keep [] l = refl
reconcile-keep ((id, row) ∷ rows) l = elim (Bool-cases (is_in_flight row.status)) [
  | inl e ↦
      ap (λ rs. reconcile_tasks rs l) (keep_first id row rows e)
      ∙ by_decision-eq
          (if is_owned id l
            then keeps
            else reconcile_crashed_task row.status row.retry_count row.max_retries)
          id (reconcile_tasks (keep in_flight rows)) (reconcile_tasks rows) l (reconcile-keep rows)
  | inr e ↦ elim (Bool-cases (is_owned id l)) [
    | inl owned ↦ rw (e, owned) (reconcile-keep rows l)
    | inr other ↦ rw (e, other) (reconcile-keep rows l)
  ]
]
