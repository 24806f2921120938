-- ===== src/Ledger/Restart/Loop.antt =====
-- The loop of a boot of ledger/store.ts over the crashed tasks.
use mathlib.Core.Path.{subst}
use pi_task.Common.{
  String, Bool, true, false, none, some, List, [], ◌∷◌, if◌then◌else◌, lookup, str_eq, keys,
  contains, ◌≡◌, refl, sym, ap, ◌∙◌, inl, inr, Bool-cases, arith, eq_iff, eq_refl,
}
use pi_task.Ledger.Tables.{on_row}
use pi_task.Ledger.Rows.{TaskRow, Ledger}
use pi_task.Ledger.Tasks.{get_task, update_task_status}
use pi_task.Ledger.Boot.{
  is_in_flight, ReconcileDecision, keeps, requeues, fails, is_owned, requeue, reconcile_tasks,
}
use pi_task.Ledger.Restart.Decisions.{
  acted, acted-restarted, applied, by_decision-applied, decided-get_task, decision, restarted,
}

-- The rows are those of the tasks as they are, each of another task.
abbrev pub Current : List (String × TaskRow) → Ledger → Type 0
Current [] l = Unit
Current ((id, row) ∷ rows) l =
    (get_task id l ≡ some row)
    × (is_in_flight row.status ≡ true → lookup id l.task_status_overrides ≡ none)
    × (contains id (keys rows) ≡ false)
    × Current rows l

applied-same :
    (d : ReconcileDecision) (id j : String) (l : Ledger)
    → (is_owned j (applied d id l) ≡ is_owned j l)
      × ((applied d id l).task_status_overrides ≡ l.task_status_overrides)
unfolding is_owned requeue update_task_status
applied-same keeps id j l = (refl, refl)
applied-same requeues id j l = (refl, refl)
applied-same fails id j l = (refl, refl)

module _ (id : String) (row : TaskRow) (l : Ledger)
    (alone : is_in_flight row.status ≡ true → lookup id l.task_status_overrides ≡ none)
    (owned : Bool) where
  other-get_task :
      (j : String)
      → str_eq id j ≡ false
      → get_task j (applied (decision owned row) id l) ≡ get_task j l
  other-get_task j ne = decided-get_task id j l owned row alone ∙ rw ne refl

  applied-Current :
      (rows : List (String × TaskRow))
      → contains id (keys rows) ≡ false
      → Current rows l
      → Current rows (applied (decision owned row) id l)
  unfolding contains
  applied-Current [] c h = tt
  applied-Current ((k, r) ∷ rows) c (now, none_there, new, rest) = (
    other-get_task k (ground (arith, eq_iff id k, eq_iff k id)) ∙ now,
    λ e. ap (lookup k) ((applied-same (decision owned row) id k l).1) ∙ none_there e,
    new,
    applied-Current rows (ground arith) rest,
  )

unfoldable pub Looped : List (String × TaskRow) → Ledger → Type 0
Looped rows l =
    (j : String)
    → get_task j (reconcile_tasks rows l).1
      ≡ (if contains j (keys rows) then restarted (is_owned j l) (get_task j l) else get_task j l)

module _ (id : String) (row : TaskRow) (rows : List (String × TaskRow)) (l : Ledger)
    (now : get_task id l ≡ some row)
    (alone : is_in_flight row.status ≡ true → lookup id l.task_status_overrides ≡ none)
    (new : contains id (keys rows) ≡ false)
    (ih : Looped rows (applied (decision (is_owned id l) row) id l)) where
  skipped :
      (reconcile_tasks ((id, row) ∷ rows) l).1
      ≡ (reconcile_tasks rows (applied (decision (is_owned id l) row) id l)).1
  unfolding reconcile_tasks decision
  skipped = by_decision-applied (decision (is_owned id l) row) id (reconcile_tasks rows) l

  found_here :
      on_row (str_eq id id) (acted (decision (is_owned id l) row)) (get_task id l)
      ≡ some (acted (decision (is_owned id l) row) row)
  found_here = rw (eq_refl id, now) refl

  at_id :
      get_task id (reconcile_tasks ((id, row) ∷ rows) l).1
      ≡ restarted (is_owned id l) (get_task id l)
  unfolding Looped
  at_id =
      let m : Ledger = applied (decision (is_owned id l) row) id l in
      let row_after : get_task id m ≡ some (acted (decision (is_owned id l) row) row) =
        decided-get_task id id l (is_owned id l) row alone ∙ found_here in
      ap (get_task id) skipped
      ∙ ih id
      ∙ ap (λ b. if b then restarted (is_owned id m) (get_task id m) else get_task id m) new
      ∙ row_after
      ∙ acted-restarted (is_owned id l) row
      ∙ ap (restarted (is_owned id l)) (sym now)

  at_other :
      (j : String)
      → str_eq id j ≡ false
      → get_task j (reconcile_tasks ((id, row) ∷ rows) l).1
        ≡ (if contains j (keys rows) then restarted (is_owned j l) (get_task j l) else get_task j l)
  unfolding Looped
  at_other j other =
      let m : Ledger = applied (decision (is_owned id l) row) id l in
      ap (get_task j) skipped
      ∙ ih j
      ∙ ap (λ b. if contains j (keys rows) then restarted b (get_task j m) else get_task j m)
          (applied-same (decision (is_owned id l) row) id j l).0
      ∙ ap (λ o. if contains j (keys rows) then restarted (is_owned j l) o else o)
          (other-get_task id row l alone (is_owned id l) j other)

pub loop-Looped : (rows : List (String × TaskRow)) (l : Ledger) → Current rows l → Looped rows l
unfolding reconcile_tasks contains Looped
loop-Looped [] l h j = refl
loop-Looped ((id, row) ∷ rows) l (now, alone, new, rest) j =
    let ih : Looped rows (applied (decision (is_owned id l) row) id l) =
      loop-Looped rows (applied (decision (is_owned id l) row) id l)
        (applied-Current id row l alone (is_owned id l) rows new rest) in
    elim (Bool-cases (str_eq id j)) [
      | inl here ↦ rw here (
          subst
            (λ i.
              get_task i (reconcile_tasks ((id, row) ∷ rows) l).1
              ≡ restarted (is_owned i l) (get_task i l))
            ((eq_iff id j).0 here) (at_id id row rows l now alone new ih))
      | inr other ↦ rw other (at_other id row rows l now alone new ih j other)
    ]
