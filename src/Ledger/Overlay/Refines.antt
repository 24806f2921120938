-- ===== src/Ledger/Overlay/Refines.antt =====
-- The tables of tasks of ledger/store.ts refine the store.
use mathlib.Core.Path.{subst}
use pi_task.Common.{
  String, Bool, true, false, none, some, List, [], ◌∷◌, if◌then◌else◌, contains, keys, lookup,
  str_eq, ◌≡◌, refl, sym, ap, ◌∙◌, eq_iff, inl, inr, Bool-cases, lookup-remove, lookup-put, put_new,
}
use pi_task.Ledger.Tables.{on_row, lookup-adjust}
use pi_task.Ledger.Rows.{TaskStatus, Ledger}
use pi_task.Ledger.Tasks.{
  get_task, NewTask, insert_task, is_extended, override_task_status, drop_task_override,
  with_task_status, update_task_status, set_task_status, with_plan_mode, set_task_plan_mode,
  with_retry, increment_retry,
}
use pi_task.Ledger.Overlay.Store.{
  HasOwners, Store, TaskCall, if_new, insert, joined-inserted, joined-overridden, joined-plan_mode,
  joined-retry, joined-updated, known_row, lookup-contains, lookup_known, new_row, on_row-none,
  retry, set_plan_mode, set_status, store_run, store_step, task_run, task_step, unknown_row,
}

module _ (l : Ledger) (owners : HasOwners l) where
  insert-get_task :
      (task : NewTask) (j : String)
      → get_task j (insert_task task l).1
        ≡ (if str_eq task.id j then if_new (new_row task) (get_task j l) else get_task j l)
  unfolding insert_task get_task
  insert-get_task task j = elim (Bool-cases (contains task.id (keys l.tasks))) [
    | inl known ↦ rw known (
        known_row (str_eq task.id j) (new_row task) (lookup j l.task_status_overrides)
          (lookup j l.tasks)
          (λ same e.
            lookup_known task.id l.tasks known
              (subst (λ i. lookup i l.tasks ≡ none) (sym ((eq_iff task.id j).0 same)) e)))
    | inr new ↦
        rw
          (
            new,
            sym (put_new task.id (new_row task) l.tasks new),
            lookup-put task.id j (new_row task) l.tasks,
          )
          (joined-inserted (str_eq task.id j) (new_row task) (lookup j l.task_status_overrides)
            (lookup j l.tasks) (owners j)
            (λ same.
              subst (λ i. lookup i l.tasks ≡ none) ((eq_iff task.id j).0 same)
                (lookup-contains task.id l.tasks new)))
  ]

  set-get_task :
      (id : String) (s : TaskStatus) (j : String)
      → get_task j (set_task_status id s l).1
        ≡ on_row (str_eq id j) (with_task_status s) (get_task j l)
  unfolding set_task_status override_task_status update_task_status drop_task_override get_task
  set-get_task id s j = elim (Bool-cases (is_extended s)) [
    | inr base ↦
        rw
          (
            base,
            lookup-adjust id j (with_task_status s) l.tasks,
            lookup-remove id j l.task_status_overrides,
          )
          (joined-updated (str_eq id j) s (lookup j l.task_status_overrides) (lookup j l.tasks))
    | inl extended ↦ elim (Bool-cases (contains id (keys l.tasks))) [
      | inl known ↦
          rw (extended, known, lookup-put id j s l.task_status_overrides)
            (joined-overridden (str_eq id j) s (lookup j l.task_status_overrides)
              (lookup j l.tasks))
      | inr unknown ↦
          rw (extended, unknown)
            (unknown_row (str_eq id j) s (lookup j l.task_status_overrides) (lookup j l.tasks)
              (λ same.
                subst (λ i. lookup i l.tasks ≡ none) ((eq_iff id j).0 same)
                  (lookup-contains id l.tasks unknown)))
    ]
  ]

  pub task_step-get_task :
      (c : TaskCall) (j : String) → get_task j (task_step c l) ≡ store_step c (λ i. get_task i l) j
  unfolding task_step set_task_plan_mode increment_retry get_task
  task_step-get_task (insert task) j = insert-get_task task j
  task_step-get_task (set_status id s) j = set-get_task id s j
  task_step-get_task (set_plan_mode id mode) j =
      rw (lookup-adjust id j (with_plan_mode mode) l.tasks)
        (joined-plan_mode (str_eq id j) mode (lookup j l.task_status_overrides) (lookup j l.tasks))
  task_step-get_task (retry id) j =
      rw (lookup-adjust id j with_retry l.tasks)
        (joined-retry (str_eq id j) (lookup j l.task_status_overrides) (lookup j l.tasks))

  insert-HasOwners : (task : NewTask) → HasOwners (insert_task task l).1
  unfolding insert_task
  insert-HasOwners task j = elim (Bool-cases (contains task.id (keys l.tasks))) [
    | inl known ↦ rw known (owners j)
    | inr new ↦
        rw
          (
            new,
            sym (put_new task.id (new_row task) l.tasks new),
            lookup-put task.id j (new_row task) l.tasks,
          )
          (λ h. owners j (still (str_eq task.id j) h))
  ]
    where
      still :
          (b : Bool)
          → (if b then some (new_row task) else lookup j l.tasks) ≡ none
          → lookup j l.tasks ≡ none
      still true h = cc
      still false h = h

  set-HasOwners : (id : String) (s : TaskStatus) → HasOwners (set_task_status id s l).1
  unfolding set_task_status override_task_status update_task_status drop_task_override
  set-HasOwners id s j = elim (Bool-cases (is_extended s)) [
    | inr base ↦
        rw
          (
            base,
            lookup-adjust id j (with_task_status s) l.tasks,
            lookup-remove id j l.task_status_overrides,
          )
          (λ h.
            removed (str_eq id j)
              (owners j (on_row-none (str_eq id j) (with_task_status s) (lookup j l.tasks) h)))
    | inl extended ↦ elim (Bool-cases (contains id (keys l.tasks))) [
      | inl known ↦
          rw (extended, known, lookup-put id j s l.task_status_overrides)
            (λ h. other (str_eq id j) (owners j h) (λ same.
              lookup_known id l.tasks known
                (subst (λ i. lookup i l.tasks ≡ none) (sym ((eq_iff id j).0 same)) h)))
      | inr unknown ↦ rw (extended, unknown) (owners j)
    ]
  ]
    where
      removed :
          (b : Bool)
          → lookup j l.task_status_overrides ≡ none
          → (if b then none else lookup j l.task_status_overrides) ≡ none
      removed true e = refl
      removed false e = e

      other :
          (b : Bool)
          → lookup j l.task_status_overrides ≡ none
          → (b ≡ true → ⊥)
          → (if b then some s else lookup j l.task_status_overrides) ≡ none
      other true e never = elim (never refl) [ ]
      other false e never = e

  pub task_step-HasOwners : (c : TaskCall) → HasOwners (task_step c l)
  unfolding task_step set_task_plan_mode increment_retry
  task_step-HasOwners (insert task) = insert-HasOwners task
  task_step-HasOwners (set_status id s) = set-HasOwners id s
  task_step-HasOwners (set_plan_mode id mode) = λ j h. owners j (
      on_row-none (str_eq id j) (with_plan_mode mode) (lookup j l.tasks)
        (sym (lookup-adjust id j (with_plan_mode mode) l.tasks) ∙ h))
  task_step-HasOwners (retry id) = λ j h. owners j (
      on_row-none (str_eq id j) with_retry (lookup j l.tasks)
        (sym (lookup-adjust id j with_retry l.tasks) ∙ h))

-- A step of the store reads the one task.
store_step-eq :
    (c : TaskCall) (f g : Store) (j : String) → f j ≡ g j → store_step c f j ≡ store_step c g j
store_step-eq (insert task) f g j e =
    ap (λ o. if str_eq task.id j then if_new (new_row task) o else o) e
store_step-eq (set_status id s) f g j e = ap (on_row (str_eq id j) (with_task_status s)) e
store_step-eq (set_plan_mode id mode) f g j e = ap (on_row (str_eq id j) (with_plan_mode mode)) e
store_step-eq (retry id) f g j e = ap (on_row (str_eq id j) with_retry) e

run-get_task :
    (cs : List TaskCall) (l : Ledger) (store : Store)
    → HasOwners l
    → ((j : String) → get_task j l ≡ store j)
    → (j : String) → get_task j (task_run cs l) ≡ store_run cs store j
unfolding task_run
run-get_task [] l store owners same j = same j
run-get_task (c ∷ cs) l store owners same j =
    run-get_task cs (task_step c l) (store_step c store) (task_step-HasOwners l owners c)
      (λ i. task_step-get_task l owners c i ∙ store_step-eq c (λ h. get_task h l) store i (same i))
      j

-- Any inserts of tasks, changes of status and of plan mode and retries leave the same tasks, read
-- with their overrides, as a store in which every task has one status, if overrides belong to tasks.
pub tasks_refine_store :
    (cs : List TaskCall) (l : Ledger) (j : String)
    → HasOwners l
    → get_task j (task_run cs l) ≡ store_run cs (λ i. get_task i l) j
tasks_refine_store cs l j owners = run-get_task cs l (λ i. get_task i l) owners (λ i. refl) j
