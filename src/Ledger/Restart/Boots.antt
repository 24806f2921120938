-- ===== src/Ledger/Restart/Boots.antt =====
-- What a boot of ledger/store.ts makes of every task.
use mathlib.Core.Path.{subst}
use pi_task.Common.{
  ◌≤◌, ltb, String, Bool, true, false, Option, none, some, List, [], ◌∷◌, if◌then◌else◌, lookup,
  keep, keys, contains, IsDistinct, ◌≡◌, refl, sym, ap, ◌∙◌, inl, inr, Bool-cases, arith, eq_iff,
  eq_refl,
}
use pi_task.Ledger.Tables.{keys-adjust}
use pi_task.Ledger.Rows.{failed, TaskStatus, TaskRow, Ledger}
use pi_task.Ledger.Tasks.{
  get_task, joined_task, list_all_tasks, list_tasks, has_status, with_task_status,
  update_task_status, is_extended,
}
use pi_task.Ledger.Overlay.Store.{lookup-contains}
use pi_task.Ledger.Boot.{
  is_in_flight, ReconcileDecision, keeps, requeues, fails, is_owned, requeued_row, requeue, Touched,
  reconcile_tasks, in_flight, reconcile_on_boot,
}
use pi_task.Ledger.Restart.Decisions.{
  IsSound, applied, by_decision-applied, decision, not_overridden, reconcile-keep, restarted,
}
use pi_task.Ledger.Restart.Loop.{Current, Looped, loop-Looped}

-- Every row of the list is the one that its key finds in the table.
abbrev Found : List (String × TaskRow) → List (String × TaskRow) → Type 0
Found whole [] = Unit
Found whole ((id, row) ∷ rows) = (lookup id whole ≡ some row) × Found whole rows

Found-cons :
    (k : String) (v : TaskRow) (whole rows : List (String × TaskRow))
    → contains k (keys rows) ≡ false
    → Found whole rows
    → Found ((k, v) ∷ whole) rows
unfolding contains lookup
Found-cons k v whole [] c h = tt
Found-cons k v whole ((id, row) ∷ rows) c (now, rest) =
    (ground (arith, eq_iff id k, eq_iff k id), Found-cons k v whole rows (ground arith) rest)

Found-all : (rows : List (String × TaskRow)) → IsDistinct (keys rows) → Found rows rows
unfolding lookup
Found-all [] d = tt
Found-all ((id, row) ∷ rows) d =
    (rw (eq_refl id) refl, Found-cons id row rows rows d.0 (Found-all rows d.1))

keys-list_all_tasks :
    (overrides : List (String × TaskStatus)) (rows : List (String × TaskRow))
    → keys (list_all_tasks overrides rows) ≡ keys rows
unfolding list_all_tasks
keys-list_all_tasks overrides [] = refl
keys-list_all_tasks overrides ((id, row) ∷ rows) =
    ap (λ ks. id ∷ ks) (keys-list_all_tasks overrides rows)

list-Current :
    (l : Ledger) (rows : List (String × TaskRow))
    → ((j : String) (s : TaskStatus)
        → lookup j l.task_status_overrides ≡ some s
        → is_extended s ≡ true)
    → IsDistinct (keys rows)
    → Found l.tasks rows
    → Current (list_all_tasks l.task_status_overrides rows) l
unfolding list_all_tasks get_task
list-Current l [] extended d f = tt
list-Current l ((id, row) ∷ rows) extended d (found, rest) = (
  rw found refl,
  not_overridden (lookup id l.task_status_overrides) row (extended id),
  ap (contains id) (keys-list_all_tasks l.task_status_overrides rows) ∙ d.0,
  list-Current l rows extended d.1 rest,
)

keep_any : (rows : List (String × TaskRow)) → keep (has_status none) rows ≡ rows
keep_any [] = refl
keep_any (row ∷ rows) = ap (λ rs. row ∷ rs) (keep_any rows)

if_listed :
    (known owned : Bool) (o : Option TaskRow)
    → (known ≡ false → o ≡ none)
    → (if known then restarted owned o else o) ≡ restarted owned o
if_listed true owned o h = refl
if_listed false owned o h = rw (h refl) refl

-- After a boot, a task that was in flight and neither an active edge nor an open preparation owns is
-- queued with one more retry if it had retries left, and has failed if not; any other is as before,
-- in a ledger with one row for a task and with overrides only of the statuses that are kept there.
pub reconcile_on_boot-restarted :
    (l : Ledger) (j : String)
    → IsSound l
    → get_task j (reconcile_on_boot l).1 ≡ restarted (is_owned j l) (get_task j l)
unfolding reconcile_on_boot list_tasks get_task Looped
reconcile_on_boot-restarted l j sound =
    let rows : List (String × TaskRow) = list_all_tasks l.task_status_overrides l.tasks in
    ap (λ rs. get_task j (reconcile_tasks (keep in_flight rs) l).1) (keep_any rows)
    ∙ ap (λ (o : Touched × Ledger). get_task j o.1) (reconcile-keep rows l)
    ∙ loop-Looped rows l
        (list-Current l l.tasks sound.extended sound.distinct (Found-all l.tasks sound.distinct)) j
    ∙ if_listed (contains j (keys rows)) (is_owned j l) (get_task j l) (λ out.
      ap (joined_task (lookup j l.task_status_overrides)) (
        lookup-contains j l.tasks
          (sym (ap (contains j) (keys-list_all_tasks l.task_status_overrides l.tasks)) ∙ out)))

-- A task has tried at most as often as it may.
abbrev pub IsWithinRetries : Option TaskRow → Type 0
IsWithinRetries none = Unit
IsWithinRetries (some row) = row.retry_count ≤ row.max_retries

-- A retry count that is at most the maximum stays so over a boot, in a ledger with one row for a
-- task and with overrides only of the statuses that are kept there.
pub reconcile_on_boot-IsWithinRetries :
    (l : Ledger) (j : String)
    → IsSound l
    → IsWithinRetries (get_task j l)
    → IsWithinRetries (get_task j (reconcile_on_boot l).1)
reconcile_on_boot-IsWithinRetries l j sound h =
    subst IsWithinRetries (sym (reconcile_on_boot-restarted l j sound))
      (within (is_owned j l) (get_task j l) h)
  where
    within :
        (owned : Bool) (o : Option TaskRow)
        → IsWithinRetries o
        → IsWithinRetries (restarted owned o)
    within owned none h = tt
    within true (some row) h = h
    within false (some row) h = elim (Bool-cases (is_in_flight row.status)) [
      | inr e ↦ rw e h
      | inl e ↦ elim (Bool-cases (ltb row.retry_count row.max_retries)) [
        | inr spent ↦ rw (e, spent) h
        | inl left ↦ rw (e, left) (ground arith)
      ]
    ]

-- What a boot leaves alone.
IsAlongside : Ledger → Ledger → Type 0
IsAlongside l m =
    (keys m.tasks ≡ keys l.tasks)
    × (m.task_status_overrides ≡ l.task_status_overrides)
    × ((j : String) → is_owned j m ≡ is_owned j l)

applied-IsAlongside :
    (d : ReconcileDecision) (id : String) (l : Ledger) → IsAlongside l (applied d id l)
unfolding IsAlongside requeue update_task_status is_owned
applied-IsAlongside keeps id l = (refl, refl, λ j. refl)
applied-IsAlongside requeues id l = (keys-adjust id requeued_row l.tasks, refl, λ j. refl)
applied-IsAlongside fails id l =
    (keys-adjust id (with_task_status (TaskStatus.ended failed)) l.tasks, refl, λ j. refl)

loop-IsAlongside :
    (rows : List (String × TaskRow)) (l : Ledger) → IsAlongside l (reconcile_tasks rows l).1
unfolding reconcile_tasks decision IsAlongside
loop-IsAlongside [] l = (refl, refl, λ j. refl)
loop-IsAlongside ((id, row) ∷ rows) l =
    let d : ReconcileDecision = decision (is_owned id l) row in
    let (k, o, w) = applied-IsAlongside d id l in
    let (ks, os, ws) = loop-IsAlongside rows (applied d id l) in
    subst (IsAlongside l) (sym (by_decision-applied d id (reconcile_tasks rows) l))
      (ks ∙ k, os ∙ o, λ j. ws j ∙ w j)

restarted_twice :
    (owned : Bool) (o : Option TaskRow) → restarted owned (restarted owned o) ≡ restarted owned o
unfolding is_in_flight
restarted_twice owned none = refl
restarted_twice true (some row) = refl
restarted_twice false (some row) = elim (Bool-cases (is_in_flight row.status)) [
  | inr e ↦ rw (e, e) refl
  | inl e ↦ elim (Bool-cases (ltb row.retry_count row.max_retries)) [
    | inr spent ↦ rw (e, spent) refl
    | inl left ↦ rw (e, left) refl
  ]
]

-- A boot after a boot changes no task, in a ledger with one row for a task and with overrides only
-- of the statuses that are kept there.
pub reconcile_on_boot_twice :
    (l : Ledger) (j : String)
    → IsSound l
    → get_task j (reconcile_on_boot (reconcile_on_boot l).1).1 ≡ get_task j (reconcile_on_boot l).1
unfolding reconcile_on_boot IsAlongside
reconcile_on_boot_twice l j sound =
    let m : Ledger = (reconcile_on_boot l).1 in
    let (same_keys, same_overrides, same_owner) =
      loop-IsAlongside (keep in_flight (list_tasks none l)) l in
    let sound_after : IsSound m = record {
      extended = λ i s e. sound.extended i s (sym (ap (lookup i) same_overrides) ∙ e);
      distinct = subst IsDistinct (sym same_keys) sound.distinct;
    } in
    let first : get_task j m ≡ restarted (is_owned j l) (get_task j l) =
      reconcile_on_boot-restarted l j sound in
    reconcile_on_boot-restarted m j sound_after
    ∙ ap (λ b. restarted b (get_task j m)) (same_owner j)
    ∙ ap (restarted (is_owned j l)) first
    ∙ restarted_twice (is_owned j l) (get_task j l)
    ∙ sym first
