-- ===== src/Ledger/Overlay/Store.antt =====
-- A store of tasks with one status, and what the statements of ledger/store.ts on an override and
-- on a row come to for the status that is read.
use pi_task.Common.{
  String, Bool, true, false, Option, none, some, List, [], ◌∷◌, if◌then◌else◌, contains, keys,
  lookup, str_eq, ◌≡◌, refl, arith,
}
use pi_task.Ledger.Tables.{on_row}
use pi_task.Ledger.Rows.{TaskStatus, PlanMode, TaskRow, Ledger}
use pi_task.Ledger.Tasks.{
  joined_task, NewTask, default_to, insert_task, with_task_status, set_task_status, with_plan_mode,
  set_task_plan_mode, with_retry, increment_retry,
}

pub data TaskCall : Type 0 where
  insert : NewTask → TaskCall
  set_status : String → TaskStatus → TaskCall
  set_plan_mode : String → PlanMode → TaskCall
  retry : String → TaskCall

unfoldable pub task_step : TaskCall → Ledger → Ledger
task_step (insert task) l = (insert_task task l).1
task_step (set_status id s) l = (set_task_status id s l).1
task_step (set_plan_mode id mode) l = set_task_plan_mode id mode l
task_step (retry id) l = increment_retry id l

unfoldable pub task_run : List TaskCall → Ledger → Ledger
task_run [] l = l
task_run (c ∷ cs) l = task_run cs (task_step c l)

-- A store of tasks that has no overrides.
abbrev pub Store : Type 0
Store = String → Option TaskRow

abbrev pub new_row : NewTask → TaskRow
new_row task = record {
  status = TaskStatus.queued;
  goal = task.goal;
  parent_branch = task.parent_branch;
  plan_mode = task.plan_mode;
  retry_count = default_to 0 task.retry_count;
  max_retries = default_to 2 task.max_retries;
}

abbrev pub if_new : TaskRow → Option TaskRow → Option TaskRow
if_new row none = some row
if_new row (some old) = some old

abbrev pub store_step : TaskCall → Store → Store
store_step (insert task) store j =
    if str_eq task.id j then if_new (new_row task) (store j) else store j
store_step (set_status id s) store j = on_row (str_eq id j) (with_task_status s) (store j)
store_step (set_plan_mode id mode) store j = on_row (str_eq id j) (with_plan_mode mode) (store j)
store_step (retry id) store j = on_row (str_eq id j) with_retry (store j)

abbrev pub store_run : List TaskCall → Store → Store
store_run [] store = store
store_run (c ∷ cs) store = store_run cs (store_step c store)

-- An override has its task.
abbrev pub HasOwners : Ledger → Type 0
HasOwners l = (j : String) → lookup j l.tasks ≡ none → lookup j l.task_status_overrides ≡ none

pub lookup-contains :
    {V : Type 0}
    → (k : String) (m : List (String × V)) → contains k (keys m) ≡ false
    → lookup k m ≡ none
unfolding lookup contains
lookup-contains k [] h = refl
lookup-contains k ((j, v) ∷ m) h = ground (arith, lookup-contains k m)

pub lookup_known :
    {V : Type 0}
    → (k : String) (m : List (String × V)) → contains k (keys m) ≡ true
    → lookup k m ≡ none
    → ⊥
unfolding lookup contains
lookup_known k [] h e = cc
lookup_known k ((j, v) ∷ m) h e = ground (arith, lookup_known k m)

pub joined-plan_mode :
    (b : Bool) (mode : PlanMode) (o : Option TaskStatus) (row : Option TaskRow)
    → joined_task o (on_row b (with_plan_mode mode) row)
      ≡ on_row b (with_plan_mode mode) (joined_task o row)
joined-plan_mode true mode o none = refl
joined-plan_mode true mode none (some row) = refl
joined-plan_mode true mode (some s) (some row) = refl
joined-plan_mode false mode o row = refl

pub joined-retry :
    (b : Bool) (o : Option TaskStatus) (row : Option TaskRow)
    → joined_task o (on_row b with_retry row) ≡ on_row b with_retry (joined_task o row)
joined-retry true o none = refl
joined-retry true none (some row) = refl
joined-retry true (some s) (some row) = refl
joined-retry false o row = refl

pub joined-updated :
    (b : Bool) (s : TaskStatus) (o : Option TaskStatus) (row : Option TaskRow)
    → joined_task (if b then none else o) (on_row b (with_task_status s) row)
      ≡ on_row b (with_task_status s) (joined_task o row)
joined-updated true s o none = refl
joined-updated true s none (some row) = refl
joined-updated true s (some t) (some row) = refl
joined-updated false s o row = refl

pub joined-overridden :
    (b : Bool) (s : TaskStatus) (o : Option TaskStatus) (row : Option TaskRow)
    → joined_task (if b then some s else o) row ≡ on_row b (with_task_status s) (joined_task o row)
joined-overridden true s o none = refl
joined-overridden true s none (some row) = refl
joined-overridden true s (some t) (some row) = refl
joined-overridden false s o row = refl

pub joined-inserted :
    (b : Bool) (new : TaskRow) (o : Option TaskStatus) (row : Option TaskRow)
    → (row ≡ none → o ≡ none)
    → (b ≡ true → row ≡ none)
    → joined_task o (if b then some new else row)
      ≡ (if b then if_new new (joined_task o row) else joined_task o row)
joined-inserted true new o none owner fresh = rw (owner refl) refl
joined-inserted true new o (some row) owner fresh = elim (none_some (fresh refl)) [ ]
  where
    none_some : some row ≡ none → ⊥
    none_some e = cc
joined-inserted false new o row owner fresh = refl

pub known_row :
    (b : Bool) (new : TaskRow) (o : Option TaskStatus) (row : Option TaskRow)
    → (b ≡ true → row ≡ none → ⊥)
    → joined_task o row ≡ (if b then if_new new (joined_task o row) else joined_task o row)
known_row true new o none known = elim (known refl refl) [ ]
known_row true new o (some row) known = refl
known_row false new o row known = refl

pub unknown_row :
    (b : Bool) (s : TaskStatus) (o : Option TaskStatus) (row : Option TaskRow)
    → (b ≡ true → row ≡ none)
    → joined_task o row ≡ on_row b (with_task_status s) (joined_task o row)
unknown_row true s o none h = refl
unknown_row true s o (some row) h = elim (none_some (h refl)) [ ]
  where
    none_some : some row ≡ none → ⊥
    none_some e = cc
unknown_row false s o row h = refl

-- Whether the row is there is not changed by an update.
pub on_row-none :
    {V : Type 0} → (b : Bool) (f : V → V) (o : Option V) → on_row b f o ≡ none → o ≡ none
on_row-none true f none h = refl
on_row-none true f (some v) h = cc
on_row-none false f o h = h
