-- ===== src/Ledger/Tasks.antt =====
-- packages/core-v2/src/ledger/store.ts: the operations on tasks and what a transaction is.
use pi_task.Common.{
  ℕ, ◌+◌, String, Bool, true, false, Option, none, some, List, [], ◌∷◌, ◌++◌, if◌then◌else◌,
  contains, keys, keep, str_eq, lookup, put, remove, returns, throws,
}
use pi_task.Ledger.Tables.{adjust}
use pi_task.Ledger.Rows.{
  completed, failed, escalated, TaskStatus, PlanMode, TaskRow, Ledger, Outcome,
}

-- A row's status is that of the override, if there is one.
abbrev pub row_to_task : Option TaskStatus → TaskRow → TaskRow
row_to_task none row = row
row_to_task (some s) row = record row { status = s }

abbrev pub joined_task : Option TaskStatus → Option TaskRow → Option TaskRow
joined_task o none = none
joined_task o (some row) = some (row_to_task o row)

unfoldable pub get_task : String → Ledger → Option TaskRow
get_task id l = joined_task (lookup id l.task_status_overrides) (lookup id l.tasks)

pub record NewTask : Type 0 where
  pub id : String
  pub goal : String
  pub parent_branch : Option String
  pub plan_mode : Option PlanMode
  pub retry_count : Option ℕ
  pub max_retries : Option ℕ

abbrev pub default_to : ℕ → Option ℕ → ℕ
default_to n none = n
default_to n (some m) = m

unfoldable pub insert_task : NewTask → Ledger → Outcome Unit
insert_task task l =
    if contains task.id (keys l.tasks) then (throws "UNIQUE constraint failed: tasks.id", l) else (
      returns tt,
      record l {
        tasks =
            l.tasks
            ++ (
              task.id,
              record {
                status = TaskStatus.queued;
                goal = task.goal;
                parent_branch = task.parent_branch;
                plan_mode = task.plan_mode;
                retry_count = default_to 0 task.retry_count;
                max_retries = default_to 2 task.max_retries;
              },
            )
              ∷ [];
      },
    )

-- The statuses that are kept in the table of overrides.
unfoldable pub is_extended : TaskStatus → Bool
is_extended TaskStatus.awaiting_child = true
is_extended TaskStatus.preparing = true
is_extended TaskStatus.awaiting_execution = true
is_extended TaskStatus.resumable = true
is_extended TaskStatus.delivery_pending = true
is_extended _ = false

-- `INSERT INTO task_status_overrides … ON CONFLICT(task_id) DO UPDATE`
unfoldable pub override_task_status : String → TaskStatus → Ledger → Ledger
override_task_status id s l = record l { task_status_overrides = put id s l.task_status_overrides }

-- `DELETE FROM task_status_overrides WHERE task_id = ?`
unfoldable pub drop_task_override : String → Ledger → Ledger
drop_task_override id l = record l { task_status_overrides = remove id l.task_status_overrides }

abbrev pub with_task_status : TaskStatus → TaskRow → TaskRow
with_task_status s row = record row { status = s }

-- `UPDATE tasks SET status = ? WHERE id = ?`
unfoldable pub update_task_status : String → TaskStatus → Ledger → Ledger
update_task_status id s l = record l { tasks = adjust id (with_task_status s) l.tasks }

-- An override refers to a task that is there.
unfoldable pub set_task_status : String → TaskStatus → Ledger → Outcome Unit
set_task_status id s l =
    if is_extended s
    then (if contains id (keys l.tasks)
        then (returns tt, override_task_status id s l)
        else (throws "FOREIGN KEY constraint failed", l))
    else (returns tt, update_task_status id s (drop_task_override id l))

abbrev pub with_plan_mode : PlanMode → TaskRow → TaskRow
with_plan_mode mode row = record row { plan_mode = some mode }

unfoldable pub set_task_plan_mode : String → PlanMode → Ledger → Ledger
set_task_plan_mode id mode l = record l { tasks = adjust id (with_plan_mode mode) l.tasks }

abbrev pub with_retry : TaskRow → TaskRow
with_retry row = record row { retry_count = row.retry_count + 1 }

unfoldable pub increment_retry : String → Ledger → Ledger
increment_retry id l = record l { tasks = adjust id with_retry l.tasks }

-- Every task with its status.
unfoldable pub list_all_tasks :
    List (String × TaskStatus) → List (String × TaskRow) → List (String × TaskRow)
list_all_tasks overrides [] = []
list_all_tasks overrides ((id, row) ∷ rows) =
    (id, row_to_task (lookup id overrides) row) ∷ list_all_tasks overrides rows

-- A status as the text of its column.
unfoldable pub task_status_text : TaskStatus → String
task_status_text TaskStatus.queued = "queued"
task_status_text TaskStatus.planning = "planning"
task_status_text TaskStatus.executing = "executing"
task_status_text TaskStatus.awaiting_child = "awaiting_child"
task_status_text TaskStatus.preparing = "preparing"
task_status_text TaskStatus.awaiting_execution = "awaiting_execution"
task_status_text TaskStatus.resumable = "resumable"
task_status_text TaskStatus.delivery_pending = "delivery_pending"
task_status_text TaskStatus.verifying = "verifying"
task_status_text TaskStatus.reviewing = "reviewing"
task_status_text (TaskStatus.ended completed) = "completed"
task_status_text (TaskStatus.ended failed) = "failed"
task_status_text (TaskStatus.ended escalated) = "escalated"

abbrev pub has_status : Option TaskStatus → String × TaskRow → Bool
has_status none entry = true
has_status (some s) (id, row) = str_eq (task_status_text row.status) (task_status_text s)

unfoldable pub list_tasks : Option TaskStatus → Ledger → List (String × TaskRow)
list_tasks status l = keep (has_status status) (list_all_tasks l.task_status_overrides l.tasks)

abbrev pub commit_or_rollback : {A : Type 0} → Ledger → Outcome A → Outcome A
commit_or_rollback before (returns a, after) = (returns a, after)
commit_or_rollback before (throws e, after) = (throws e, before)

-- `work` on the tables; when it throws, they are as before.
unfoldable pub transaction : {A : Type 0} → (Ledger → Outcome A) → Ledger → Outcome A
transaction work l = commit_or_rollback l (work l)

infixl 4 ◌then◌
-- The rest of a call runs on the tables that the statement before it left, if that returned.
abbrev pub ◌then◌ : {A B : Type 0} → Outcome A → (A → Ledger → Outcome B) → Outcome B
(returns a, l) then rest = rest a l
(throws e, l) then rest = (throws e, l)
