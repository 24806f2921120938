-- ===== src/Jobs/Examples.antt =====
-- Runs of extensions/task/scheduler.ts with two jobs.
use pi_task.Common.{
  ℕ, ◌+◌, String, ◌≡◌, refl, true, false, ◌&&◌, none, some, [], ◌∷◌, leb, if◌then◌else◌, contains,
  lookup, put, returns, throws,
}
use pi_task.Jobs.{
  JobConfig, Jobs, SchedulerState, DispatchResult, started, threw, is_due, last_run, due_jobs,
  record_dispatch, dispatch_all, run_due, run_once, SchedulerArgs, loop, parse_scheduler_args,
  parse_rest, flag_of, dry_entry,
}
use pi_task.Jobs.Due.{names, has_started, run_once_then_due}
use pi_task.Jobs.Arguments.{print, parse_scheduler_args-print}

abbrev job : ℕ → JobConfig
job every = record {
  description = "d";
  channel = "flex";
  tier = "economy";
  shape = "analysis";
  spec = "s";
  every_ms = every;
}

abbrev jobs : Jobs
jobs = ("a", job 10) ∷ ("b", job 20) ∷ ("c", job 30) ∷ []

abbrev state : SchedulerState
state = ("c", record { last_run_ms = 90; run_id = none }) ∷ []

abbrev dispatch : String → JobConfig → DispatchResult
dispatch name job = if contains name ("b" ∷ []) then threw "no" else started job.channel name

one_dispatched : names (run_once dispatch jobs state 100 false).dispatched ≡ "a" ∷ []
unfolding run_once run_due due_jobs is_due dispatch_all record_dispatch contains lookup put
one_dispatched = refl

dry_lists_due : names (run_once dispatch jobs state 100 true).dispatched ≡ "a" ∷ "b" ∷ []
unfolding run_once run_due due_jobs is_due dispatch_all record_dispatch contains lookup put
    dry_entry
dry_lists_due = refl

run_once_then_due_example :
    (contains "a" (names (run_once dispatch jobs state 100 false).dispatched)
      ≡ (is_due (job 10) (last_run state "a") 100 && has_started (dispatch "a" (job 10))))
    × (is_due (job 10) (last_run (run_once dispatch jobs state 100 false).state "a") 105 ≡ (
        if contains "a" (names (run_once dispatch jobs state 100 false).dispatched)
        then leb (100 + 10) 105
        else is_due (job 10) (last_run state "a") 105))
unfolding lookup contains
run_once_then_due_example =
    run_once_then_due dispatch jobs state 100 105 "a" (job 10) (refl, (refl, (refl, tt))) refl

abbrev settings : SchedulerArgs
settings = record { mode = loop; project = some "--loop"; dry_run = true; help = false }

parse_scheduler_args-print_example : parse_scheduler_args (print settings) ≡ returns settings
parse_scheduler_args-print_example = parse_scheduler_args-print settings

no_value : parse_scheduler_args ("--project" ∷ []) ≡ throws "--project requires a value"
unfolding parse_scheduler_args parse_rest flag_of
no_value = refl
