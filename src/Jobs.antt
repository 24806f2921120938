-- ===== src/Jobs.antt =====
-- extensions/task/scheduler.ts: the jobs of the configuration that are due, and their dispatch. What
-- `dispatchJob` comes to, which writes a request and starts a process, is a function from the job to
-- its result. The state file is the state that a run reads and what it writes, if it writes.
pub mod Due
pub mod Arguments
pub mod Examples
use Prim.Native.String.{◌++◌ as ◌<>◌}
use mathlib.Core.Option.{get_or}
use pi_task.Common.{
  ℕ, ◌+◌, String, Bool, true, false, ◌||◌, Option, none, some, List, [], ◌∷◌, ◌++◌, map, leb, ◌==◌,
  str_eq, if◌then◌else◌, length, lookup, put, Result, returns, throws,
}

pub record JobConfig : Type 0 where
  pub description : String
  pub channel : String
  pub tier : String
  pub shape : String
  pub spec : String
  pub every_ms : ℕ

pub record SchedulerEntry : Type 0 where
  pub last_run_ms : ℕ
  pub run_id : Option String

abbrev pub SchedulerState : Type 0
SchedulerState = List (String × SchedulerEntry)

abbrev pub Jobs : Type 0
Jobs = List (String × JobConfig)

-- `state[name]?.lastRunMs`
abbrev pub last_run : SchedulerState → String → Option ℕ
last_run state name = elim (lookup name state) [ none ↦ none | some e ↦ some e.last_run_ms ]

-- The source compares the difference, which may be below zero.
pub is_due : JobConfig → Option ℕ → ℕ → Bool
is_due job none now_ms = true
is_due job (some last_run_ms) now_ms = leb (last_run_ms + job.every_ms) now_ms

pub due_jobs : Jobs → SchedulerState → ℕ → Jobs
due_jobs [] state now_ms = []
due_jobs ((name, job) ∷ jobs) state now_ms =
    let rest = due_jobs jobs state now_ms in
    if is_due job (last_run state name) now_ms then (name, job) ∷ rest else rest

-- What a dispatch comes to: the id that it started, or the message of what it throws.
pub data DispatchResult : Type 0 where
  started : (lane id : String) → DispatchResult
  threw : (message : String) → DispatchResult

pub record Dispatched : Type 0 where
  pub name : String
  pub lane : String
  pub id : String

pub record RunOnce : Type 0 where
  pub state : SchedulerState
  pub dispatched : List Dispatched
  pub log : List String

dry_log : String × JobConfig → String
dry_log (name, job) = "[scheduler] due: " <> (name <> " (dry-run — not dispatched)")

dry_entry : Jobs → String × JobConfig → Dispatched
dry_entry jobs (name, job) = record {
  name = name;
  lane = elim (lookup name jobs) [ none ↦ "flex" | some j ↦ j.channel ];
  id = "(dry)";
}

pub record_dispatch : ℕ → String → JobConfig → DispatchResult → RunOnce → RunOnce
record_dispatch now_ms name job (started lane id) r = record {
  state = put name (record { last_run_ms = now_ms; run_id = some id }) r.state;
  dispatched = r.dispatched ++ record { name = name; lane = lane; id = id } ∷ [];
  log =
      r.log
      ++ ("[scheduler] dispatching "
          <> (name <> (" on " <> (job.channel <> (" (" <> (job.description <> ")…"))))))
        ∷ ("[scheduler] dispatched " <> (name <> (" → " <> (lane <> (":" <> id)))))
        ∷ [];
}
record_dispatch now_ms name job (threw message) r = record r {
  log =
      r.log
      ++ ("[scheduler] dispatching "
          <> (name <> (" on " <> (job.channel <> (" (" <> (job.description <> ")…"))))))
        ∷ ("[scheduler] dispatch " <> (name <> (" failed: " <> message)))
        ∷ [];
}

pub dispatch_all : (String → JobConfig → DispatchResult) → ℕ → Jobs → RunOnce → RunOnce
dispatch_all dispatch now_ms [] r = r
dispatch_all dispatch now_ms ((name, job) ∷ due) r =
    dispatch_all dispatch now_ms due (record_dispatch now_ms name job (dispatch name job) r)

-- The run, for the jobs that are due. A dry run, and one with nothing due, writes no state.
pub run_due :
    (String → JobConfig → DispatchResult)
    → Jobs
    → SchedulerState
    → ℕ
    → (dry_run : Bool) → Jobs
    → RunOnce
run_due dispatch jobs state now_ms true due = record {
  state = state;
  dispatched = map (dry_entry jobs) due;
  log = map dry_log due;
}
run_due dispatch jobs state now_ms false due =
    dispatch_all dispatch now_ms due (record { state = state; dispatched = []; log = [] })

pub run_once :
    (String → JobConfig → DispatchResult) → Jobs → SchedulerState → ℕ → (dry_run : Bool) → RunOnce
run_once dispatch jobs state now_ms dry_run =
    let due = due_jobs jobs state now_ms in
    run_due dispatch jobs state now_ms (dry_run || length due == 0) due

pub data Mode : Type 0 where
  once loop : Mode

pub record SchedulerArgs : Type 0 where
  pub mode : Mode
  pub project : Option String
  pub dry_run : Bool
  pub help : Bool

pub data Flag : Type 0 where
  sets_mode : Mode → Flag
  sets_dry_run takes_project asks_help not_known : Flag

pub flag_of : String → Flag
flag_of a =
    if str_eq a "--once"
    then sets_mode once
    else if str_eq a "--loop"
    then sets_mode loop
    else if str_eq a "--dry-run"
    then sets_dry_run
    else if str_eq a "--project"
    then takes_project
    else if str_eq a "--help" || str_eq a "-h"
    then asks_help
    else not_known

-- The rest of the arguments; `value_next` after a `--project`.
pub parse_rest : (value_next : Bool) → List String → SchedulerArgs → Result String SchedulerArgs
parse_rest true [] out = throws "--project requires a value"
parse_rest true (v ∷ argv) out = parse_rest false argv (record out { project = some v })
parse_rest false [] out = returns out
parse_rest false (a ∷ argv) out = elim (flag_of a) [
  | sets_mode mode ↦ parse_rest false argv (record out { mode = mode })
  | sets_dry_run ↦ parse_rest false argv (record out { dry_run = true })
  | takes_project ↦ parse_rest true argv out
  | asks_help ↦ parse_rest false argv (record out { help = true })
  | not_known ↦ throws ("unknown argument: " <> a)
]

pub parse_scheduler_args : List String → Result String SchedulerArgs
parse_scheduler_args argv =
    parse_rest false argv (record { mode = once; project = none; dry_run = false; help = false })
