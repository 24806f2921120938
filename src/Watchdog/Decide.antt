-- ===== src/Watchdog/Decide.antt =====
-- The pure decisions of packages/core-v2/src/guards/watchdogs.ts and the turn cap of
-- packages/core-v2/src/budget/execution-budget.ts. Times are milliseconds, natural numbers; a test
-- `now - start >= limit` is written `start + limit <= now`, which is the same for every clock.
use Prim.Native.String.{◌++◌}
use pi_task.Common.{
  ℕ, ◌+◌, ◌*◌, ◌/◌, ◌%◌, String, Bool, ◌&&◌, Option, none, some, ltb, leb, if◌then◌else◌, decimal,
}

pub data WatchedEventType : Type 0 where
  turn_start tool_start tool_end settled yielded cancelled rejected error : WatchedEventType

pub data WatchdogAbortReason : Type 0 where
  wall_timeout no_progress tool_timeout settled_without_yield budget_exceeded : WatchdogAbortReason

pub record WatchdogEnd : Type 0 where
  pub reason : WatchdogAbortReason
  pub message : String

pub data WatchdogAction : Type 0 where
  continue : WatchdogAction
  nudge : (text : String) → WatchdogAction
  abort : WatchdogEnd → WatchdogAction

abbrev pub default_wall_timeout_ms : ℕ
default_wall_timeout_ms = 45 * 60_000

abbrev pub default_no_progress_timeout_ms : ℕ
default_no_progress_timeout_ms = 10 * 60_000

abbrev pub default_tool_timeout_ms : ℕ
default_tool_timeout_ms = 15 * 60_000

abbrev pub default_tick_interval_ms : ℕ
default_tick_interval_ms = 10_000

abbrev pub default_settle_nudge_text : String
default_settle_nudge_text =
    "You finished your turn without calling the `yield` tool. If your work is "
    ++ "complete, call `yield` now to finalize; otherwise continue working."

unfoldable pub format_duration_ms : ℕ → String
format_duration_ms ms =
    let total_seconds = ms / 1_000 in
    let seconds = total_seconds % 60 in
    let total_minutes = total_seconds / 60 in
    let total_hours = total_minutes / 60 in
    let remain_minutes = total_minutes % 60 in
    if ltb ms 1_000
    then decimal ms ++ "ms"
    else if ltb total_minutes 1
    then decimal total_seconds ++ "s"
    else if ltb total_hours 1
    then (if ltb 0 seconds
        then decimal total_minutes ++ ("m " ++ (decimal seconds ++ "s"))
        else decimal total_minutes ++ "m")
    else if ltb 0 remain_minutes
    then decimal total_hours ++ ("h " ++ (decimal remain_minutes ++ "m"))
    else decimal total_hours ++ "h"

-- `${formatDurationMs(ms)} (${ms} ms)`
both_units : ℕ → String
both_units ms = format_duration_ms ms ++ (" (" ++ (decimal ms ++ " ms)"))

unfoldable pub wall_timeout_message : ℕ → String
unfolding both_units
wall_timeout_message timeout_ms =
    "Session wall-timeout: the run reached its full wall-clock budget of "
    ++ (both_units timeout_ms ++ " without finishing.")

unfoldable pub no_progress_message : ℕ → String
unfolding both_units
no_progress_message window_ms =
    "Session aborted: no progress — no activity (turns, tool calls, or events) for "
    ++ (both_units window_ms
        ++ (". The session appears hung; an in-flight tool call counts as progress, "
            ++ "so only the per-tool watchdog can catch a tool that never returns."))

unfoldable pub tool_timeout_message : ℕ → String → String
unfolding both_units
tool_timeout_message timeout_ms tool_name =
    "Session aborted: tool \""
    ++ (tool_name
        ++ ("\" exceeded its per-tool-call budget of "
            ++ (both_units timeout_ms ++ " — a hung tool the no-progress watchdog cannot see.")))

unfoldable pub settled_without_yield_message : String
settled_without_yield_message =
    "Session aborted: settled twice without capturing a yield. The agent finished "
    ++ "its turn but never called the `yield` tool, even after a reminder."

unfoldable pub budget_exceeded_message : ℕ → String
budget_exceeded_message max_turns =
    "Session aborted: turn budget exceeded — the run reached its independent maxTurns cap of "
    ++ (decimal max_turns ++ " turn(s) without finishing (wall timeout is separate).")

abbrev pub end_by : WatchdogAbortReason → String → WatchdogAction
end_by reason message = abort (record { reason = reason; message = message })

-- (a)
unfoldable pub decide_settle_action :
    WatchedEventType → (has_yielded already_nudged : Bool) → WatchdogAction
decide_settle_action settled has_yielded already_nudged =
    if has_yielded
    then continue
    else if already_nudged
    then end_by settled_without_yield settled_without_yield_message
    else nudge default_settle_nudge_text
decide_settle_action _ has_yielded already_nudged = continue

-- (b)
unfoldable pub decide_no_progress_action :
    (now_ms last_activity_ms window_ms : ℕ) (in_flight_tool : Bool) → WatchdogAction
decide_no_progress_action now_ms last_activity_ms window_ms in_flight_tool =
    if in_flight_tool
    then continue
    else if leb (last_activity_ms + window_ms) now_ms
    then end_by no_progress (no_progress_message window_ms)
    else continue

-- (c)
unfoldable pub decide_wall_action : (now_ms started_at_ms wall_timeout_ms : ℕ) → WatchdogAction
decide_wall_action now_ms started_at_ms wall_timeout_ms =
    if leb (started_at_ms + wall_timeout_ms) now_ms
    then end_by wall_timeout (wall_timeout_message wall_timeout_ms)
    else continue

-- (d)
unfoldable pub decide_tool_timeout_action :
    (now_ms started_at_ms timeout_ms : ℕ) (tool_name : String) → WatchdogAction
decide_tool_timeout_action now_ms started_at_ms timeout_ms tool_name =
    if leb (started_at_ms + timeout_ms) now_ms
    then end_by tool_timeout (tool_timeout_message timeout_ms tool_name)
    else continue

-- (e)
unfoldable pub decide_max_turns_action : (turns max_turns : ℕ) → WatchdogAction
decide_max_turns_action turns max_turns =
    if ltb 0 max_turns && leb max_turns turns
    then end_by budget_exceeded (budget_exceeded_message max_turns)
    else continue

pub data BudgetReason : Type 0 where
  turns : BudgetReason

-- `budgetReason`; its cost argument is ignored by the source, and so is absent here.
unfoldable pub budget_reason : (turns max_turns : ℕ) → Option BudgetReason
budget_reason n max_turns = if ltb 0 max_turns && leb max_turns n then some turns else none
