-- ===== src/Watchdog/Driver/Examples.antt =====
-- Runs of the driver of packages/core-v2/src/guards/watchdog-driver.ts at small inputs.
use pi_task.Common.{
  ◌≡◌, refl, ◌↔◌, ◌⊎◌, true, none, some, List, [], ◌∷◌, arith, put, remove, lookup, contains,
  decimal,
}
use pi_task.Watchdog.Decide.{
  WatchdogEnd, settled_without_yield, settled_without_yield_message, tool_timeout,
  tool_timeout_message, decide_settle_action, decide_no_progress_action, decide_wall_action,
  decide_tool_timeout_action, decide_max_turns_action, format_duration_ms,
  default_settle_nudge_text,
}
use pi_task.Watchdog.Driver.{
  WatchdogDriver, WatchdogDriverOptions, SessionHostEvent, Input, make, emit, stop_timer, latch,
  on_cleanup, start, on_settle_action, dispatch, on_event, tool_verdict, tick_verdict, tick,
  dispose, step, run, is_some,
}
use pi_task.Watchdog.Driver.Latch.{aborts, nudges, IsOneShot, run-IsOneShot, latched_for_good}
use pi_task.Watchdog.Driver.Tick.{SomeOverdue, IsStalled, IsExpired}
use pi_task.Watchdog.Driver.Hangs.{tick_catches}
use pi_task.Watchdog.Driver.Attach.{
  attach_watchdogs, commands, prompts, session_aborts, attach_one_shot, prompt, abort_session,
}

-- All the code of the driver, for tests by evaluation.
abbrev code : Unit {0}
unfolding make emit stop_timer latch on_cleanup start on_settle_action dispatch on_event
    tool_verdict tick_verdict tick dispose step run decide_settle_action decide_no_progress_action
    decide_wall_action decide_tool_timeout_action decide_max_turns_action put remove lookup contains
code = tt

abbrev options : WatchdogDriverOptions
options = record {
  wall_timeout_ms = some 1_000;
  no_progress_timeout_ms = some 100;
  tool_timeout_ms = some 300;
  tick_interval_ms = none;
  max_turns = some 3;
  on_action = true;
  nudge_text = none;
  settled_action = none;
}

-- A slow tool starts before a quick one.
abbrev two_tools : List Input
two_tools =
    Input.started 0 7
    ∷ Input.observed 10 SessionHostEvent.turn_start
    ∷ Input.observed 20 (SessionHostEvent.tool_start "bash" "a" none)
    ∷ Input.observed 30 (SessionHostEvent.tool_start "read" "b" (some "x"))
    ∷ []

abbrev settles : List Input
settles =
    Input.started 0 7
    ∷ Input.observed 10 SessionHostEvent.settled
    ∷ Input.observed 20 SessionHostEvent.settled
    ∷ []

abbrev settle_end : WatchdogEnd
settle_end = record { reason = settled_without_yield; message = settled_without_yield_message }

durations :
    (format_duration_ms 999 ≡ "999ms")
    × (format_duration_ms 59_999 ≡ "59s")
    × (format_duration_ms 2_700_000 ≡ "45m")
    × (format_duration_ms 90_000 ≡ "1m 30s")
    × (format_duration_ms 3_660_000 ≡ "1h 1m")
unfolding format_duration_ms decimal
durations = (refl, refl, refl, refl, refl)

settles_latch : (run (make options) settles).terminal ≡ some settle_end
unfolding code
settles_latch = refl

run-IsOneShot_example : IsOneShot true (run (make options) settles)
run-IsOneShot_example = run-IsOneShot options settles

latched_for_good_example :
    ((run (run (make options) settles) two_tools).terminal ≡ some settle_end)
    × (aborts (run (run (make options) settles) two_tools).log
        ≡ aborts (run (make options) settles).log)
    × (nudges (run (run (make options) settles) two_tools).log
        ≡ nudges (run (make options) settles).log)
latched_for_good_example =
    latched_for_good (run (make options) settles) two_tools settle_end settles_latch

abbrev busy : WatchdogDriver
busy = run (make options) two_tools

tick_catches_example : (is_some (tick 320 busy).terminal ≡ true) ↔ (
    IsExpired busy 320
    ⊎ IsStalled busy 320
    ⊎ SomeOverdue 320 busy.limits.tool_timeout_ms busy.in_flight)
unfolding code
tick_catches_example = tick_catches options two_tools 320 busy (ground arith) refl (refl, refl)

tick-busy :
    (tick 320 busy).terminal
    ≡ some (record { reason = tool_timeout; message = tool_timeout_message 300 "bash" })
unfolding code
tick-busy = refl

attach_one_shot_example :
    (session_aborts (
        commands
          (run (attach_watchdogs options 0 7 8 ((0, SessionHostEvent.settled) ∷ [])) settles).log)
      ≡ 1)
    × (prompts (
          commands
            (run (attach_watchdogs options 0 7 8 ((0, SessionHostEvent.settled) ∷ [])) settles).log)
        ≡ 1)
unfolding code attach_watchdogs
attach_one_shot_example =
    attach_one_shot options 0 7 8 ((0, SessionHostEvent.settled) ∷ []) settles
      (run (attach_watchdogs options 0 7 8 ((0, SessionHostEvent.settled) ∷ [])) settles) refl

attach_runs :
    commands
      (attach_watchdogs options 0 7 8
        ((0, SessionHostEvent.settled) ∷ (1, SessionHostEvent.settled) ∷ [])).log
    ≡ prompt default_settle_nudge_text ∷ abort_session ∷ []
unfolding code attach_watchdogs commands
attach_runs = refl
