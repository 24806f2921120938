-- ===== src/Watchdog/Driver/Tick.antt =====
-- Which calls of `tick` of packages/core-v2/src/guards/watchdog-driver.ts latch the driver, if the
-- tools in flight are ordered by their starts.
use pi_task.Common.{
  ℕ, ◌+◌, ◌≤◌, String, ◌≡◌, refl, ◌↔◌, ◌⊎◌, inl, inr, Bool, true, false, ◌&&◌, ◌||◌, leb, none,
  some, List, [], ◌∷◌, arith, lookup, Bool-cases, eq_refl,
}
use pi_task.Watchdog.Decide.{
  WatchdogEnd, decide_wall_action, decide_no_progress_action, decide_tool_timeout_action,
  WatchdogAction, abort,
}
use pi_task.Watchdog.Driver.{
  WatchdogDriver, InFlightTool, emit, stop_timer, latch, latch_abort, tool_verdict, tick_verdict,
  tick, is_some, is_empty,
}
use pi_task.Watchdog.Driver.Oldest.{AreBetween, lookup-between}

-- A tool in flight has reached its own limit.
abbrev pub SomeOverdue : ℕ → ℕ → List (String × InFlightTool) → Type 0
SomeOverdue now timeout in_flight =
    (id : String) × (tool : InFlightTool) × (lookup id in_flight ≡ some tool)
    × (tool.started_at_ms + timeout ≤ now)

-- No tool is in flight, and nothing was observed for the whole window.
abbrev pub IsStalled : WatchdogDriver → ℕ → Type 0
IsStalled d now = (d.in_flight ≡ []) × (d.last_activity_ms + d.limits.no_progress_timeout_ms ≤ now)

abbrev pub IsExpired : WatchdogDriver → ℕ → Type 0
IsExpired d now = d.started_at_ms + d.limits.wall_timeout_ms ≤ now

latch-is_some : (end : WatchdogEnd) (d : WatchdogDriver) → is_some (latch end d).terminal ≡ true
unfolding latch emit stop_timer
latch-is_some end d = ground arith

abbrev is_abort : WatchdogAction → Bool
is_abort (abort _) = true
is_abort _ = false

latch_abort-is_some :
    (a : WatchdogAction) (d : WatchdogDriver)
    → d.terminal ≡ none
    → is_some (latch_abort a d).terminal ≡ is_abort a
latch_abort-is_some (abort end) d e = latch-is_some end d
latch_abort-is_some WatchdogAction.continue d e = rw e
latch_abort-is_some (WatchdogAction.nudge _) d e = rw e

-- The verdict on the first tool in flight is the verdict on all of them.
overdue_of_verdict :
    (now timeout : ℕ) (ts : List (String × InFlightTool))
    → is_abort (tool_verdict now timeout ts) ≡ true
    → SomeOverdue now timeout ts
unfolding tool_verdict lookup decide_tool_timeout_action
overdue_of_verdict now timeout [] h = cc
overdue_of_verdict now timeout ((id, t) ∷ ts) h = (id, t, ground (arith, eq_refl id), ground arith)

verdict_of_overdue :
    (now timeout lo hi : ℕ) (ts : List (String × InFlightTool))
    → AreBetween lo hi ts
    → SomeOverdue now timeout ts
    → is_abort (tool_verdict now timeout ts) ≡ true
unfolding tool_verdict decide_tool_timeout_action
verdict_of_overdue now timeout lo hi [] b (id, tool, found, late) = unfold lookup in cc
verdict_of_overdue now timeout lo hi ((i, t) ∷ ts) b (id, tool, found, late) =
    let oldest : t.started_at_ms ≤ tool.started_at_ms =
      lookup-between t.started_at_ms hi id ((i, t) ∷ ts) (omega arith, b.1) found in
    ground arith

abbrev pub IsWatching : WatchdogDriver → Type 0
IsWatching d = (d.running ≡ true) × (d.terminal ≡ none)

tick-is_some :
    (d : WatchdogDriver) (now : ℕ)
    → IsWatching d
    → is_some (tick now d).terminal ≡ is_abort (tick_verdict now d)
unfolding tick
tick-is_some d now w = ground (arith, latch_abort-is_some (tick_verdict now d) d w.1)

-- The verdict as one condition.
tick_verdict_parts :
    (d : WatchdogDriver) (now : ℕ)
    → is_abort (tick_verdict now d) ≡ (
        leb (d.started_at_ms + d.limits.wall_timeout_ms) now
        || is_empty d.in_flight && leb (d.last_activity_ms + d.limits.no_progress_timeout_ms) now
        || is_abort (tool_verdict now d.limits.tool_timeout_ms d.in_flight))
unfolding tick_verdict decide_wall_action decide_no_progress_action
tick_verdict_parts d now = ground arith

empty_of_is_empty : (ts : List (String × InFlightTool)) → is_empty ts ≡ true → ts ≡ []
empty_of_is_empty [] h = refl
empty_of_is_empty (t ∷ ts) h = cc

pub tick_iff :
    (d : WatchdogDriver) (now : ℕ)
    → IsWatching d
    → AreBetween 0 d.last_activity_ms d.in_flight
    → (is_some (tick now d).terminal ≡ true)
      ↔ (IsExpired d now ⊎ IsStalled d now ⊎ SomeOverdue now d.limits.tool_timeout_ms d.in_flight)
tick_iff d now w b = (
  λ h. elim (Bool-cases (is_abort (tool_verdict now timeout d.in_flight))) [
    | inl late ↦ inr (inr (overdue_of_verdict now timeout d.in_flight late))
    | inr fine ↦
        ground (
          arith,
          tick-is_some d now w,
          tick_verdict_parts d now,
          fine,
          empty_of_is_empty d.in_flight,
        )
  ],
  elim [
    | inl expired ↦ ground (arith, tick-is_some d now w, tick_verdict_parts d now)
    | inr (inl stalled) ↦ ground (arith, tick-is_some d now w, tick_verdict_parts d now)
    | inr (inr late) ↦ ground (
      arith,
      tick-is_some d now w,
      tick_verdict_parts d now,
      verdict_of_overdue now timeout 0 d.last_activity_ms d.in_flight b late,
    )
  ],
)
  where
    timeout : ℕ
    timeout = d.limits.tool_timeout_ms
