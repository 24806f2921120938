-- ===== src/Watchdog/Driver/Hangs.antt =====
-- The order of the tools in flight over all calls of a driver of
-- packages/core-v2/src/guards/watchdog-driver.ts, and what a tick catches. The driver looks at the
-- first tool in flight only; it is the oldest one, if the clock does not run backwards and a tool
-- call has an identifier of its own.
use pi_task.Common.{
  ℕ, ◌+◌, ◌≤◌, String, ◌≡◌, refl, ◌↔◌, ◌⊎◌, inl, inr, true, false, not, ◌||◌, some, List, [], ◌∷◌,
  arith, contains, keys, put_new, Bool-cases,
}
use pi_task.Watchdog.Decide.{
  WatchdogEnd, WatchedEventType, decide_max_turns_action, decide_settle_action, WatchdogAction,
  abort,
}
use pi_task.Watchdog.Driver.{
  WatchdogDriver, WatchdogDriverOptions, InFlightTool, SessionHostEvent, Input, make, emit,
  stop_timer, latch, latch_abort, on_cleanup, start, on_settle_action, dispatch, on_event,
  tick_verdict, tick, dispose, step, run, is_some, SettledAction,
}
use pi_task.Watchdog.Driver.Oldest.{
  AreBetween, AreBetween-later, AreBetween-snoc, AreBetween-remove,
}
use pi_task.Watchdog.Driver.Tick.{SomeOverdue, IsStalled, IsExpired, IsWatching, tick_iff}

-- The clock does not run backwards, and a tool that starts has the identifier of no tool in flight.
abbrev IsFreshIn : List (String × InFlightTool) → SessionHostEvent → Type 0
IsFreshIn tools (SessionHostEvent.tool_start _ id _) = contains id (keys tools) ≡ false
IsFreshIn tools _ = Unit

abbrev IsFairInput : WatchdogDriver → Input → Type 0
IsFairInput d (Input.started now timer) = d.last_activity_ms ≤ now
IsFairInput d (Input.observed now event) = (d.last_activity_ms ≤ now) × IsFreshIn d.in_flight event
IsFairInput d _ = Unit

abbrev pub IsFair : WatchdogDriver → List Input → Type 0
IsFair d [] = Unit
IsFair d (i ∷ is) = IsFairInput d i × IsFair (step d i) is

abbrev IsOrderly : WatchdogDriver → Type 0
IsOrderly d = AreBetween 0 d.last_activity_ms d.in_flight

-- The steps that leave the tools and the time of the last activity alone.
record Untouched (d d' : WatchdogDriver) : Type 0 where
  tools : d'.in_flight ≡ d.in_flight
  activity : d'.last_activity_ms ≡ d.last_activity_ms

latch-Untouched : (end : WatchdogEnd) (d : WatchdogDriver) → Untouched d (latch end d)
unfolding latch emit stop_timer
latch-Untouched end d = ground arith

latch_abort-Untouched : (a : WatchdogAction) (d : WatchdogDriver) → Untouched d (latch_abort a d)
latch_abort-Untouched (abort end) d = latch-Untouched end d
latch_abort-Untouched WatchdogAction.continue d = record { tools = refl; activity = refl }
latch_abort-Untouched (WatchdogAction.nudge _) d = record { tools = refl; activity = refl }

on_settle_action-Untouched :
    (a : WatchdogAction) (d : WatchdogDriver) → Untouched d (on_settle_action a d)
unfolding on_settle_action emit
on_settle_action-Untouched (abort end) d = latch-Untouched end d
on_settle_action-Untouched WatchdogAction.continue d = record { tools = refl; activity = refl }
on_settle_action-Untouched (WatchdogAction.nudge _) d = ground arith

IsOrderly-of_Untouched : (d d' : WatchdogDriver) → Untouched d d' → IsOrderly d → IsOrderly d'
IsOrderly-of_Untouched d d' u o = rw (u.tools, u.activity) o

dispatch-IsOrderly :
    (event : SessionHostEvent) (d : WatchdogDriver)
    → IsFreshIn d.in_flight event
    → IsOrderly d
    → IsOrderly (dispatch event d)
unfolding dispatch
dispatch-IsOrderly (SessionHostEvent.tool_start name id path) d fresh o =
    rw (put_new id _ d.in_flight fresh) (AreBetween-snoc 0 d.last_activity_ms d.in_flight id name o)
dispatch-IsOrderly (SessionHostEvent.tool_end name id e) d fresh o =
    AreBetween-remove 0 d.last_activity_ms id d.in_flight o
dispatch-IsOrderly SessionHostEvent.turn_start d fresh o =
    let d' = record d { turns = d.turns + 1 } in
    IsOrderly-of_Untouched d' _
      (latch_abort-Untouched (decide_max_turns_action d'.turns d'.limits.max_turns) d') o
dispatch-IsOrderly SessionHostEvent.settled d fresh o =
    elim d.settled_action
      as (λ a. IsOrderly (elim a [
        | SettledAction.observe ↦ d
        | SettledAction.nudge ↦
            on_settle_action (decide_settle_action WatchedEventType.settled d.has_yielded d.nudged)
              d
      ])) [
        | SettledAction.observe ↦ o
        | SettledAction.nudge ↦
            IsOrderly-of_Untouched d _
              (on_settle_action-Untouched
                (decide_settle_action WatchedEventType.settled d.has_yielded d.nudged) d)
              o
      ]
dispatch-IsOrderly _ d fresh o = o

dispose-Untouched : (d : WatchdogDriver) → Untouched d (dispose d)
unfolding dispose stop_timer
dispose-Untouched d = ground arith

step-IsOrderly :
    (d : WatchdogDriver) (i : Input) → IsFairInput d i → IsOrderly d → IsOrderly (step d i)
unfolding step on_event tick start on_cleanup
step-IsOrderly d (Input.started now timer) fair o = elim (Bool-cases d.running) [
  | inl r ↦ rw r o
  | inr r ↦ rw r (AreBetween-later 0 d.last_activity_ms now d.in_flight fair o)
]
step-IsOrderly d (Input.observed now event) fair o =
    elim (Bool-cases (is_some d.terminal || not d.running)) [
      | inl r ↦ rw r o
      | inr r ↦ rw r (
          dispatch-IsOrderly event (record d { last_event = some event; last_activity_ms = now })
            fair.1 (AreBetween-later 0 d.last_activity_ms now d.in_flight fair.0 o))
    ]
step-IsOrderly d (Input.ticked now) fair o =
    elim (Bool-cases (is_some d.terminal || not d.running)) [
      | inl r ↦ rw r o
      | inr r ↦ rw r (IsOrderly-of_Untouched d _ (latch_abort-Untouched (tick_verdict now d) d) o)
    ]
step-IsOrderly d (Input.registered c) fair o = o
step-IsOrderly d Input.disposed fair o = IsOrderly-of_Untouched d _ (dispose-Untouched d) o

run-IsOrderly :
    (d : WatchdogDriver) (is : List Input) → IsFair d is → IsOrderly d → IsOrderly (run d is)
unfolding run
run-IsOrderly d [] fair o = o
run-IsOrderly d (i ∷ is) fair o = run-IsOrderly (step d i) is fair.1 (step-IsOrderly d i fair.0 o)

-- After any calls with a clock that does not run backwards and with tool identifiers that are free
-- when a tool starts, a tick of a running driver that has not latched latches it exactly if the
-- wall time has passed, or no tool is in flight and nothing was observed for the whole window, or
-- any of the tools in flight, not the first alone, has reached its own limit.
pub tick_catches :
    (options : WatchdogDriverOptions) (inputs : List Input) (now : ℕ) (d : WatchdogDriver)
    → IsFair (make options) inputs
    → d ≡ run (make options) inputs
    → IsWatching d
    → (is_some (tick now d).terminal ≡ true)
      ↔ (IsExpired d now ⊎ IsStalled d now ⊎ SomeOverdue now d.limits.tool_timeout_ms d.in_flight)
unfolding make
tick_catches options inputs now d fair e w =
    tick_iff d now w (rw e (run-IsOrderly (make options) inputs fair (omega arith)))
