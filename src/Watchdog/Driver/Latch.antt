-- ===== src/Watchdog/Driver/Latch.antt =====
-- What a driver of packages/core-v2/src/guards/watchdog-driver.ts has done to the outside after any
-- sequence of calls: aborts, nudges and the turn cap.
use pi_task.Common.{
  ℕ, suc, ◌+◌, ◌<◌, ◌≡◌, refl, ◌∙◌, Bool, true, false, ◌&&◌, none, some, List, [], ◌∷◌, ◌++◌, map,
  arith,
}
use pi_task.Watchdog.Decide.{
  WatchdogEnd, WatchdogAction, abort, WatchedEventType, decide_settle_action,
  decide_max_turns_action, settled_without_yield, settled_without_yield_message, budget_exceeded,
  budget_exceeded_message,
}
use pi_task.Watchdog.Driver.{
  WatchdogDriver, WatchdogDriverOptions, Effect, acted, interval_set, cleaned_up, SessionHostEvent,
  Input, make, emit, stop_timer, latch, on_cleanup, start, on_settle_action, dispatch, on_event,
  latch_abort, tick_verdict, tick, dispose, step, run, is_some,
}

-- How often the callback was told to abort, and to nudge.
abbrev pub aborts : List Effect → ℕ
aborts [] = 0
aborts (acted (abort _) ∷ log) = suc (aborts log)
aborts (_ ∷ log) = aborts log

abbrev pub nudges : List Effect → ℕ
nudges [] = 0
nudges (acted (WatchdogAction.nudge _) ∷ log) = suc (nudges log)
nudges (_ ∷ log) = nudges log

aborts-append : (l m : List Effect) → aborts (l ++ m) ≡ aborts l + aborts m
aborts-append [] m = omega arith
aborts-append (acted (abort _) ∷ l) m = omega (arith, aborts-append l m)
aborts-append (acted WatchdogAction.continue ∷ l) m = aborts-append l m
aborts-append (acted (WatchdogAction.nudge _) ∷ l) m = aborts-append l m
aborts-append (_ ∷ l) m = aborts-append l m

nudges-append : (l m : List Effect) → nudges (l ++ m) ≡ nudges l + nudges m
nudges-append [] m = omega arith
nudges-append (acted (abort _) ∷ l) m = nudges-append l m
nudges-append (acted WatchdogAction.continue ∷ l) m = nudges-append l m
nudges-append (acted (WatchdogAction.nudge _) ∷ l) m = omega (arith, nudges-append l m)
nudges-append (_ ∷ l) m = nudges-append l m

no_acts : (cs : List ℕ) → (aborts (map cleaned_up cs) ≡ 0) × (nudges (map cleaned_up cs) ≡ 0)
no_acts [] = (refl, refl)
no_acts (c ∷ cs) = no_acts cs

abbrev flag : Bool → ℕ
flag true = 1
flag false = 0

pub record IsOneShot (callback : Bool) (d : WatchdogDriver) : Type 0 where
  pub told : d.on_action ≡ callback
  pub aborted : aborts d.log ≡ flag (d.on_action && is_some d.terminal)
  pub reminded : nudges d.log ≡ flag (d.on_action && d.nudged)
  pub capped : d.terminal ≡ none → 0 < d.limits.max_turns → d.turns < d.limits.max_turns

-- What stopping the timer leaves alone.
stop_timer_keeps :
    (d : WatchdogDriver)
    → (aborts (stop_timer d).log ≡ aborts d.log)
      × (nudges (stop_timer d).log ≡ nudges d.log)
      × ((stop_timer d).terminal ≡ d.terminal)
      × ((stop_timer d).on_action ≡ d.on_action)
      × ((stop_timer d).nudged ≡ d.nudged)
      × ((stop_timer d).turns ≡ d.turns)
      × ((stop_timer d).limits ≡ d.limits)
unfolding stop_timer
stop_timer_keeps d = grind (arith, aborts-append, nudges-append)

latch-IsOneShot :
    {cb : Bool}
    → (end : WatchdogEnd) (d : WatchdogDriver) → d.on_action ≡ cb
    → aborts d.log ≡ flag (d.on_action && is_some d.terminal)
    → nudges d.log ≡ flag (d.on_action && d.nudged)
    → IsOneShot cb (latch end d)
unfolding latch emit
latch-IsOneShot end d c a n =
    let d' = record d { terminal = some end } in
    ground (
      arith,
      stop_timer_keeps d',
      aborts-append (stop_timer d').log (acted (abort end) ∷ []),
      nudges-append (stop_timer d').log (acted (abort end) ∷ []),
    )

latch_abort-IsOneShot :
    {cb : Bool}
    → (a : WatchdogAction) (d : WatchdogDriver) → IsOneShot cb d
    → IsOneShot cb (latch_abort a d)
latch_abort-IsOneShot (abort end) d v = latch-IsOneShot end d v.told v.aborted v.reminded
latch_abort-IsOneShot WatchdogAction.continue d v = v
latch_abort-IsOneShot (WatchdogAction.nudge _) d v = v

-- A settle nudges only a driver that has not nudged.
settle-IsOneShot :
    {cb : Bool}
    → (d : WatchdogDriver) → IsOneShot cb d
    → IsOneShot cb
        (on_settle_action (decide_settle_action WatchedEventType.settled d.has_yielded d.nudged) d)
unfolding on_settle_action decide_settle_action emit
settle-IsOneShot d v = ground (
  arith,
  latch-IsOneShot
      (record { reason = settled_without_yield; message = settled_without_yield_message }) d v.told
      v.aborted v.reminded,
  aborts-append d.log (acted (WatchdogAction.nudge d.nudge_text) ∷ []),
  nudges-append d.log (acted (WatchdogAction.nudge d.nudge_text) ∷ []),
)

-- A turn that is not the last one allowed leaves the count below the cap.
turn-IsOneShot :
    {cb : Bool}
    → (d : WatchdogDriver) → IsOneShot cb d
    → d.terminal ≡ none
    → IsOneShot cb (
        latch_abort
          (decide_max_turns_action (d.turns + 1) d.limits.max_turns)
          (record d { turns = d.turns + 1 }))
unfolding decide_max_turns_action
turn-IsOneShot d v e =
    let d' = record d { turns = d.turns + 1 } in
    ground (
      arith,
      latch-IsOneShot
          (record {
            reason = budget_exceeded;
            message = budget_exceeded_message d.limits.max_turns;
          })
          d' v.told v.aborted v.reminded,
    )

dispatch-IsOneShot :
    {cb : Bool}
    → (event : SessionHostEvent) (d : WatchdogDriver) → IsOneShot cb d
    → d.terminal ≡ none
    → IsOneShot cb (dispatch event d)
unfolding dispatch
dispatch-IsOneShot SessionHostEvent.turn_start d v e = turn-IsOneShot d v e
dispatch-IsOneShot SessionHostEvent.settled d v e = ground (arith, settle-IsOneShot d v)
dispatch-IsOneShot _ d v e = record {
  told = v.told;
  aborted = v.aborted;
  reminded = v.reminded;
  capped = v.capped;
}

step-IsOneShot :
    {cb : Bool} → (d : WatchdogDriver) (i : Input) → IsOneShot cb d → IsOneShot cb (step d i)
unfolding step on_event tick start on_cleanup dispose
step-IsOneShot d (Input.started now timer) v = ground (
  arith,
  v.capped,
  aborts-append d.log (interval_set d.limits.tick_interval_ms ∷ []),
  nudges-append d.log (interval_set d.limits.tick_interval_ms ∷ []),
)
step-IsOneShot d (Input.observed now event) v = ground (
  arith,
  dispatch-IsOneShot event (record d { last_event = some event; last_activity_ms = now })
      (record { told = v.told; aborted = v.aborted; reminded = v.reminded; capped = v.capped }),
)
step-IsOneShot d (Input.ticked now) v =
    ground (arith, latch_abort-IsOneShot (tick_verdict now d) d v)
step-IsOneShot d (Input.registered c) v = record {
  told = v.told;
  aborted = v.aborted;
  reminded = v.reminded;
  capped = v.capped;
}
step-IsOneShot d Input.disposed v =
    let d' = record d { running = false } in
    ground (
      arith,
      stop_timer_keeps d',
      v.capped,
      aborts-append (stop_timer d').log (map cleaned_up (stop_timer d').cleanups),
      nudges-append (stop_timer d').log (map cleaned_up (stop_timer d').cleanups),
      no_acts (stop_timer d').cleanups,
    )

run_from-IsOneShot :
    {cb : Bool} → (d : WatchdogDriver) (is : List Input) → IsOneShot cb d → IsOneShot cb (run d is)
unfolding run
run_from-IsOneShot d [] v = v
run_from-IsOneShot d (i ∷ is) v = run_from-IsOneShot (step d i) is (step-IsOneShot d i v)

-- However the driver is called after its construction, the callback is told to abort once if the
-- driver has latched and never otherwise, is told to nudge once if the driver has nudged and never
-- otherwise, and a driver that has not latched has counted fewer turns than a positive cap.
pub run-IsOneShot :
    (options : WatchdogDriverOptions) (inputs : List Input)
    → IsOneShot options.on_action (run (make options) inputs)
unfolding make
run-IsOneShot options inputs = run_from-IsOneShot (make options) inputs (ground arith)

record Same (d d' : WatchdogDriver) : Type 0 where
  terminal : d'.terminal ≡ d.terminal
  aborts_same : aborts d'.log ≡ aborts d.log
  nudges_same : nudges d'.log ≡ nudges d.log

step-Same :
    (d : WatchdogDriver) (i : Input) {end : WatchdogEnd} → d.terminal ≡ some end → Same d (step d i)
unfolding step on_event tick start on_cleanup dispose
step-Same d (Input.started now timer) e = ground (
  arith,
  aborts-append d.log (interval_set d.limits.tick_interval_ms ∷ []),
  nudges-append d.log (interval_set d.limits.tick_interval_ms ∷ []),
)
step-Same d (Input.observed now event) e = ground arith
step-Same d (Input.ticked now) e = ground arith
step-Same d (Input.registered c) e = ground arith
step-Same d Input.disposed e =
    let d' = record d { running = false } in
    ground (
      arith,
      stop_timer_keeps d',
      aborts-append (stop_timer d').log (map cleaned_up (stop_timer d').cleanups),
      nudges-append (stop_timer d').log (map cleaned_up (stop_timer d').cleanups),
      no_acts (stop_timer d').cleanups,
    )

-- Once a driver has latched, no further call changes what it latched on, and the callback is told
-- neither to abort nor to nudge again.
pub latched_for_good :
    (d : WatchdogDriver) (inputs : List Input) (end : WatchdogEnd)
    → d.terminal ≡ some end
    → ((run d inputs).terminal ≡ some end)
      × (aborts (run d inputs).log ≡ aborts d.log)
      × (nudges (run d inputs).log ≡ nudges d.log)
unfolding run
latched_for_good d [] end e = (e, refl, refl)
latched_for_good d (i ∷ is) end e =
    let s = step-Same d i e in
    let (t, a, n) = latched_for_good (step d i) is end (s.terminal ∙ e) in
    (t, a ∙ s.aborts_same, n ∙ s.nudges_same)
