-- ===== src/Watchdog/Driver/Attach.antt =====
-- `attachWatchdogs` of packages/core-v2/src/guards/watchdog-driver.ts: the driver bound to a session
-- handle. `replayed` are the events that `subscribe` emits before it returns, at the times given.
use pi_task.Common.{
  ℕ, suc, ◌++◌, String, ◌≡◌, refl, ap, true, if◌then◌else◌, List, [], ◌∷◌, map, arith,
}
use pi_task.Watchdog.Decide.{WatchdogAction, abort}
use pi_task.Watchdog.Driver.{
  WatchdogDriver, WatchdogDriverOptions, SessionHostEvent, Effect, acted, Input, make, start,
  on_cleanup, step, run, is_some,
}
use pi_task.Watchdog.Driver.Latch.{aborts, nudges, IsOneShot, run-IsOneShot}

-- What the driver's callback asks of the session handle.
pub data SessionCommand : Type 0 where
  prompt : (text : String) → SessionCommand
  abort_session : SessionCommand

-- The wrapped callback, on each action in turn.
unfoldable pub commands : List Effect → List SessionCommand
commands [] = []
commands (acted (WatchdogAction.nudge text) ∷ log) = prompt text ∷ commands log
commands (acted (abort _) ∷ log) = abort_session ∷ commands log
commands (_ ∷ log) = commands log

observe_all : WatchdogDriver → List (ℕ × SessionHostEvent) → WatchdogDriver
observe_all d replayed = run d (map (λ (t, e). Input.observed t e) replayed)

unfoldable pub attach_watchdogs :
    WatchdogDriverOptions
    → (now_ms timer unsubscribe : ℕ) → List (ℕ × SessionHostEvent)
    → WatchdogDriver
unfolding observe_all
attach_watchdogs options now_ms timer unsubscribe replayed =
    let driver = make (record options { on_action = true }) in
    on_cleanup unsubscribe (observe_all (start now_ms timer driver) replayed)

abbrev pub prompts : List SessionCommand → ℕ
prompts [] = 0
prompts (prompt _ ∷ cs) = suc (prompts cs)
prompts (_ ∷ cs) = prompts cs

abbrev pub session_aborts : List SessionCommand → ℕ
session_aborts [] = 0
session_aborts (abort_session ∷ cs) = suc (session_aborts cs)
session_aborts (_ ∷ cs) = session_aborts cs

commands_count :
    (log : List Effect)
    → (prompts (commands log) ≡ nudges log) × (session_aborts (commands log) ≡ aborts log)
unfolding commands
commands_count [] = (refl, refl)
commands_count (acted (WatchdogAction.nudge text) ∷ log) =
    let (p, a) = commands_count log in (ap suc p, a)
commands_count (acted (abort _) ∷ log) = let (p, a) = commands_count log in (p, ap suc a)
commands_count (acted WatchdogAction.continue ∷ log) = commands_count log
commands_count (_ ∷ log) = commands_count log

run-append : (d : WatchdogDriver) (is js : List Input) → run d (is ++ js) ≡ run (run d is) js
unfolding run
run-append d [] js = refl
run-append d (i ∷ is) js = run-append (step d i) is js

abbrev all_inputs :
    (now timer unsubscribe : ℕ) → List (ℕ × SessionHostEvent) → List Input → List Input
all_inputs now timer unsubscribe replayed inputs =
    Input.started now timer
    ∷ (map (λ (t, e). Input.observed t e) replayed ++ (Input.registered unsubscribe ∷ inputs))

attach-run :
    (options : WatchdogDriverOptions) (now timer unsubscribe : ℕ)
    (replayed : List (ℕ × SessionHostEvent)) (inputs : List Input)
    → run
        (make (record options { on_action = true }))
        (all_inputs now timer unsubscribe replayed inputs)
      ≡ run (attach_watchdogs options now timer unsubscribe replayed) inputs
unfolding attach_watchdogs step
attach-run options now timer unsubscribe replayed inputs =
    let d = start now timer (make (record options { on_action = true })) in
    unfold run in
    run-append d (map (λ (t, e). Input.observed t e) replayed)
      (Input.registered unsubscribe ∷ inputs)

one_shot_counts :
    (d : WatchdogDriver)
    → IsOneShot true d
    → (session_aborts (commands d.log) ≡ (if is_some d.terminal then 1 else 0))
      × (prompts (commands d.log) ≡ (if d.nudged then 1 else 0))
one_shot_counts d v = ground (arith, commands_count d.log)

-- Whatever the session emits while it is attached and whatever calls follow, the session is told to
-- abort exactly if the driver has latched, and then once, and it is prompted
-- exactly if the driver has nudged, and then once.
pub attach_one_shot :
    (options : WatchdogDriverOptions) (now timer unsubscribe : ℕ)
    (replayed : List (ℕ × SessionHostEvent)) (inputs : List Input) (d : WatchdogDriver)
    → d ≡ run (attach_watchdogs options now timer unsubscribe replayed) inputs
    → (session_aborts (commands d.log) ≡ (if is_some d.terminal then 1 else 0))
      × (prompts (commands d.log) ≡ (if d.nudged then 1 else 0))
attach_one_shot options now timer unsubscribe replayed inputs d e = one_shot_counts d (
    rw (e, ← attach-run options now timer unsubscribe replayed inputs)
      (run-IsOneShot (record options { on_action = true })
        (all_inputs now timer unsubscribe replayed inputs)))
