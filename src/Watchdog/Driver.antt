-- ===== src/Watchdog/Driver.antt =====
-- The stateful driver of packages/core-v2/src/guards/watchdog-driver.ts. The clock is the argument
-- `now_ms` of each call, the timer handle and the cleanups are numbers that stand for the opaque
-- values of the source, and what the driver does to the outside is appended to `log`. A callback
-- does not call the driver back before it returns.
pub mod Latch
pub mod Oldest
pub mod Tick
pub mod Hangs
pub mod Attach
pub mod Examples
use mathlib.Core.Option.{get_or}
use pi_task.Common.{
  ℕ, ◌+◌, String, Bool, true, false, ◌&&◌, ◌||◌, not, Option, none, some, List, [], ◌∷◌, ◌++◌, map,
  ltb, leb, if◌then◌else◌, put, remove,
}
use pi_task.Watchdog.Decide.{
  WatchedEventType, WatchdogEnd, WatchdogAction, continue, abort, decide_settle_action,
  decide_no_progress_action, decide_wall_action, decide_tool_timeout_action,
  decide_max_turns_action, default_wall_timeout_ms, default_no_progress_timeout_ms,
  default_tool_timeout_ms, default_tick_interval_ms, default_settle_nudge_text,
}

-- `YieldSchema` of packages/core-v2/src/contracts/payloads.ts.
pub record Yield : Type 0 where
  pub files_changed : List String
  pub summary : String
  pub commit_ids : List String
  pub deviations : List String

pub data SessionHostErrorCode : Type 0 where
  bad_model missing_auth prompt_failed timed_out : SessionHostErrorCode

-- The event stream of packages/core-v2/src/sessions/host.ts.
pub data SessionHostEvent : Type 0 where
  turn_start : SessionHostEvent
  tool_start : (tool_name tool_call_id : String) (path : Option String) → SessionHostEvent
  tool_end : (tool_name tool_call_id : String) (is_error : Bool) → SessionHostEvent
  settled : SessionHostEvent
  yielded : (payload : Yield) → SessionHostEvent
  cancelled : SessionHostEvent
  rejected : (reason : String) → SessionHostEvent
  error : (message : String) (code : SessionHostErrorCode) → SessionHostEvent

abbrev pub event_type : SessionHostEvent → WatchedEventType
event_type turn_start = WatchedEventType.turn_start
event_type (tool_start _ _ _) = WatchedEventType.tool_start
event_type (tool_end _ _ _) = WatchedEventType.tool_end
event_type settled = WatchedEventType.settled
event_type (yielded _) = WatchedEventType.yielded
event_type cancelled = WatchedEventType.cancelled
event_type (rejected _) = WatchedEventType.rejected
event_type (error _ _) = WatchedEventType.error

pub record WatchdogLimits : Type 0 where
  pub wall_timeout_ms : ℕ
  pub no_progress_timeout_ms : ℕ
  pub tool_timeout_ms : ℕ
  pub tick_interval_ms : ℕ
  pub max_turns : ℕ

pub data SettledAction : Type 0 where
  nudge observe : SettledAction

-- `on_action` tells whether the callback is there; `none` is an option that is left out.
pub record WatchdogDriverOptions : Type 0 where
  pub wall_timeout_ms : Option ℕ
  pub no_progress_timeout_ms : Option ℕ
  pub tool_timeout_ms : Option ℕ
  pub tick_interval_ms : Option ℕ
  pub max_turns : Option ℕ
  pub on_action : Bool
  pub nudge_text : Option String
  pub settled_action : Option SettledAction

pub record InFlightTool : Type 0 where
  pub tool_name : String
  pub started_at_ms : ℕ

pub data Effect : Type 0 where
  acted : WatchdogAction → Effect
  interval_set : (interval_ms : ℕ) → Effect
  interval_cleared : (timer : ℕ) → Effect
  cleaned_up : (cleanup : ℕ) → Effect

pub record WatchdogDriver : Type 0 where
  pub limits : WatchdogLimits
  pub on_action : Bool
  pub nudge_text : String
  pub settled_action : SettledAction
  pub started_at_ms : ℕ
  pub last_activity_ms : ℕ
  pub running : Bool
  pub has_yielded : Bool
  pub nudged : Bool
  pub turns : ℕ
  pub in_flight : List (String × InFlightTool)
  pub terminal : Option WatchdogEnd
  pub last_event : Option SessionHostEvent
  pub timer_handle : Option ℕ
  pub cleanups : List ℕ
  pub log : List Effect

-- The constructor.
pub make : WatchdogDriverOptions → WatchdogDriver
make options = record {
  limits = record {
    wall_timeout_ms = get_or options.wall_timeout_ms default_wall_timeout_ms;
    no_progress_timeout_ms = get_or options.no_progress_timeout_ms default_no_progress_timeout_ms;
    tool_timeout_ms = get_or options.tool_timeout_ms default_tool_timeout_ms;
    tick_interval_ms = get_or options.tick_interval_ms default_tick_interval_ms;
    max_turns = get_or options.max_turns 0;
  };
  on_action = options.on_action;
  nudge_text = get_or options.nudge_text default_settle_nudge_text;
  settled_action = get_or options.settled_action SettledAction.nudge;
  started_at_ms = 0;
  last_activity_ms = 0;
  running = false;
  has_yielded = false;
  nudged = false;
  turns = 0;
  in_flight = [];
  terminal = none;
  last_event = none;
  timer_handle = none;
  cleanups = [];
  log = [];
}

abbrev pub is_some {ℓ} : {A : Type ℓ} → Option A → Bool
is_some none = false
is_some (some _) = true

abbrev pub is_empty {ℓ} : {A : Type ℓ} → List A → Bool
is_empty [] = true
is_empty (_ ∷ _) = false

abbrev write : Effect → WatchdogDriver → WatchdogDriver
write e d = record d { log = d.log ++ e ∷ [] }

pub emit : WatchdogAction → WatchdogDriver → WatchdogDriver
emit action d = if d.on_action then write (acted action) d else d

pub stop_timer : WatchdogDriver → WatchdogDriver
stop_timer d = elim d.timer_handle [
  | some timer ↦ write (interval_cleared timer) (record d { timer_handle = none })
  | none ↦ d
]

pub latch : WatchdogEnd → WatchdogDriver → WatchdogDriver
latch end d =
    if is_some d.terminal
    then d
    else emit (abort end) (stop_timer (record d { terminal = some end }))

-- `on_cleanup`
pub on_cleanup : ℕ → WatchdogDriver → WatchdogDriver
on_cleanup cleanup d = record d { cleanups = d.cleanups ++ cleanup ∷ [] }

-- `timer` is the handle that `setInterval` gives.
pub start : (now_ms timer : ℕ) → WatchdogDriver → WatchdogDriver
start now_ms timer d =
    if d.running
    then d
    else write (interval_set d.limits.tick_interval_ms) (record d {
      running = true;
      started_at_ms = now_ms;
      last_activity_ms = now_ms;
      timer_handle = some timer;
    })

-- A decision that is an abort latches the driver.
abbrev pub latch_abort : WatchdogAction → WatchdogDriver → WatchdogDriver
latch_abort (abort end) d = latch end d
latch_abort _ d = d

-- The arm of a settle that is not only observed.
on_settle_action : WatchdogAction → WatchdogDriver → WatchdogDriver
on_settle_action (WatchdogAction.nudge _) d =
    let d' = record d { nudged = true } in emit (WatchdogAction.nudge d.nudge_text) d'
on_settle_action (abort end) d = latch end d
on_settle_action continue d = d

-- The switch over the event, after the event and its time are noted.
dispatch : SessionHostEvent → WatchdogDriver → WatchdogDriver
dispatch (tool_start tool_name tool_call_id _) d =
    let tool : InFlightTool = record {
      tool_name = tool_name;
      started_at_ms = d.last_activity_ms;
    } in
    record d { in_flight = put tool_call_id tool d.in_flight }
dispatch (tool_end _ tool_call_id _) d = record d { in_flight = remove tool_call_id d.in_flight }
dispatch (yielded _) d = record d { has_yielded = true }
dispatch turn_start d =
    let d' = record d { turns = d.turns + 1 } in
    latch_abort (decide_max_turns_action d'.turns d'.limits.max_turns) d'
dispatch settled d = elim d.settled_action [
  | SettledAction.observe ↦ d
  | SettledAction.nudge ↦
      on_settle_action (decide_settle_action WatchedEventType.settled d.has_yielded d.nudged) d
]
dispatch _ d = d

pub on_event : (now_ms : ℕ) → SessionHostEvent → WatchdogDriver → WatchdogDriver
on_event now_ms event d =
    if is_some d.terminal || not d.running
    then d
    else dispatch event (record d { last_event = some event; last_activity_ms = now_ms })

-- The per-tool test of `tick`, on the first tool in flight.
tool_verdict : (now_ms tool_timeout_ms : ℕ) → List (String × InFlightTool) → WatchdogAction
tool_verdict now_ms tool_timeout_ms [] = continue
tool_verdict now_ms tool_timeout_ms ((id, oldest) ∷ _) =
    decide_tool_timeout_action now_ms oldest.started_at_ms tool_timeout_ms oldest.tool_name

abbrev first_abort : WatchdogAction → WatchdogAction → WatchdogAction
first_abort (abort end) _ = abort end
first_abort _ other = other

-- The three tests of `tick`, in their order: the first that aborts returns.
tick_verdict : ℕ → WatchdogDriver → WatchdogAction
tick_verdict now_ms d =
    first_abort (decide_wall_action now_ms d.started_at_ms d.limits.wall_timeout_ms) (
      first_abort
        (decide_no_progress_action now_ms d.last_activity_ms d.limits.no_progress_timeout_ms
          (not (is_empty d.in_flight)))
        (tool_verdict now_ms d.limits.tool_timeout_ms d.in_flight))

pub tick : (now_ms : ℕ) → WatchdogDriver → WatchdogDriver
tick now_ms d =
    if is_some d.terminal || not d.running then d else latch_abort (tick_verdict now_ms d) d

pub dispose : WatchdogDriver → WatchdogDriver
dispose d =
    if not d.running && not (is_some d.timer_handle) && is_empty d.cleanups
    then d
    else (let d' = stop_timer (record d { running = false }) in
        record d' { cleanups = []; log = d'.log ++ map cleaned_up d'.cleanups })

-- What a caller and the timer do with a driver.
pub data Input : Type 0 where
  started : (now_ms timer : ℕ) → Input
  observed : (now_ms : ℕ) → SessionHostEvent → Input
  ticked : (now_ms : ℕ) → Input
  registered : (cleanup : ℕ) → Input
  disposed : Input

pub step : WatchdogDriver → Input → WatchdogDriver
step d (started now_ms timer) = start now_ms timer d
step d (observed now_ms event) = on_event now_ms event d
step d (ticked now_ms) = tick now_ms d
step d (registered cleanup) = on_cleanup cleanup d
step d disposed = dispose d

pub run : WatchdogDriver → List Input → WatchdogDriver
run d [] = d
run d (i ∷ is) = run (step d i) is
