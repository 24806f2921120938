-- ===== src/Workflow/Scheduler/Flights/Chunks.antt =====
-- The chunks of nodes that packages/core-v2/src/workflow/scheduler.ts runs together.
use pi_task.Common.{
  ℕ, ◌≤◌, String, ◌≡◌, Bool, true, ◌||◌, Option, none, some, List, [], ◌∷◌, ◌++◌, arith, max,
  length, contains, any,
}
use pi_task.Workflow.Dag.{default_max_fan_out}
use pi_task.Workflow.Scheduler.{
  NodeVerdict, Schedule, effective_max_parallel, Number, not_finite, finite,
}
use pi_task.Workflow.Scheduler.Progress.{verdict_of, is_completed, is_failed}

pub effective_max_parallel-le : (n : Option Number) → effective_max_parallel n ≤ default_max_fan_out
unfolding effective_max_parallel
effective_max_parallel-le none = omega arith
effective_max_parallel-le (some not_finite) = omega arith
effective_max_parallel-le (some (finite negative num den)) = ground arith

-- The most nodes that were in flight at a time.
abbrev pub longest : List (List String) → ℕ
longest [] = 0
longest (c ∷ cs) = max (length c) (longest cs)

abbrev pub AllWithin : ℕ → List (List String) → Type 0
AllWithin width [] = Unit
AllWithin width (c ∷ cs) = (length c ≤ width) × AllWithin width cs

-- The node's verdict is that of its own run.
abbrev pub has_run : Option NodeVerdict → Bool
has_run v = is_completed v || is_failed v

-- The node was in flight in one of the chunks.
abbrev pub in_flight : String → List (List String) → Bool
in_flight x = any (contains x)

pub longest-snoc :
    (cs : List (List String)) (c : List String)
    → longest (cs ++ c ∷ []) ≡ max (longest cs) (length c)
longest-snoc [] c = ground arith
longest-snoc (d ∷ ds) c = ground (arith, longest-snoc ds c)

pub AllWithin-snoc :
    (width : ℕ) (cs : List (List String)) (c : List String)
    → AllWithin width cs
    → length c ≤ width
    → AllWithin width (cs ++ c ∷ [])
AllWithin-snoc width [] c h l = (l, tt)
AllWithin-snoc width (d ∷ ds) c h l = (h.0, AllWithin-snoc width ds c h.1 l)

pub in_flight-snoc :
    (x : String) (cs : List (List String)) (c : List String)
    → in_flight x (cs ++ c ∷ []) ≡ (in_flight x cs || contains x c)
in_flight-snoc x [] c = ground arith
in_flight-snoc x (d ∷ ds) c = ground (arith, in_flight-snoc x ds c)

-- No chunk is wider than it may be, the widest is what is observed, and what has run was in one.
pub record IsNarrow (width : ℕ) (s : Schedule) : Type 0 where
  pub each : AllWithin width s.calls
  pub most : s.max_observed_concurrency ≡ longest s.calls
  pub flown : (x : String) → has_run (verdict_of s x) ≡ true → in_flight x s.calls ≡ true
