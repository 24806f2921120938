-- ===== src/Workflow/Scheduler/Flights/Bounded.antt =====
-- How many nodes packages/core-v2/src/workflow/scheduler.ts has in flight at a time.
use mathlib.Core.Path.{subst}
use mathlib.Core.Option.{some-injective}
use pi_task.Common.{
  ℕ, zero, suc, ◌≤◌, String, ◌≡◌, refl, Bool, true, false, some, List, [], ◌∷◌, take,
  length-take-le, lookup,
}
use pi_task.Workflow.Dag.{DepMap, default_max_fan_out}
use pi_task.Workflow.Scheduler.{
  ScheduleOptions, Schedule, effective_max_parallel, loop, schedule_dag, start, dependencies_of,
  Turn, again, finished, ready_set, dispatch_ready, after_pass, turn,
}
use pi_task.Workflow.Scheduler.Progress.{verdict_of}
use pi_task.Workflow.Scheduler.Flights.Chunks.{
  AllWithin, IsNarrow, effective_max_parallel-le, has_run, in_flight, longest,
}
use pi_task.Workflow.Scheduler.Flights.Steps.{
  run_chunk-IsNarrow, skip_pass-IsNarrow, skip_rest-IsNarrow,
}

module _ (options : ScheduleOptions) (deps : DepMap) where
  width : ℕ
  width = effective_max_parallel options.max_parallel

  abbrev IsNarrowTurn : Turn → Type 0
  IsNarrowTurn (again s) = IsNarrow width s
  IsNarrowTurn (finished s) = IsNarrow width s

  dispatch_ready-IsNarrow :
      (s : Schedule) (ready : List String)
      → IsNarrow width s
      → IsNarrowTurn (dispatch_ready options deps s ready)
  unfolding dispatch_ready width
  dispatch_ready-IsNarrow s [] n = skip_rest-IsNarrow options.gateway width s.pending s n
  dispatch_ready-IsNarrow s (id ∷ ids) n =
      run_chunk-IsNarrow options.gateway width options.run_node (take width (id ∷ ids)) s
        (length-take-le width (id ∷ ids)) n

  after_pass-IsNarrow :
      (p : Schedule × Bool) → IsNarrow width p.0 → IsNarrowTurn (after_pass options deps p)
  unfolding after_pass
  after_pass-IsNarrow (s, true) n = n
  after_pass-IsNarrow (s, false) n = dispatch_ready-IsNarrow s (ready_set options.dag deps s) n

  turn-IsNarrow :
      (s : Schedule) (ids : List String) → IsNarrow width s → IsNarrowTurn (turn options deps s ids)
  unfolding turn
  turn-IsNarrow s [] n = n
  turn-IsNarrow s (id ∷ ids) n =
      after_pass-IsNarrow _ (skip_pass-IsNarrow options.gateway width deps (id ∷ ids) (s, false) n)

  loop-IsNarrow :
      (fuel : ℕ) (s s' : Schedule)
      → IsNarrow width s
      → loop options deps fuel s ≡ some s'
      → IsNarrow width s'
  unfolding loop
  loop-IsNarrow zero s s' n e = cc
  loop-IsNarrow (suc fuel) s s' n e =
      by_turn (turn options deps s s.pending) refl (turn-IsNarrow s s.pending n)
        (loop-IsNarrow fuel)
    where
      by_turn :
          (t : Turn)
          → turn options deps s s.pending ≡ t
          → IsNarrowTurn t
          → ((q q' : Schedule)
              → IsNarrow width q
              → loop options deps fuel q ≡ some q'
              → IsNarrow width q')
          → IsNarrow width s'
      by_turn (finished q) k m rest =
          subst (IsNarrow width) (some-injective q s' (rw (k, loop) at e)) m
      by_turn (again q) k m rest = rest q s' m (rw (k, loop) at e)

-- Whatever the plan and the runs, when the scheduler returns, no chunk that was in flight had more
-- nodes than the width, which is at most eight; the concurrency that is reported is that of the
-- largest chunk; and each node that has the verdict of its own run was in flight in a chunk.
pub concurrency_bounded :
    (options : ScheduleOptions) (fuel : ℕ) (s : Schedule)
    → schedule_dag options fuel ≡ some s
    → AllWithin (effective_max_parallel options.max_parallel) s.calls
      × (effective_max_parallel options.max_parallel ≤ default_max_fan_out)
      × (s.max_observed_concurrency ≡ longest s.calls)
      × ((x : String) → has_run (verdict_of s x) ≡ true → in_flight x s.calls ≡ true)
unfolding schedule_dag start width lookup
concurrency_bounded options fuel s e =
    let n =
      loop-IsNarrow options (dependencies_of options.dag options.dag.order) fuel (start options.dag)
        s (record { each = tt; most = refl; flown = λ x h. cc }) e in
    (n.each, effective_max_parallel-le options.max_parallel, n.most, n.flown)
