-- ===== src/Workflow/Scheduler/Calls/Once.antt =====
-- That packages/core-v2/src/workflow/scheduler.ts calls a node at most once.
use pi_task.Common.{
  ℕ, zero, suc, String, ◌≡◌, refl, Bool, true, false, some, inl, inr, List, [], ◌∷◌, ◌++◌, arith,
  Bool-cases, take, contains, eq_iff, lookup, add, IsDistinct, occurs, occurs-append,
  occurs_of_distinct, IsDistinct-of_occurs,
}
use mathlib.Core.Path.{subst}
use mathlib.Core.Option.{some-injective}
use pi_task.Workflow.Dag.{DepMap}
use pi_task.Workflow.Scheduler.{
  ScheduleOptions, Schedule, effective_max_parallel, loop, schedule_dag, start, as_set,
  dependencies_of, Turn, again, finished, ready_set, dispatch_ready, after_pass, turn,
}
use pi_task.Workflow.Scheduler.Progress.{verdict_of}
use pi_task.Workflow.Scheduler.Verdicts.{AreOpen}
use pi_task.Workflow.Scheduler.Chunk.{
  ready-IsDistinct, ready-AreOpen, take-IsDistinct, contains-take,
}
use pi_task.Workflow.Scheduler.Calls.Counts.{AreCalled, once_if_run, times}
use pi_task.Workflow.Scheduler.Calls.Rounds.{
  run_chunk-AreCalled, skip_pass-AreCalled, skip_rest-AreCalled,
}

module _ (options : ScheduleOptions) (deps : DepMap) where
  abbrev IsCalledTurn : Turn → Type 0
  IsCalledTurn (again s) = AreCalled [] s
  IsCalledTurn (finished s) = AreCalled [] s

  dispatch_ready-AreCalled :
      (s : Schedule) (ready : List String)
      → IsDistinct ready
      → AreOpen ready s
      → AreCalled [] s
      → IsCalledTurn (dispatch_ready options deps s ready)
  unfolding dispatch_ready
  dispatch_ready-AreCalled s [] d o c =
      skip_rest-AreCalled [] deps options.run_node options.gateway s.pending s c.distinct (λ x k. k)
        c
  dispatch_ready-AreCalled s (id ∷ ids) d o c =
      let width = effective_max_parallel options.max_parallel in
      run_chunk-AreCalled [] deps options.run_node options.gateway (take width (id ∷ ids)) s
        (take-IsDistinct width (id ∷ ids) d) (λ x k. o x (contains-take width (id ∷ ids) x k)) c

  after_pass-AreCalled :
      (p : Schedule × Bool) → AreCalled [] p.0 → IsCalledTurn (after_pass options deps p)
  unfolding after_pass
  after_pass-AreCalled (s, true) c = c
  after_pass-AreCalled (s, false) c =
      dispatch_ready-AreCalled s (ready_set options.dag deps s)
        (ready-IsDistinct options.dag deps s c.distinct)
        (ready-AreOpen options.dag deps s c.distinct) c

  turn-AreCalled :
      (s : Schedule) (ids : List String)
      → IsDistinct ids
      → AreOpen ids s
      → AreCalled [] s
      → IsCalledTurn (turn options deps s ids)
  unfolding turn
  turn-AreCalled s [] d o c = c
  turn-AreCalled s (id ∷ ids) d o c =
      after_pass-AreCalled _
        (skip_pass-AreCalled [] deps options.run_node options.gateway (id ∷ ids) s false d o c)

  loop-AreCalled :
      (fuel : ℕ) (s s' : Schedule)
      → AreCalled [] s
      → loop options deps fuel s ≡ some s'
      → AreCalled [] s'
  unfolding loop
  loop-AreCalled zero s s' c e = cc
  loop-AreCalled (suc fuel) s s' c e =
      by_turn (turn options deps s s.pending) refl
        (turn-AreCalled s s.pending c.distinct (λ x k. k) c) (loop-AreCalled fuel)
    where
      by_turn :
          (t : Turn)
          → turn options deps s s.pending ≡ t
          → IsCalledTurn t
          → ((q q' : Schedule)
              → AreCalled [] q
              → loop options deps fuel q ≡ some q'
              → AreCalled [] q')
          → AreCalled [] s'
      by_turn (finished q) k m rest =
          subst (AreCalled []) (some-injective q s' (rw (k, loop) at e)) m
      by_turn (again q) k m rest = rest q s' m (rw (k, loop) at e)

as_set-IsDistinct : (acc xs : List String) → IsDistinct acc → IsDistinct (as_set acc xs)
unfolding as_set add occurs
as_set-IsDistinct acc [] d = d
as_set-IsDistinct acc (x ∷ xs) d = elim (Bool-cases (contains x acc)) [
  | inl e ↦ rw (e, as_set) (as_set-IsDistinct acc xs d)
  | inr e ↦
      rw (e, as_set)
        (as_set-IsDistinct (acc ++ x ∷ []) xs (
          IsDistinct-of_occurs (acc ++ x ∷ []) (λ k.
            ground (arith, occurs-append k acc (x ∷ []), occurs_of_distinct k acc d, eq_iff x k))))
]

-- Whatever the plan and the runs, when the scheduler returns, a node is in the chunks that were
-- called exactly once if it has the verdict of its own run, and never if it was skipped or has no
-- verdict.
pub called_once :
    (options : ScheduleOptions) (fuel : ℕ) (s : Schedule) (x : String)
    → schedule_dag options fuel ≡ some s
    → times x s.calls ≡ once_if_run (verdict_of s x)
unfolding schedule_dag start lookup occurs
called_once options fuel s x e =
    let c =
      loop-AreCalled options (dependencies_of options.dag options.dag.order) fuel
        (start options.dag) s
        (record {
          distinct = as_set-IsDistinct [] options.dag.order tt;
          waiting = λ y k. refl;
          runs = λ y. omega arith;
        })
        e in
    omega (arith, c.runs x)
