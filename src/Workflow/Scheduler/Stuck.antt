-- ===== src/Workflow/Scheduler/Stuck.antt =====
-- packages/core-v2/src/workflow/scheduler.ts with a `maxParallel` between zero and one: its floor is
-- zero, so a chunk holds no node and a round changes nothing.
use mathlib.Core.Path.{subst}
use pi_task.Common.{
  ℕ, zero, suc, ◌≤◌, ◌<◌, ◌/◌, String, ◌≡◌, refl, sym, ◌∙◌, Bool, true, false, none, some, List, [],
  ◌∷◌, arith, contains, eq_iff, IsDistinct,
}
use pi_task.Workflow.Dag.{DepMap, list_of}
use pi_task.Workflow.Scheduler.{
  ScheduleOptions, Schedule, effective_max_parallel, loop, schedule_dag, start, dependencies_of,
  finite, Turn, again, finished, skip_pass, ready_set, route_all, settle_all, run_chunk,
  dispatch_ready, after_pass, turn, skip_blocked, blocker,
}
use pi_task.Workflow.Dag.Kahn.{IsOrderedFrom}
use pi_task.Workflow.Scheduler.Chunk.{ready_of_AllDone}
use pi_task.Workflow.Scheduler.Settles.{needs, IsRunnable, start_pending}
use native.Mathlib.Nat.{div-lt_iff_lt-mul}

fraction-zero :
    (num den : ℕ) → 0 < num → num ≤ den → effective_max_parallel (some (finite false num den)) ≡ 0
unfolding effective_max_parallel
fraction-zero num den p q =
    let small : num / suc den < 1 =
      (div-lt_iff_lt-mul {k = suc den} {x = num} {y = 1} (omega arith)).1 (omega arith) in
    ground arith

blocker_clean :
    (s : Schedule) (ds : List String) → s.failed_ids ≡ [] → s.skipped_ids ≡ [] → blocker s ds ≡ none
unfolding blocker contains
blocker_clean s [] f k = refl
blocker_clean s (d ∷ ds) f k = rw (f, k) (blocker_clean s ds f k)

skip_pass_clean :
    (gateway : Bool) (deps : DepMap) (s : Schedule) (ids : List String)
    → s.failed_ids ≡ []
    → s.skipped_ids ≡ []
    → skip_pass gateway deps ids (s, false) ≡ (s, false)
unfolding skip_pass skip_blocked
skip_pass_clean gateway deps s [] f k = refl
skip_pass_clean gateway deps s (id ∷ ids) f k =
    rw (blocker_clean s (list_of id deps) f k, skip_blocked)
      (skip_pass_clean gateway deps s ids f k)

module _ (options : ScheduleOptions) (deps : DepMap) (x : String) (xs : List String)
    (free : (d : String) → contains d (list_of x deps) ≡ true → contains d [] ≡ true)
    (zero_wide : effective_max_parallel options.max_parallel ≡ 0) where
  record IsUntouched (s : Schedule) : Type 0 where
    waits : s.pending ≡ x ∷ xs
    distinct : IsDistinct s.pending
    none_failed : s.failed_ids ≡ []
    none_skipped : s.skipped_ids ≡ []

  abbrev IsStalled : Turn → Type 0
  IsStalled (again s) = IsUntouched s
  IsStalled (finished s) = ⊥

  run_chunk-IsUntouched :
      (s : Schedule) → IsUntouched s → IsUntouched (run_chunk options.gateway options.run_node [] s)
  unfolding run_chunk route_all settle_all
  run_chunk-IsUntouched s u = record {
    waits = u.waits;
    distinct = u.distinct;
    none_failed = u.none_failed;
    none_skipped = u.none_skipped;
  }

  dispatch_ready-IsStalled :
      (s : Schedule) (ready : List String)
      → IsUntouched s
      → contains x ready ≡ true
      → IsStalled (dispatch_ready options deps s ready)
  unfolding dispatch_ready contains
  dispatch_ready-IsStalled s [] u c = cc
  dispatch_ready-IsStalled s (id ∷ ids) u c = rw zero_wide (run_chunk-IsUntouched s u)

  ready_there : (s : Schedule) → IsUntouched s → contains x (ready_set options.dag deps s) ≡ true
  unfolding contains
  ready_there s u =
      ready_of_AllDone options.dag deps s u.distinct x (rw u.waits (ground (arith, eq_iff x x)))
        (λ d c. cc (free d c))

  turn-IsStalled : (s : Schedule) → IsUntouched s → IsStalled (turn options deps s s.pending)
  unfolding turn after_pass
  turn-IsStalled s u =
      subst (λ ids. IsStalled (turn options deps s ids)) (sym u.waits)
        (subst (λ p. IsStalled (after_pass options deps p))
          (sym (skip_pass_clean options.gateway deps s (x ∷ xs) u.none_failed u.none_skipped))
          (dispatch_ready-IsStalled s (ready_set options.dag deps s) u (ready_there s u)))

  loop_stalls : (fuel : ℕ) (s : Schedule) → IsUntouched s → loop options deps fuel s ≡ none
  unfolding loop
  loop_stalls zero s u = refl
  loop_stalls (suc fuel) s u =
      by_turn (turn options deps s s.pending) refl (turn-IsStalled s u) (loop_stalls fuel)
    where
      by_turn :
          (t : Turn)
          → turn options deps s s.pending ≡ t
          → IsStalled t
          → ((q : Schedule) → IsUntouched q → loop options deps fuel q ≡ none)
          → loop options deps (suc fuel) s ≡ none
      by_turn (again q) e v rest = rw (e, loop) (rest q v)
      by_turn (finished q) e v rest = absurd v

-- For a plan with at least one node, in an order that puts dependencies first, and a `maxParallel`
-- of num / (den + 1) that is more than zero and less than one, the loop has not ended after any
-- number of rounds.
pub fractional_width_never_ends :
    (options : ScheduleOptions) (num den fuel : ℕ) (x : String) (xs : List String)
    → IsRunnable options.dag
    → options.dag.order ≡ x ∷ xs
    → options.max_parallel ≡ some (finite false num den)
    → 0 < num
    → num ≤ den
    → schedule_dag options fuel ≡ none
unfolding schedule_dag start
fractional_width_never_ends options num den fuel x xs r e m p q =
    let first : IsOrderedFrom (needs options.dag) [] (x ∷ xs) =
      subst (IsOrderedFrom (needs options.dag) []) e r.sorted in
    loop_stalls options (dependencies_of options.dag options.dag.order) x xs first.0
      (rw m (fraction-zero num den p q)) fuel (start options.dag)
      (record {
        waits = start_pending options.dag r.distinct ∙ e;
        distinct = rw (start_pending options.dag r.distinct) r.distinct;
        none_failed = refl;
        none_skipped = refl;
      })
