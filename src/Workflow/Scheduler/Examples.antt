-- ===== src/Workflow/Scheduler/Examples.antt =====
-- Runs of packages/core-v2/src/workflow/scheduler.ts at a plan of three nodes.
use pi_task.Common.{
  ℕ, ◌≤◌, String, ◌≡◌, refl, true, false, Option, none, some, List, [], ◌∷◌, arith, contains,
  lookup, put, add, delete, if◌then◌else◌, str_eq,
}
use pi_task.Workflow.Dag.{default_max_fan_out}
use pi_task.Workflow.Dag.Edges.{ids}
use pi_task.Workflow.Dag.Examples.{three, three_dag, three_synthesized}
use pi_task.Workflow.Scheduler.{
  Number, finite, NodeOutcome, returned_completed, threw, ScheduleOptions, Schedule,
  effective_max_parallel, schedule_dag, as_set, start, dependencies_of, emit, emit_routed,
  emit_terminal, skip, blocker, skip_blocked, skip_pass, order_index, insert_by, sort_by, ready_set,
  skip_rest, route_all, complete, fail, settle, settle_all, run_chunk, dispatch_ready, after_pass,
  turn, loop,
}
use pi_task.Workflow.Scheduler.Progress.{verdict_of}
use pi_task.Workflow.Scheduler.Settles.{IsSettled, IsRunnable}
use pi_task.Workflow.Scheduler.Plans.{synthesized_settles, synthesized-IsRunnable}
use pi_task.Workflow.Scheduler.Width.{same_verdicts}
use pi_task.Workflow.Scheduler.Flights.Chunks.{AllWithin, longest, has_run, in_flight}
use pi_task.Workflow.Scheduler.Flights.Bounded.{concurrency_bounded}
use pi_task.Workflow.Scheduler.Calls.Once.{called_once}
use pi_task.Workflow.Scheduler.Calls.Counts.{times, once_if_run}
use pi_task.Workflow.Scheduler.Stuck.{fractional_width_never_ends}

abbrev outcomes : String → NodeOutcome
outcomes id = if str_eq id "b" then threw "no" else returned_completed none

abbrev options : Option Number → ScheduleOptions
options width = record {
  dag = three_dag;
  run_node = outcomes;
  max_parallel = width;
  gateway = true;
}

-- All the code of the scheduler, for tests by evaluation.
abbrev code : Unit {0}
unfolding effective_max_parallel schedule_dag as_set start dependencies_of emit emit_routed
    emit_terminal skip blocker skip_blocked skip_pass order_index insert_by sort_by ready_set
    skip_rest route_all complete fail settle settle_all run_chunk dispatch_ready after_pass turn
    loop contains lookup put add delete
code = tt

-- The first node completes, the second throws, and the third is skipped.
abbrev summary : Option Schedule → List String × List String × List String × List (List String) × ℕ
summary none = ([], [], [], [], 0)
summary (some s) =
    (s.completed_ids, s.failed_ids, s.skipped_ids, s.calls, s.max_observed_concurrency)

three_run :
    summary (schedule_dag (options none) 9)
    ≡ ("a" ∷ [], "b" ∷ [], "c" ∷ [], ("a" ∷ []) ∷ ("b" ∷ []) ∷ [], 1)
unfolding code
three_run = refl

synthesized_settles_example :
    (s : Schedule) × (schedule_dag (options none) 4 ≡ some s)
    × ((x : String) → contains x (ids three) ≡ true → IsSettled three_dag outcomes (verdict_of s) x)
unfolding effective_max_parallel
synthesized_settles_example =
    synthesized_settles three none (options none) 4 three_synthesized (omega arith) (omega arith)

three-IsRunnable : IsRunnable three_dag
three-IsRunnable = synthesized-IsRunnable three none three_dag three_synthesized

same_verdicts_example :
    (s t : Schedule) × (schedule_dag (options none) 4 ≡ some s)
    × (schedule_dag
          (record {
            dag = three_dag;
            run_node = outcomes;
            max_parallel = some (finite false 5 1);
            gateway = false;
          })
          4
        ≡ some t)
    × ((x : String) → verdict_of s x ≡ verdict_of t x)
unfolding effective_max_parallel
same_verdicts_example =
    same_verdicts (options none) (some (finite false 5 1)) false 4 three-IsRunnable (omega arith)
      (omega arith) (omega arith)

abbrev three_end : Schedule
unfolding schedule_dag
three_end = elim (schedule_dag (options none) 9) [ none ↦ start three_dag | some s ↦ s ]

concurrency_bounded_example :
    AllWithin (effective_max_parallel none) three_end.calls
    × (effective_max_parallel none ≤ default_max_fan_out)
    × (three_end.max_observed_concurrency ≡ longest three_end.calls)
    × ((x : String) → has_run (verdict_of three_end x) ≡ true → in_flight x three_end.calls ≡ true)
unfolding code
concurrency_bounded_example = concurrency_bounded (options none) 9 three_end refl

called_once_example : times "b" three_end.calls ≡ once_if_run (verdict_of three_end "b")
unfolding code
called_once_example = called_once (options none) 9 three_end "b" refl

fractional_width_never_ends_example : schedule_dag (options (some (finite false 1 1))) 1_000 ≡ none
fractional_width_never_ends_example =
    fractional_width_never_ends (options (some (finite false 1 1))) 1 1 1_000 "a" ("b" ∷ "c" ∷ [])
      three-IsRunnable refl refl (omega arith) (omega arith)
