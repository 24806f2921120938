-- ===== src/Workflow/Scheduler/Calls/Rounds.antt =====
-- What a round of packages/core-v2/src/workflow/scheduler.ts keeps true of the calls.
use pi_task.Common.{
  String, ◌≡◌, refl, Bool, true, some, inl, inr, List, [], ◌∷◌, ◌++◌, arith, max, length,
  IsDistinct, occurs,
}
use pi_task.Workflow.Dag.{DepMap}
use pi_task.Workflow.Scheduler.{
  NodeOutcome, returned_completed, returned_failed, threw, Schedule, skip_pass, skip_rest, settle,
  settle_all, run_chunk, route_all,
}
use pi_task.Workflow.Scheduler.Progress.{
  outcome_verdict, skip-Adds, settle-Adds, route_all-Routed, route_all-calls,
}
use pi_task.Workflow.Scheduler.Verdicts.{
  AreOpen, AreOpen-Adds, AreOpen-tail, head_open, skip_blocked-cases,
}
use pi_task.Workflow.Scheduler.Flights.Chunks.{has_run}
use pi_task.Workflow.Scheduler.Calls.Counts.{
  AreCalled, settled-AreCalled, skipped-AreCalled, times-snoc,
}

outcome-has_run : (o : NodeOutcome) → has_run (some (outcome_verdict o)) ≡ true
outcome-has_run (returned_completed c) = refl
outcome-has_run (returned_failed c) = refl
outcome-has_run (threw m) = refl

module _ (order : List String) (deps : DepMap) (run_node : String → NodeOutcome)
    (gateway : Bool) where
  pub skip_pass-AreCalled :
      (ids : List String) (s : Schedule) (b : Bool)
      → IsDistinct ids
      → AreOpen ids s
      → AreCalled [] s
      → AreCalled [] (skip_pass gateway deps ids (s, b)).0
  unfolding skip_pass
  skip_pass-AreCalled [] s b d o c = c
  skip_pass-AreCalled (id ∷ ids) s b d o c =
      elim (skip_blocked-cases order deps run_node gateway id s b) [
        | inl (e, _) ↦
            rw (e, skip_pass)
              (skip_pass-AreCalled ids s b d.1 (AreOpen-tail order deps run_node gateway id ids s o)
                c)
        | inr (cause, e, _) ↦
            let a = skip-Adds gateway id s cause in
            rw (e, skip_pass)
              (skip_pass-AreCalled ids _ true d.1 (AreOpen-Adds order deps run_node id ids a d o)
                (skipped-AreCalled a (head_open order deps run_node gateway id ids s o) refl c))
      ]

  pub skip_rest-AreCalled :
      (ids : List String) (s : Schedule)
      → IsDistinct ids
      → AreOpen ids s
      → AreCalled [] s
      → AreCalled [] (skip_rest gateway ids s)
  unfolding skip_rest
  skip_rest-AreCalled [] s d o c = c
  skip_rest-AreCalled (id ∷ ids) s d o c =
      let a = skip-Adds gateway id s "skipped: unresolved dependencies" in
      skip_rest-AreCalled ids _ d.1 (AreOpen-Adds order deps run_node id ids a d o)
        (skipped-AreCalled a (head_open order deps run_node gateway id ids s o) refl c)

  settle_all-AreCalled :
      (ids : List String) (s : Schedule)
      → IsDistinct ids
      → AreOpen ids s
      → AreCalled ids s
      → AreCalled [] (settle_all gateway run_node ids s)
  unfolding settle_all
  settle_all-AreCalled [] s d o c = c
  settle_all-AreCalled (id ∷ ids) s d o c =
      let a = settle-Adds gateway id s (run_node id) in
      settle_all-AreCalled ids (settle gateway id (run_node id) s) d.1
        (AreOpen-Adds order deps run_node id ids a d o)
        (settled-AreCalled a (head_open order deps run_node gateway id ids s o) ids
          (outcome-has_run (run_node id)) c)

  pub run_chunk-AreCalled :
      (chunk : List String) (s : Schedule)
      → IsDistinct chunk
      → AreOpen chunk s
      → AreCalled [] s
      → AreCalled [] (run_chunk gateway run_node chunk s)
  unfolding run_chunk occurs
  run_chunk-AreCalled chunk s d o c =
      let s1 = record s {
        max_observed_concurrency = max s.max_observed_concurrency (length chunk);
      } in
      let s2 = route_all gateway chunk s1 in
      let (calls, _) = route_all-calls gateway chunk s1 in
      let q = route_all-Routed gateway chunk s1 in
      settle_all-AreCalled chunk (record s2 { calls = s2.calls ++ chunk ∷ [] }) d
        (λ x k. rw q.pending (o x k))
        (record {
          distinct = rw q.pending c.distinct;
          waiting = λ x k. rw q.results (c.waiting x (rw q.pending at k));
          runs = λ x. rw (times-snoc x s2.calls chunk, calls, q.results) (omega (arith, c.runs x));
        })
