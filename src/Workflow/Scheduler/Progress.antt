-- ===== src/Workflow/Scheduler/Progress.antt =====
-- How the steps of packages/core-v2/src/workflow/scheduler.ts change the sets and the results.
use mathlib.Core.Option
use pi_task.Common.{
  ◌≤◌, ◌<◌, String, ◌≡◌, refl, Bool, true, false, ◌&&◌, ◌||◌, Option, none, some, List, [], ◌∷◌,
  arith, if◌then◌else◌, length, lookup, contains, delete, str_eq, lookup-put, contains-add,
}
use pi_task.Workflow.Scheduler.{
  NodeVerdict, completed, failed, skipped, NodeOutcome, returned_completed, returned_failed, threw,
  Schedule, emit, emit_routed, emit_terminal, skip, complete, fail, settle, route_all,
}

abbrev pub verdict_of : Schedule → String → Option NodeVerdict
verdict_of s x = elim (lookup x s.results) [ none ↦ none | some r ↦ some r.verdict ]

abbrev pub is_completed : Option NodeVerdict → Bool
is_completed (some completed) = true
is_completed _ = false

abbrev pub is_failed : Option NodeVerdict → Bool
is_failed (some failed) = true
is_failed _ = false

abbrev pub is_skipped : Option NodeVerdict → Bool
is_skipped (some skipped) = true
is_skipped _ = false

abbrev pub outcome_verdict : NodeOutcome → NodeVerdict
outcome_verdict (returned_completed _) = completed
outcome_verdict (returned_failed _) = failed
outcome_verdict (threw _) = failed

-- `s'` is `s` with the verdict `v` for the node `id`, which waits no more.
pub record Adds (v : NodeVerdict) (id : String) (s s' : Schedule) : Type 0 where
  pub pending : s'.pending ≡ delete id s.pending
  pub verdicts : (x : String) → verdict_of s' x ≡ (if str_eq id x then some v else verdict_of s x)
  pub completions :
      (x : String)
      → contains x s'.completed_ids
        ≡ (contains x s.completed_ids || is_completed (some v) && str_eq id x)
  pub failures :
      (x : String)
      → contains x s'.failed_ids ≡ (contains x s.failed_ids || is_failed (some v) && str_eq id x)
  pub skips :
      (x : String)
      → contains x s'.skipped_ids ≡ (contains x s.skipped_ids || is_skipped (some v) && str_eq id x)
  pub calls : s'.calls ≡ s.calls
  pub width : s'.max_observed_concurrency ≡ s.max_observed_concurrency

module _ (gateway : Bool) (id : String) (s : Schedule) where
  pub skip-Adds : (cause : String) → Adds skipped id s (skip gateway id cause s)
  unfolding skip emit_routed emit_terminal emit
  skip-Adds cause = record {
    pending = ground arith;
    verdicts = λ x. ground (
      arith,
      lookup-put id x (record { id = id; verdict = skipped; cause = some cause }) s.results,
    );
    completions = λ x. ground arith;
    failures = λ x. ground arith;
    skips = λ x. ground (arith, contains-add id x s.skipped_ids);
    calls = ground arith;
    width = ground arith;
  }

  pub complete-Adds : Adds completed id s (complete gateway id s)
  unfolding complete emit_terminal emit
  complete-Adds = record {
    pending = ground arith;
    verdicts = λ x.
        ground (
          arith,
          lookup-put id x (record { id = id; verdict = completed; cause = none }) s.results,
        );
    completions = λ x. ground (arith, contains-add id x s.completed_ids);
    failures = λ x. ground arith;
    skips = λ x. ground arith;
    calls = ground arith;
    width = ground arith;
  }

  pub fail-Adds : (cause : Option String) → Adds failed id s (fail gateway id cause s)
  unfolding fail emit_terminal emit
  fail-Adds cause = record {
    pending = ground arith;
    verdicts = λ x. ground (
      arith,
      lookup-put id x
          (record { id = id; verdict = failed; cause = some (Option.get_or cause "failed") })
          s.results,
    );
    completions = λ x. ground arith;
    failures = λ x. ground (arith, contains-add id x s.failed_ids);
    skips = λ x. ground arith;
    calls = ground arith;
    width = ground arith;
  }

  pub settle-Adds : (o : NodeOutcome) → Adds (outcome_verdict o) id s (settle gateway id o s)
  unfolding settle
  settle-Adds (returned_completed cause) = complete-Adds
  settle-Adds (returned_failed cause) = fail-Adds cause
  settle-Adds (threw message) = fail-Adds (some message)

pub length-delete-le : (k : String) (xs : List String) → length (delete k xs) ≤ length xs
unfolding delete
length-delete-le k [] = omega arith
length-delete-le k (x ∷ xs) = ground (arith, length-delete-le k xs)

pub length-delete-lt :
    (k : String) (xs : List String) → contains k xs ≡ true → length (delete k xs) < length xs
unfolding delete contains
length-delete-lt k [] h = cc
length-delete-lt k (x ∷ xs) h = ground (arith, length-delete-le k xs, length-delete-lt k xs)

-- Routing changes the events alone.
pub record Routed (s s' : Schedule) : Type 0 where
  pub pending : s'.pending ≡ s.pending
  pub results : s'.results ≡ s.results
  pub completed_same : s'.completed_ids ≡ s.completed_ids
  pub failed_same : s'.failed_ids ≡ s.failed_ids
  pub skipped_same : s'.skipped_ids ≡ s.skipped_ids

emit_routed-Routed :
    (gateway : Bool) (id : String) (s : Schedule) → Routed s (emit_routed gateway id s)
unfolding emit_routed emit
emit_routed-Routed gateway id s = ground arith

pub route_all-Routed :
    (gateway : Bool) (ids : List String) (s : Schedule) → Routed s (route_all gateway ids s)
unfolding route_all
route_all-Routed gateway [] s = ground arith
route_all-Routed gateway (id ∷ ids) s =
    let s1 = emit_routed gateway id s in
    ground (arith, route_all-Routed gateway ids s1, emit_routed-Routed gateway id s)

pub route_all-calls :
    (gateway : Bool) (ids : List String) (s : Schedule)
    → ((route_all gateway ids s).calls ≡ s.calls)
      × ((route_all gateway ids s).max_observed_concurrency ≡ s.max_observed_concurrency)
unfolding route_all emit_routed emit
route_all-calls gateway [] s = (refl, refl)
route_all-calls gateway (id ∷ ids) s =
    ground (arith, route_all-calls gateway ids (emit_routed gateway id s))
