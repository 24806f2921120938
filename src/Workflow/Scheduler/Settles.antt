-- ===== src/Workflow/Scheduler/Settles.antt =====
-- `scheduleDag` of packages/core-v2/src/workflow/scheduler.ts: it ends, and what it comes to.
use mathlib.Core.List.{append_assoc, append-nil}
use pi_task.Common.{
  ℕ, ◌≤◌, ◌<◌, String, ◌≡◌, refl, sym, ◌∙◌, ap, true, false, ◌||◌, Option, none, some, ◌⊎◌, inl,
  inr, List, [], ◌∷◌, ◌++◌, arith, length, contains, add, eq_iff, contains-append, IsDistinct,
  lookup,
}
use pi_task.Workflow.Dag.{list_of, SynthesizedDag}
use pi_task.Workflow.Dag.Kahn.{IsOrderedFrom}
use pi_task.Workflow.Scheduler.{
  NodeVerdict, completed, failed, skipped, NodeOutcome, ScheduleOptions, Schedule,
  effective_max_parallel, schedule_dag, start, as_set, dependencies_of,
}
use pi_task.Workflow.Scheduler.Progress.{
  verdict_of, is_completed, is_failed, is_skipped, outcome_verdict,
}
use pi_task.Workflow.Scheduler.Verdicts.{is_known, AllDone, IsJustified, Inv}
use pi_task.Workflow.Scheduler.Rounds.{loop-Ends, Kept}

-- The dependencies of a node of the order.
abbrev pub needs : SynthesizedDag → String → List String
needs dag x = list_of x (dependencies_of dag dag.order)

-- An order that holds each id once, and behind all of its dependencies.
pub record IsRunnable (dag : SynthesizedDag) : Type 0 where
  pub distinct : IsDistinct dag.order
  pub sorted : IsOrderedFrom (needs dag) [] dag.order

-- The node ran, all that it needs being completed, or it was skipped for something that it needs.
abbrev pub IsSettled :
    SynthesizedDag → (String → NodeOutcome) → (String → Option NodeVerdict) → String → Type 0
IsSettled dag run_node verdict x =
    (verdict x ≡ some (outcome_verdict (run_node x)))
      × ((d : String) → contains d (needs dag x) ≡ true → verdict d ≡ some completed)
    ⊎ (verdict x ≡ some skipped)
      × ((d : String) × (contains d (needs dag x) ≡ true)
          × ((verdict d ≡ some failed) ⊎ (verdict d ≡ some skipped)))

as_set-append :
    (acc xs : List String)
    → ((x : String) → contains x xs ≡ true → contains x acc ≡ false)
    → IsDistinct xs
    → as_set acc xs ≡ acc ++ xs
unfolding as_set add contains
as_set-append acc [] h d = rw append-nil
as_set-append acc (x ∷ xs) h d = rw (h x (ground (arith, eq_iff x x))) (
    as_set-append (acc ++ x ∷ []) xs
      (λ y c. ground (arith, h y, contains-append y acc (x ∷ []), eq_iff x y)) d.1
    ∙ append_assoc acc (x ∷ []) xs)

pub start_pending : (dag : SynthesizedDag) → IsDistinct dag.order → (start dag).pending ≡ dag.order
unfolding start contains
start_pending dag d = as_set-append [] dag.order (λ x c. refl) d

-- What a final state says of each node.
module _ (options : ScheduleOptions) (s : Schedule)
    (inv : Inv options.dag.order
      (dependencies_of options.dag options.dag.order)
      options.run_node
      s) where
  completed_of : (v : Option NodeVerdict) → is_completed v ≡ true → v ≡ some completed
  completed_of (some completed) h = refl
  completed_of (some failed) h = cc
  completed_of (some skipped) h = cc
  completed_of none h = cc

  lost_of :
      (v : Option NodeVerdict)
      → (is_failed v || is_skipped v) ≡ true
      → (v ≡ some failed) ⊎ (v ≡ some skipped)
  lost_of (some completed) h = cc
  lost_of (some failed) h = inl refl
  lost_of (some skipped) h = inr refl
  lost_of none h = cc

  all_completed :
      (ds : List String)
      → AllDone ds s
      → (d : String) → contains d ds ≡ true
      → verdict_of s d ≡ some completed
  all_completed ds h d c = completed_of (verdict_of s d) (sym (inv.completions d) ∙ h d c)

  IsSettled-as :
      (x : String) (v : Option NodeVerdict)
      → verdict_of s x ≡ v
      → is_known v ≡ true
      → IsJustified options.dag.order
          (dependencies_of options.dag options.dag.order)
          options.run_node
          s
          x
          v
      → IsSettled options.dag options.run_node (verdict_of s) x
  IsSettled-as x none e h j = cc
  IsSettled-as x (some completed) e h j =
      inl (e ∙ ap some j.0, all_completed (needs options.dag x) j.1)
  IsSettled-as x (some failed) e h j =
      inl (e ∙ ap some j.0, all_completed (needs options.dag x) j.1)
  IsSettled-as x (some skipped) e h (d, c, b) =
      inr (e, (d, c, lost_of (verdict_of s d) (rw (inv.failures d, inv.skips d) at b)))

  all-IsSettled :
      s.pending ≡ []
      → (x : String) → contains x options.dag.order ≡ true
      → IsSettled options.dag options.run_node (verdict_of s) x
  unfolding contains
  all-IsSettled e x c =
      IsSettled-as x (verdict_of s x) refl (ground (arith, rw e at (inv.waiting x)))
        (inv.justified x)

  none_else : (x : String) → contains x options.dag.order ≡ false → verdict_of s x ≡ none
  none_else x c = unknown_of (verdict_of s x) (inv.inside x)
    where
      unknown_of :
          (v : Option NodeVerdict)
          → (is_known v ≡ true → contains x options.dag.order ≡ true)
          → v ≡ none
      unknown_of none h = refl
      unknown_of (some v) h = cc (h refl)

module _ (options : ScheduleOptions) (wide : 1 ≤ effective_max_parallel options.max_parallel)
    (r : IsRunnable options.dag) where
  start-Kept :
      Kept options (dependencies_of options.dag options.dag.order) wide r.sorted (start options.dag)
  unfolding start lookup contains
  start-Kept = record {
    distinct = rw (start_pending options.dag r.distinct) r.distinct;
    waiting = λ x. rw (start_pending options.dag r.distinct) (ground arith);
    inside = λ x h. cc;
    completions = λ x. refl;
    failures = λ x. refl;
    skips = λ x. refl;
    justified = λ x. tt;
  }

  -- For a plan whose order is distinct and puts dependencies first, and at least one node at a time,
  -- more rounds than there are nodes are enough for the scheduler to return. Then each node has the
  -- verdict of its own run, all that it depends on being completed, or is skipped since something
  -- that it depends on failed or was skipped; nothing else has a verdict.
  pub schedule_dag_settles :
      (fuel : ℕ)
      → length options.dag.order < fuel
      → (s : Schedule) × (schedule_dag options fuel ≡ some s)
        × ((x : String)
            → contains x options.dag.order ≡ true
            → IsSettled options.dag options.run_node (verdict_of s) x)
        × ((x : String) → contains x options.dag.order ≡ false → verdict_of s x ≡ none)
  unfolding schedule_dag
  schedule_dag_settles fuel h =
      let deps = dependencies_of options.dag options.dag.order in
      let (s, e, kept, nil) =
        loop-Ends options deps wide r.sorted fuel (start options.dag) start-Kept
          (rw (start_pending options.dag r.distinct) h) in
      (s, e, all-IsSettled options s kept nil, none_else options s kept)
