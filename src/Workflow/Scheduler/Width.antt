-- ===== src/Workflow/Scheduler/Width.antt =====
-- packages/core-v2/src/workflow/scheduler.ts: what the width of the chunks changes, and what it does not.
use mathlib.Core.Path.{subst}
use pi_task.Common.{
  ℕ, ◌≤◌, ◌<◌, String, ◌≡◌, sym, ◌∙◌, Bool, true, Option, some, inl, inr, List, [], ◌∷◌, ◌++◌,
  arith, Bool-cases, length, contains, str_eq, eq_iff, contains-append,
}
use pi_task.Workflow.Dag.{SynthesizedDag}
use pi_task.Workflow.Dag.Kahn.{IsOrderedFrom}
use pi_task.Workflow.Scheduler.{
  NodeVerdict, NodeOutcome, ScheduleOptions, Schedule, effective_max_parallel, schedule_dag, Number,
}
use pi_task.Workflow.Scheduler.Progress.{verdict_of}
use pi_task.Workflow.Scheduler.Settles.{needs, IsRunnable, IsSettled, schedule_dag_settles}

module _ (dag : SynthesizedDag) (run_node : String → NodeOutcome)
    (v w : String → Option NodeVerdict) where
  agree_at :
      (x : String)
      → ((d : String) → contains d (needs dag x) ≡ true → v d ≡ w d)
      → IsSettled dag run_node v x
      → IsSettled dag run_node w x
      → v x ≡ w x
  agree_at x same (inl (e, _)) (inl (f, _)) = e ∙ sym f
  agree_at x same (inr (e, _)) (inr (f, _)) = e ∙ sym f
  agree_at x same (inl (e, h)) (inr (f, (d, c, inl k))) = cc (h d c, same d c)
  agree_at x same (inl (e, h)) (inr (f, (d, c, inr k))) = cc (h d c, same d c)
  agree_at x same (inr (f, (d, c, inl k))) (inl (e, h)) = cc (h d c, same d c)
  agree_at x same (inr (f, (d, c, inr k))) (inl (e, h)) = cc (h d c, same d c)

  agree :
      (seen xs : List String)
      → IsOrderedFrom (needs dag) seen xs
      → ((x : String) → contains x seen ≡ true → v x ≡ w x)
      → ((x : String)
          → contains x xs ≡ true
          → IsSettled dag run_node v x × IsSettled dag run_node w x)
      → (x : String) → contains x xs ≡ true
      → v x ≡ w x
  unfolding contains
  agree seen [] o same settled x c = cc
  agree seen (y ∷ ys) o same settled x c =
      let (sv, sw) = settled y (ground (arith, eq_iff y y)) in
      let here = agree_at y (λ d k. same d (o.0 d k)) sv sw in
      elim (Bool-cases (str_eq y x)) [
        | inl e ↦ subst (λ z. v z ≡ w z) ((eq_iff y x).0 e) here
        | inr e ↦
            agree (seen ++ y ∷ []) ys o.1
              (λ z k. elim (Bool-cases (str_eq y z)) [
                | inl q ↦ subst (λ u. v u ≡ w u) ((eq_iff y z).0 q) here
                | inr q ↦ same z (ground (arith, contains-append z seen (y ∷ [])))
              ])
              (λ z k. settled z (ground arith)) x (rw e at c)
      ]

-- The verdicts depend on the plan and on the runs of its nodes alone: for any two widths of at least
-- one, with or without a gateway, the scheduler returns and gives each node the same verdict.
pub same_verdicts :
    (options : ScheduleOptions) (max_parallel : Option Number) (gateway : Bool) (fuel : ℕ)
    → IsRunnable options.dag
    → 1 ≤ effective_max_parallel options.max_parallel
    → 1 ≤ effective_max_parallel max_parallel
    → length options.dag.order < fuel
    → (s t : Schedule) × (schedule_dag options fuel ≡ some s)
      × (schedule_dag (record options { max_parallel = max_parallel; gateway = gateway }) fuel
          ≡ some t)
      × ((x : String) → verdict_of s x ≡ verdict_of t x)
unfolding contains
same_verdicts options max_parallel gateway fuel r wide wider h =
    let (s, e, settled, outside) = schedule_dag_settles options wide r fuel h in
    let (t, f, settled', outside') =
      schedule_dag_settles (record options { max_parallel = max_parallel; gateway = gateway }) wider
        r fuel h in
    (
      s,
      t,
      e,
      f,
      λ x. elim (Bool-cases (contains x options.dag.order)) [
        | inl c ↦
            agree options.dag options.run_node (verdict_of s) (verdict_of t) [] options.dag.order
              r.sorted (λ z k. cc) (λ z k. (settled z k, settled' z k)) x c
        | inr c ↦ outside x c ∙ sym (outside' x c)
      ],
    )
