-- ===== src/Workflow/Scheduler/Flights/Steps.antt =====
-- What the steps of packages/core-v2/src/workflow/scheduler.ts keep true of the chunks.
use mathlib.Core.Path.{subst}
use pi_task.Common.{
  ℕ, ◌≤◌, String, ◌≡◌, sym, ap, ◌∙◌, Bool, true, false, some, inl, inr, List, [], ◌∷◌, ◌++◌, arith,
  Bool-cases, Option-cases, max, length, contains, str_eq, eq_iff, ◌⊎◌, if◌then◌else◌,
}
use pi_task.Workflow.Dag.{DepMap, list_of}
use pi_task.Workflow.Scheduler.{
  NodeVerdict, skipped, NodeOutcome, Schedule, blocker, skip, skip_blocked, skip_pass, skip_rest,
  settle, settle_all, run_chunk, route_all,
}
use pi_task.Workflow.Scheduler.Progress.{
  Adds, verdict_of, outcome_verdict, skip-Adds, settle-Adds, route_all-Routed, route_all-calls,
}
use pi_task.Workflow.Scheduler.Flights.Chunks.{
  AllWithin, AllWithin-snoc, IsNarrow, has_run, in_flight, in_flight-snoc, longest, longest-snoc,
}

module _ (gateway : Bool) (width : ℕ) where
  Adds-IsNarrow :
      (v : NodeVerdict) (id : String) (s s' : Schedule)
      → Adds v id s s'
      → (has_run (some v) ≡ true → in_flight id s.calls ≡ true)
      → IsNarrow width s
      → IsNarrow width s'
  Adds-IsNarrow v id s s' a now n = record {
    each = subst (AllWithin width) (sym a.calls) n.each;
    most = a.width ∙ (n.most ∙ ap longest (sym a.calls));
    flown = λ x h.
        ap (in_flight x) a.calls
        ∙ by_name x (Bool-cases (str_eq id x)) (sym (ap has_run (a.verdicts x)) ∙ h);
  }
    where
      by_name :
          (x : String)
          → (str_eq id x ≡ true) ⊎ (str_eq id x ≡ false)
          → has_run (if str_eq id x then some v else verdict_of s x) ≡ true
          → in_flight x s.calls ≡ true
      by_name x (inl e) h =
          subst (λ y. in_flight y s.calls ≡ true) ((eq_iff id x).0 e) (now (rw e at h))
      by_name x (inr e) h = n.flown x (rw e at h)

  skip-IsNarrow :
      (id cause : String) (s : Schedule)
      → IsNarrow width s
      → IsNarrow width (skip gateway id cause s)
  skip-IsNarrow id cause s n =
      Adds-IsNarrow skipped id s (skip gateway id cause s) (skip-Adds gateway id s cause) (λ h. cc)
        n

  skip_blocked-IsNarrow :
      (deps : DepMap) (id : String) (p : Schedule × Bool)
      → IsNarrow width p.0
      → IsNarrow width (skip_blocked gateway deps id p).0
  unfolding skip_blocked
  skip_blocked-IsNarrow deps id (s, b) n = elim (Option-cases (blocker s (list_of id deps))) [
    | inl e ↦ rw (e, skip_blocked) n
    | inr (d, e) ↦ rw (e, skip_blocked) (skip-IsNarrow id _ s n)
  ]

  pub skip_pass-IsNarrow :
      (deps : DepMap) (ids : List String) (p : Schedule × Bool)
      → IsNarrow width p.0
      → IsNarrow width (skip_pass gateway deps ids p).0
  unfolding skip_pass
  skip_pass-IsNarrow deps [] p n = n
  skip_pass-IsNarrow deps (id ∷ ids) p n =
      skip_pass-IsNarrow deps ids (skip_blocked gateway deps id p)
        (skip_blocked-IsNarrow deps id p n)

  pub skip_rest-IsNarrow :
      (ids : List String) (s : Schedule)
      → IsNarrow width s
      → IsNarrow width (skip_rest gateway ids s)
  unfolding skip_rest
  skip_rest-IsNarrow [] s n = n
  skip_rest-IsNarrow (id ∷ ids) s n = skip_rest-IsNarrow ids _ (skip-IsNarrow id _ s n)

  settle_all-IsNarrow :
      (run_node : String → NodeOutcome) (ids : List String) (s : Schedule)
      → ((x : String) → contains x ids ≡ true → in_flight x s.calls ≡ true)
      → IsNarrow width s
      → IsNarrow width (settle_all gateway run_node ids s)
  unfolding settle_all contains
  settle_all-IsNarrow run_node [] s h n = n
  settle_all-IsNarrow run_node (id ∷ ids) s h n =
      let a = settle-Adds gateway id s (run_node id) in
      let s' = settle gateway id (run_node id) s in
      settle_all-IsNarrow run_node ids s' (λ x c. ap (in_flight x) a.calls ∙ h x (ground arith))
        (Adds-IsNarrow (outcome_verdict (run_node id)) id s s' a
          (λ k. h id (ground (arith, eq_iff id id))) n)

  pub run_chunk-IsNarrow :
      (run_node : String → NodeOutcome) (chunk : List String) (s : Schedule)
      → length chunk ≤ width
      → IsNarrow width s
      → IsNarrow width (run_chunk gateway run_node chunk s)
  unfolding run_chunk
  run_chunk-IsNarrow run_node chunk s h n =
      let s1 = record s {
        max_observed_concurrency = max s.max_observed_concurrency (length chunk);
      } in
      let s2 = route_all gateway chunk s1 in
      let (c, w) = route_all-calls gateway chunk s1 in
      let q = route_all-Routed gateway chunk s1 in
      settle_all-IsNarrow run_node chunk (record s2 { calls = s2.calls ++ chunk ∷ [] })
        (λ x k. ground (arith, in_flight-snoc x s2.calls chunk))
        (record {
          each = AllWithin-snoc width s2.calls chunk (subst (AllWithin width) (sym c) n.each) h;
          most =
              w
              ∙ (ap (λ m. max m (length chunk)) (n.most ∙ ap longest (sym c))
                  ∙ sym (longest-snoc s2.calls chunk));
          flown = λ x k. ground (
            arith,
            in_flight-snoc x s2.calls chunk,
            ap (in_flight x) c,
            n.flown x (rw q.results at k),
          );
        })
