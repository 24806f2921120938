-- ===== src/Router/Counts.antt =====
-- That the router of packages/core-v2/src/router/route.ts reads its feedback as counts.
use pi_task.Common.{
  ℕ, ◌+◌, ◌≤◌, ◌<◌, String, Bool, true, false, Option, List, [], lookup, Result, returns, throws,
  ◌≡◌, refl, sym, ap, ◌∙◌, arith,
}
use pi_task.Router.{
  PlanMode, cold, bundle, Count, whole, not_whole, RoutingFeedbackRow, SpecMetadata, RouteDecision,
  Rates, ModeRate, RoutingThresholds, RouteInput, Modes, mode_of, bundle_hit_rate,
  aggregate_routing_feedback, resolve_thresholds, bundle_supported, fork_disabled, plan_mode_for,
  route_count, route_task, normalize_lane, normalize_lane, bundle_feedback_mode, fork_feedback_mode,
}
use pi_task.Router.Samples.{samples, clean, summary, summary_eq, add_rows-rate_in}

module _ {R : Type 0} (rates : Rates R) where
  -- The rate of a mode in a repository is the number of its rows, the number of its hits and their
  -- quotient, and there is none without such rows.
  pub aggregate-counts :
      (rows : List RoutingFeedbackRow) (repo mode : String)
      → mode_of mode (lookup repo (aggregate_routing_feedback rates rows))
        ≡ summary rates (samples repo mode rows) (clean repo mode rows)
  unfolding aggregate_routing_feedback lookup
  aggregate-counts rows repo mode =
      add_rows-rate_in rates rows repo mode [] 0 0 (λ e. refl) refl
      ∙ summary_eq rates (0 + samples repo mode rows) (samples repo mode rows)
          (0 + clean repo mode rows) (clean repo mode rows) (omega arith) (omega arith)

  -- Two feedbacks in which the repository has as many rows and hits of bundles and of forks route a
  -- task in the same way: the order of the rows, other modes and other repositories do not matter.
  pub same_counts_same_route :
      (input : RouteInput R) (rows : List RoutingFeedbackRow)
      → samples input.repo bundle_feedback_mode input.feedback
        ≡ samples input.repo bundle_feedback_mode rows
      → clean input.repo bundle_feedback_mode input.feedback
        ≡ clean input.repo bundle_feedback_mode rows
      → samples input.repo fork_feedback_mode input.feedback
        ≡ samples input.repo fork_feedback_mode rows
      → clean input.repo fork_feedback_mode input.feedback
        ≡ clean input.repo fork_feedback_mode rows
      → route_task rates input ≡ route_task rates (record input { feedback = rows })
  unfolding route_task route_count
  same_counts_same_route input rows bs bc fs fc = by_count input.spec.requirement_count
    where
      routed : ℕ → Option (ModeRate R) → Option (ModeRate R) → Result String RouteDecision
      routed n b f =
          let t : RoutingThresholds R = resolve_thresholds rates input.thresholds in
          returns (record {
            plan_mode =
                plan_mode_for rates input.spec n t (bundle_supported rates t b)
                  (fork_disabled rates t f);
            tier = input.tier.name;
            lane = normalize_lane input.tier.lane;
          })

      same :
          (mode : String)
          → samples input.repo mode input.feedback ≡ samples input.repo mode rows
          → clean input.repo mode input.feedback ≡ clean input.repo mode rows
          → mode_of mode (lookup input.repo (aggregate_routing_feedback rates input.feedback))
            ≡ mode_of mode (lookup input.repo (aggregate_routing_feedback rates rows))
      same mode s c =
          aggregate-counts input.feedback input.repo mode
          ∙ summary_eq rates _ _ _ _ s c
          ∙ sym (aggregate-counts rows input.repo mode)

      by_count :
          (c : Count)
          → route_count rates input c ≡ route_count rates (record input { feedback = rows }) c
      by_count (not_whole text) = refl
      by_count (whole n) =
          ap
            (λ o. routed n o (
              mode_of fork_feedback_mode
                (lookup input.repo (aggregate_routing_feedback rates input.feedback))))
            (same bundle_feedback_mode bs bc)
          ∙ ap
              (routed n (
                mode_of bundle_feedback_mode
                  (lookup input.repo (aggregate_routing_feedback rates rows))))
              (same fork_feedback_mode fs fc)

  bundles_when :
      (spec : SpecMetadata) (n : ℕ) (t : RoutingThresholds R) (supported disabled : Bool)
      → plan_mode_for rates spec n t supported disabled ≡ bundle
      → (spec.continues_prior_work ≡ false)
        × (spec.has_orientation_notes ≡ true)
        × (t.cold_max_requirements < n)
        × (n ≤ t.bundle_max_requirements)
        × (supported ≡ true)
  unfolding plan_mode_for
  bundles_when spec n t supported disabled h = ground arith

  supported_when :
      (t : RoutingThresholds R) (n hits : ℕ)
      → bundle_supported rates t (summary rates n hits) ≡ true
      → (0 < n)
        × (t.min_bundle_samples ≤ n)
        × (rates.at_least (rates.ratio hits n) t.bundle_min_hit_rate ≡ true)
  unfolding bundle_supported bundle_hit_rate
  supported_when t n hits h = ground arith

  -- A task is only bundled if it is no continuation, has orientation notes and a number of
  -- requirements between the two limits, and its repository has bundle samples, as many as are asked
  -- for and with a rate of hits that is.
  pub bundles_on_evidence :
      (input : RouteInput R) (n : ℕ) (d : RouteDecision)
      → input.spec.requirement_count ≡ whole n
      → route_task rates input ≡ returns d
      → d.plan_mode ≡ bundle
      → let t = resolve_thresholds rates input.thresholds in
        let k = samples input.repo bundle_feedback_mode input.feedback in
        let hits = clean input.repo bundle_feedback_mode input.feedback in
        (input.spec.continues_prior_work ≡ false)
        × (input.spec.has_orientation_notes ≡ true)
        × (t.cold_max_requirements < n)
        × (n ≤ t.bundle_max_requirements)
        × (0 < k)
        × (t.min_bundle_samples ≤ k)
        × (rates.at_least (rates.ratio hits k) t.bundle_min_hit_rate ≡ true)
  unfolding route_task route_count
  bundles_on_evidence input n d count routes bundled =
      let t : RoutingThresholds R = resolve_thresholds rates input.thresholds in
      let k : ℕ = samples input.repo bundle_feedback_mode input.feedback in
      let hits : ℕ = clean input.repo bundle_feedback_mode input.feedback in
      let modes : Option (Modes R) =
        lookup input.repo (aggregate_routing_feedback rates input.feedback) in
      let (fresh, notes, over, within, supported) =
        bundles_when input.spec n t (bundle_supported rates t (mode_of bundle_feedback_mode modes))
          (fork_disabled rates t (mode_of fork_feedback_mode modes))
          (ap plan_of (sym (ap (route_count rates input) count) ∙ routes) ∙ bundled) in
      let (sampled_once, enough, rate) = supported_when t k hits (
        sym (
          ap (bundle_supported rates t)
            (aggregate-counts input.feedback input.repo bundle_feedback_mode))
        ∙ supported) in
      (fresh, notes, over, within, sampled_once, enough, rate)
    where
      plan_of : Result String RouteDecision → PlanMode
      plan_of (returns d) = d.plan_mode
      plan_of (throws e) = cold
