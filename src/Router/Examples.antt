-- ===== src/Router/Examples.antt =====
-- Concrete feedback for the theorems on router/route.ts, with rates as fractions.
use pi_task.Common.{
  ℕ, ◌*◌, ◌-◌, leb, ltb, String, true, false, none, some, List, [], ◌∷◌, ◌≡◌, refl, ◌≤◌, ◌<◌,
  lookup, put,
}
use pi_task.Router.{
  bundle, flex, whole, Hit, flag, number, is_hit, RoutingFeedbackRow, RouteDecision, Rates,
  RouteInput, mode_of, aggregate_routing_feedback, route_task, route_count, plan_mode_for,
  resolve_thresholds, default_routing_thresholds, bundle_supported, fork_disabled, bundle_hit_rate,
  fork_deviation_rate, add_row, add_rows, normalize_lane,
}
use pi_task.Router.Samples.{samples, clean, summary}
use pi_task.Router.Counts.{aggregate-counts, same_counts_same_route, bundles_on_evidence}

-- A rate is a numerator with its denominator.
abbrev fractions : Rates (ℕ × ℕ)
fractions = record {
  nothing = (0, 1);
  ratio = λ hits total. (hits, total);
  one_minus = λ r. (r.1 - r.0, r.1);
  at_least = λ r s. leb (s.0 * r.1) (r.0 * s.1);
  above = λ r s. ltb (s.0 * r.1) (r.0 * s.1);
  seven_tenths = (7, 10);
  three_tenths = (3, 10);
}

abbrev row : String → String → Hit → RoutingFeedbackRow
row repo mode hit = record { repo = repo; mode = mode; hit = hit }

abbrev input : RouteInput (ℕ × ℕ)
input = record {
  spec = record {
    requirement_count = whole 2;
    has_orientation_notes = true;
    continues_prior_work = false;
    has_live_parent_session = false;
  };
  tier = record { name = "standard"; lane = some "flex" };
  repo = "r";
  feedback =
      row "r" "bundle" (flag true) ∷ row "q" "bundle" (number 0) ∷ row "r" "fork" (number 1) ∷ [];
  thresholds = none;
}

abbrev other_rows : List RoutingFeedbackRow
other_rows = row "r" "fork" (flag true) ∷ row "r" "bundle" (flag true) ∷ []

same_counts_same_route_example :
    route_task fractions input ≡ route_task fractions (record input { feedback = other_rows })
unfolding samples clean
same_counts_same_route_example =
    same_counts_same_route fractions input other_rows refl refl refl refl

abbrev decision : RouteDecision
decision = record { plan_mode = bundle; tier = "standard"; lane = flex }

bundles_on_evidence_example :
    let t = resolve_thresholds fractions none in
    (false ≡ false)
    × (true ≡ true)
    × (t.cold_max_requirements < 2)
    × (2 ≤ t.bundle_max_requirements)
    × (0 < samples "r" "bundle" input.feedback)
    × (t.min_bundle_samples ≤ samples "r" "bundle" input.feedback)
    × (fractions.at_least
          (clean "r" "bundle" input.feedback, samples "r" "bundle" input.feedback)
          t.bundle_min_hit_rate
        ≡ true)
unfolding route_task route_count plan_mode_for resolve_thresholds default_routing_thresholds
    bundle_supported fork_disabled bundle_hit_rate fork_deviation_rate aggregate_routing_feedback
    add_row add_rows normalize_lane lookup put is_hit
bundles_on_evidence_example = bundles_on_evidence fractions input 2 decision refl refl refl

aggregate-counts_example :
    mode_of "bundle" (lookup "r" (aggregate_routing_feedback fractions input.feedback))
    ≡ summary fractions (samples "r" "bundle" input.feedback) (clean "r" "bundle" input.feedback)
aggregate-counts_example = aggregate-counts fractions input.feedback "r" "bundle"
