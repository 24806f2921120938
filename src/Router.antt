-- ===== src/Router.antt =====
-- packages/core-v2/src/router/route.ts: the plan mode and the lane of a task. Rates are floats: they
-- are a type that is given with the operations that the source uses.
pub mod Samples
pub mod Counts
mod Examples
use Prim.Native.String.{◌++◌}
use pi_task.Common.{
  ℕ, zero, suc, ◌+◌, ◌==◌, leb, String, ◌&&◌, not, Bool, true, false, Option, none, some, List, [],
  ◌∷◌, if◌then◌else◌, lookup, put, str_eq, contains, Result, returns, throws,
}

pub data PlanMode : Type 0 where
  cold prewalk bundle fork : PlanMode

pub data Lane : Type 0 where
  interactive flex batch : Lane

abbrev pub bundle_feedback_mode : String
bundle_feedback_mode = "bundle"

abbrev pub fork_feedback_mode : String
fork_feedback_mode = "fork"

abbrev pub text_append : String → String → String
text_append a b = a ++ b

-- `boolean | number`; a number that is no natural one is no hit, as `0` is none.
pub data Hit : Type 0 where
  flag : Bool → Hit
  number : ℕ → Hit

-- `row.hit === true || row.hit === 1`
unfoldable pub is_hit : Hit → Bool
is_hit (flag b) = b
is_hit (number n) = n == 1

pub record RoutingFeedbackRow : Type 0 where
  pub repo : String
  pub mode : String
  pub hit : Hit

-- A non-negative integer, or another number with its text.
pub data Count : Type 0 where
  whole : ℕ → Count
  not_whole : String → Count

pub record SpecMetadata : Type 0 where
  pub requirement_count : Count
  pub has_orientation_notes : Bool
  pub continues_prior_work : Bool
  pub has_live_parent_session : Bool

pub record ResolvedTierConfig : Type 0 where
  pub name : String
  pub lane : Option String

pub record RouteDecision : Type 0 where
  pub plan_mode : PlanMode
  pub tier : String
  pub lane : Lane

-- What the source does with rates: a quotient, one minus it, `>=` and `>`, and the constants.
pub record Rates (R : Type 0) : Type 0 where
  pub nothing : R
  pub ratio : ℕ → ℕ → R
  pub one_minus : R → R
  pub at_least : R → R → Bool
  pub above : R → R → Bool
  pub seven_tenths : R
  pub three_tenths : R

unfoldable pub normalize_lane : Option String → Lane
normalize_lane none = interactive
normalize_lane (some value) =
    if str_eq value "flex" then flex else if str_eq value "batch" then batch else interactive

pub record ModeRate (R : Type 0) : Type 0 where
  pub total : ℕ
  pub hits : ℕ
  pub rate : R

pub record RoutingThresholds (R : Type 0) : Type 0 where
  pub cold_max_requirements : ℕ
  pub bundle_max_requirements : ℕ
  pub min_bundle_samples : ℕ
  pub bundle_min_hit_rate : R
  pub min_fork_samples : ℕ
  pub fork_max_deviation_rate : R

-- `Partial<RoutingThresholds>`
pub record ThresholdOverrides (R : Type 0) : Type 0 where
  pub cold_max_requirements : Option ℕ
  pub bundle_max_requirements : Option ℕ
  pub min_bundle_samples : Option ℕ
  pub bundle_min_hit_rate : Option R
  pub min_fork_samples : Option ℕ
  pub fork_max_deviation_rate : Option R

pub record RouteInput (R : Type 0) : Type 0 where
  pub spec : SpecMetadata
  pub tier : ResolvedTierConfig
  pub repo : String
  pub feedback : List RoutingFeedbackRow
  pub thresholds : Option (ThresholdOverrides R)

abbrev pub layered : {A : Type 0} → A → Option A → A
layered a none = a
layered a (some b) = b

-- The rates of each mode of each repository.
abbrev pub Modes : Type 0 → Type 0
Modes R = List (String × ModeRate R)

abbrev pub ByRepo : Type 0 → Type 0
ByRepo R = List (String × Modes R)

module _ {R : Type 0} where
  -- `modes?.get(mode)`
  abbrev pub mode_of : String → Option (Modes R) → Option (ModeRate R)
  mode_of mode none = none
  mode_of mode (some modes) = lookup mode modes

  -- `modes?.get(mode)?.total ?? 0`
  abbrev pub total_of : Option (ModeRate R) → ℕ
  total_of none = 0
  total_of (some r) = r.total

  unfoldable pub bundle_hit_rate : Option (ModeRate R) → Option R
  bundle_hit_rate none = none
  bundle_hit_rate (some r) = some r.rate

module _ {R : Type 0} (rates : Rates R) where
  abbrev pub unsampled : ModeRate R
  unsampled = record { total = 0; hits = 0; rate = rates.nothing }

  -- One more sample.
  abbrev pub sampled : Bool → ModeRate R → ModeRate R
  sampled hit cur =
      let hits : ℕ = if hit then cur.hits + 1 else cur.hits in
      record { total = cur.total + 1; hits = hits; rate = rates.ratio hits (cur.total + 1) }

  unfoldable pub add_row : RoutingFeedbackRow → ByRepo R → ByRepo R
  add_row row by_repo =
      let modes : Modes R = layered [] (lookup row.repo by_repo) in
      put row.repo
        (put row.mode (sampled (is_hit row.hit) (layered unsampled (lookup row.mode modes))) modes)
        by_repo

  unfoldable pub add_rows : List RoutingFeedbackRow → ByRepo R → ByRepo R
  add_rows [] by_repo = by_repo
  add_rows (row ∷ rows) by_repo = add_rows rows (add_row row by_repo)

  unfoldable pub aggregate_routing_feedback : List RoutingFeedbackRow → ByRepo R
  aggregate_routing_feedback rows = add_rows rows []

  unfoldable pub fork_deviation_rate : Option (ModeRate R) → Option R
  fork_deviation_rate none = none
  fork_deviation_rate (some r) = some (rates.one_minus r.rate)

  unfoldable pub default_routing_thresholds : RoutingThresholds R
  default_routing_thresholds = record {
    cold_max_requirements = 1;
    bundle_max_requirements = 3;
    min_bundle_samples = 1;
    bundle_min_hit_rate = rates.seven_tenths;
    min_fork_samples = 1;
    fork_max_deviation_rate = rates.three_tenths;
  }

  unfoldable pub resolve_thresholds : Option (ThresholdOverrides R) → RoutingThresholds R
  unfolding default_routing_thresholds
  resolve_thresholds none = default_routing_thresholds
  resolve_thresholds (some o) = record {
    cold_max_requirements = layered 1 o.cold_max_requirements;
    bundle_max_requirements = layered 3 o.bundle_max_requirements;
    min_bundle_samples = layered 1 o.min_bundle_samples;
    bundle_min_hit_rate = layered rates.seven_tenths o.bundle_min_hit_rate;
    min_fork_samples = layered 1 o.min_fork_samples;
    fork_max_deviation_rate = layered rates.three_tenths o.fork_max_deviation_rate;
  }

  unfoldable pub bundle_supported : RoutingThresholds R → Option (ModeRate R) → Bool
  bundle_supported t r = by_rate (bundle_hit_rate r)
    where
      by_rate : Option R → Bool
      by_rate none = false
      by_rate (some rate) =
          leb t.min_bundle_samples (total_of r) && rates.at_least rate t.bundle_min_hit_rate

  unfoldable pub fork_disabled : RoutingThresholds R → Option (ModeRate R) → Bool
  fork_disabled t r = by_rate (fork_deviation_rate r)
    where
      by_rate : Option R → Bool
      by_rate none = false
      by_rate (some deviation) =
          leb t.min_fork_samples (total_of r) && rates.above deviation t.fork_max_deviation_rate

  unfoldable pub plan_mode_for : SpecMetadata → ℕ → RoutingThresholds R → Bool → Bool → PlanMode
  plan_mode_for spec count t supported disabled =
      if spec.continues_prior_work && spec.has_live_parent_session && not disabled
      then fork
      else if spec.continues_prior_work
      then prewalk
      else if leb count t.cold_max_requirements
      then cold
      else if spec.has_orientation_notes && leb count t.bundle_max_requirements && supported
      then bundle
      else prewalk

  unfoldable pub route_count : RouteInput R → Count → Result String RouteDecision
  route_count input (not_whole text) =
      throws (text_append "requirementCount must be a non-negative integer, got " text)
  route_count input (whole count) =
      let t : RoutingThresholds R = resolve_thresholds input.thresholds in
      let modes : Option (Modes R) =
        lookup input.repo (aggregate_routing_feedback input.feedback) in
      returns (record {
        plan_mode =
            plan_mode_for input.spec count t
              (bundle_supported t (mode_of bundle_feedback_mode modes))
              (fork_disabled t (mode_of fork_feedback_mode modes));
        tier = input.tier.name;
        lane = normalize_lane input.tier.lane;
      })

  unfoldable pub route_task : RouteInput R → Result String RouteDecision
  route_task input = route_count input input.spec.requirement_count
