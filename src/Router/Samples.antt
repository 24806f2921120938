-- ===== src/Router/Samples.antt =====
-- What the router of packages/core-v2/src/router/route.ts counts of its feedback.
use pi_task.Common.{
  ℕ, zero, suc, ◌+◌, String, ◌&&◌, Bool, true, false, Option, none, some, List, [], ◌∷◌,
  if◌then◌else◌, lookup, put, str_eq, ◌≡◌, refl, ap, ◌∙◌, arith, eq_iff, inl, inr, Bool-cases,
  lookup-put,
}
use mathlib.Core.Path.{subst}
use pi_task.Router.{
  Hit, flag, number, is_hit, RoutingFeedbackRow, Rates, ModeRate, layered, Modes, ByRepo, mode_of,
  unsampled, sampled, add_row, add_rows,
}

abbrev pub is_for : String → String → RoutingFeedbackRow → Bool
is_for repo mode row = str_eq row.repo repo && str_eq row.mode mode

-- How many rows a repository has of a mode, and how many of them are hits.
unfoldable pub samples : String → String → List RoutingFeedbackRow → ℕ
samples repo mode [] = 0
samples repo mode (row ∷ rows) = (if is_for repo mode row then 1 else 0) + samples repo mode rows

-- One for `true` and for `1`.
abbrev pub hit_count : Hit → ℕ
hit_count (flag true) = 1
hit_count (flag false) = 0
hit_count (number zero) = 0
hit_count (number (suc zero)) = 1
hit_count (number (suc (suc n))) = 0

is_hit-hit_count : (h : Hit) → (if is_hit h then 1 else 0) ≡ hit_count h
unfolding is_hit
is_hit-hit_count (flag true) = refl
is_hit-hit_count (flag false) = refl
is_hit-hit_count (number zero) = refl
is_hit-hit_count (number (suc zero)) = refl
is_hit-hit_count (number (suc (suc n))) = ground arith

unfoldable pub clean : String → String → List RoutingFeedbackRow → ℕ
clean repo mode [] = 0
clean repo mode (row ∷ rows) =
    (if is_for repo mode row then hit_count row.hit else 0) + clean repo mode rows

module _ {R : Type 0} (rates : Rates R) where
  -- No samples are no evidence.
  abbrev pub summary : ℕ → ℕ → Option (ModeRate R)
  summary zero hits = none
  summary (suc n) hits =
      some (record { total = suc n; hits = hits; rate = rates.ratio hits (suc n) })

  abbrev rate_in : String → String → ByRepo R → Option (ModeRate R)
  rate_in repo mode m = mode_of mode (lookup repo m)

  lookup-layered :
      (mode : String) (o : Option (Modes R)) → lookup mode (layered [] o) ≡ mode_of mode o
  unfolding lookup
  lookup-layered mode none = refl
  lookup-layered mode (some modes) = refl

  put-rate_in :
      (row : RoutingFeedbackRow) (mode : String) (m : ByRepo R)
      → let modes : Modes R = layered [] (lookup row.repo m) in
        lookup mode (
          put row.mode
            (sampled rates (is_hit row.hit) (layered (unsampled rates) (lookup row.mode modes)))
            modes)
        ≡ (if str_eq row.mode mode
            then some (
                sampled rates
                  (is_hit row.hit)
                  (layered (unsampled rates) (rate_in row.repo mode m)))
            else rate_in row.repo mode m)
  put-rate_in row mode m =
      lookup-put row.mode mode
        (sampled rates (is_hit row.hit) (layered (unsampled rates) (lookup row.mode modes))) modes
      ∙ go (str_eq row.mode mode) refl
    where
      modes : Modes R
      modes = layered [] (lookup row.repo m)

      go :
          (b : Bool)
          → str_eq row.mode mode ≡ b
          → (if b
              then some (
                  sampled rates
                    (is_hit row.hit)
                    (layered (unsampled rates) (lookup row.mode modes)))
              else lookup mode modes)
            ≡ (if b
                then some (
                    sampled rates
                      (is_hit row.hit)
                      (layered (unsampled rates) (rate_in row.repo mode m)))
                else rate_in row.repo mode m)
      go true h =
          ap (λ o. some (sampled rates (is_hit row.hit) (layered (unsampled rates) o)))
            (ap (λ k. lookup k modes) ((eq_iff row.mode mode).0 h)
              ∙ lookup-layered mode (lookup row.repo m))
      go false h = lookup-layered mode (lookup row.repo m)

  add_row-rate_in :
      (row : RoutingFeedbackRow) (repo mode : String) (m : ByRepo R)
      → rate_in repo mode (add_row rates row m) ≡ (
          if is_for repo mode row
          then some
              (sampled rates (is_hit row.hit) (layered (unsampled rates) (rate_in repo mode m)))
          else rate_in repo mode m)
  unfolding add_row
  add_row-rate_in row repo mode m =
      ap (mode_of mode) (lookup-put row.repo repo added m) ∙ go (str_eq row.repo repo) refl
    where
      added : Modes R
      added =
          let modes : Modes R = layered [] (lookup row.repo m) in
          put row.mode
            (sampled rates (is_hit row.hit) (layered (unsampled rates) (lookup row.mode modes)))
            modes

      go :
          (b : Bool)
          → str_eq row.repo repo ≡ b
          → mode_of mode (if b then some added else lookup repo m) ≡ (
              if b && str_eq row.mode mode
              then some
                  (sampled rates (is_hit row.hit) (layered (unsampled rates) (rate_in repo mode m)))
              else rate_in repo mode m)
      go true h =
          subst
            (λ r. lookup mode added ≡ (
              if str_eq row.mode mode
              then some
                  (sampled rates (is_hit row.hit) (layered (unsampled rates) (rate_in r mode m)))
              else rate_in r mode m))
            ((eq_iff row.repo repo).0 h) (put-rate_in row mode m)
      go false h = refl

  summary_some :
      (n hits : ℕ)
      → (n ≡ 0 → ⊥)
      → some (record { total = n; hits = hits; rate = rates.ratio hits n }) ≡ summary n hits
  summary_some zero hits h = elim (h refl) [ ]
  summary_some (suc n) hits h = refl

  sampled-summary :
      (hit : Bool) (n hits : ℕ)
      → (n ≡ 0 → hits ≡ 0)
      → some (sampled rates hit (layered (unsampled rates) (summary n hits)))
        ≡ summary (n + 1) (hits + (if hit then 1 else 0))
  sampled-summary true zero hits h = rw (h refl) refl
  sampled-summary false zero hits h = rw (h refl) refl
  sampled-summary true (suc n) hits h = summary_some (suc n + 1) (hits + 1) (λ e. omega arith)
  sampled-summary false (suc n) hits h =
      summary_some (suc n + 1) hits (λ e. omega arith) ∙ ap (summary (suc n + 1)) (omega arith)

  pub summary_eq : (n k hits cleans : ℕ) → n ≡ k → hits ≡ cleans → summary n hits ≡ summary k cleans
  summary_eq n k hits cleans e f = ap (λ x. summary x hits) e ∙ ap (summary k) f

  pub add_rows-rate_in :
      (rows : List RoutingFeedbackRow) (repo mode : String) (m : ByRepo R) (n hits : ℕ)
      → (n ≡ 0 → hits ≡ 0)
      → rate_in repo mode m ≡ summary n hits
      → rate_in repo mode (add_rows rates rows m)
        ≡ summary (n + samples repo mode rows) (hits + clean repo mode rows)
  unfolding add_rows samples clean
  add_rows-rate_in [] repo mode m n hits z h =
      h ∙ summary_eq n (n + 0) hits (hits + 0) (omega arith) (omega arith)
  add_rows-rate_in (row ∷ rows) repo mode m n hits z h = elim (Bool-cases (is_for repo mode row)) [
    | inl here ↦
        let hit : ℕ = if is_hit row.hit then 1 else 0 in
        rw here (
          add_rows-rate_in rows repo mode (add_row rates row m) (n + 1) (hits + hit)
            (λ e. omega arith)
            (add_row-rate_in row repo mode m
              ∙ rw (here, h) (sampled-summary (is_hit row.hit) n hits z))
          ∙ summary_eq (n + 1 + samples repo mode rows) (n + (1 + samples repo mode rows))
              (hits + hit + clean repo mode rows)
              (hits + (hit_count row.hit + clean repo mode rows)) (omega arith)
              (omega (arith, is_hit-hit_count row.hit)))
    | inr other ↦ rw other (
        add_rows-rate_in rows repo mode (add_row rates row m) n hits z
          (add_row-rate_in row repo mode m ∙ rw other h)
        ∙ summary_eq (n + samples repo mode rows) (n + (0 + samples repo mode rows))
            (hits + clean repo mode rows) (hits + (0 + clean repo mode rows)) (omega arith)
            (omega arith))
  ]
