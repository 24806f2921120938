-- ===== src/Continuation/Scorers.antt =====
-- That the two scorers of continuation/pruner.ts keep to their budget.
use pi_task.Common.{
  ℕ, ◌+◌, ◌≤◌, ◌==◌, ltb, String, ◌&&◌, not, Bool, true, false, Option, List, [], ◌∷◌,
  if◌then◌else◌, length, any, ◌≡◌, refl, ◌⊎◌, inr, arith,
}
use pi_task.Continuation.{
  ContinuationEntry, Scored, ScorerContext, is_tool_result, estimate_entry_tokens, total_tokens,
  is_retry, score_from, enforce_budget, recency_tool_scorer, uniform_scorer,
}
use pi_task.Continuation.Budget.Costs.{tokens_at}
use pi_task.Continuation.Budget.Scored.{All}
use pi_task.Continuation.Budget.Fits.{enforce_budget-IsFitting}

All-map :
    {S : Type 0} (P Q : Scored S → Type 0) (f : (s : Scored S) → P s → Q s) (xs : List (Scored S))
    → All P xs
    → All Q xs
All-map P Q f [] h = tt
All-map P Q f (x ∷ xs) h = (f x h.0, All-map P Q f xs h.1)

same_self : (i : ℕ) → (i == i) ≡ true
same_self i = ground arith

not_before : (i k : ℕ) → i + 1 ≤ k → (i == k) ≡ false
not_before i k h = ground arith

module _ {S : Type 0} (byte_length : String → ℕ) where
  -- A scored entry is the one at its index, of a list that begins at another.
  abbrev IsPlaced : ℕ → List ContinuationEntry → Scored S → Type 0
  IsPlaced i es s =
      (i ≤ s.index)
      × (estimate_entry_tokens byte_length s.entry ≡ tokens_at byte_length s.index i es)

  IsPlaced-later :
      (i : ℕ) (e : ContinuationEntry) (es : List ContinuationEntry) (s : Scored S)
      → IsPlaced (i + 1) es s
      → IsPlaced i (e ∷ es) s
  unfolding tokens_at
  IsPlaced-later i e es s (h, p) = (omega arith, rw (not_before i s.index h) p)

  score_from-IsPlaced :
      (score : ℕ → ContinuationEntry → S) (i : ℕ) (es : List ContinuationEntry)
      → All (IsPlaced i es) (score_from score i es)
  unfolding score_from tokens_at
  score_from-IsPlaced score i [] = tt
  score_from-IsPlaced score i (e ∷ es) = (
    (omega arith, rw (same_self i) refl),
    All-map (IsPlaced (i + 1) es) (IsPlaced i (e ∷ es)) (IsPlaced-later i e es) _
        (score_from-IsPlaced score (i + 1) es),
  )

module _ {S : Type 0} (above : S → S → Bool) (byte_length : String → ℕ)
    (recency_score uniform_score : Bool → ℕ → ℕ → ContinuationEntry → S) where
  recency_tool_scorer-fits :
      (entries : List ContinuationEntry) (budget : ℕ) (context : Option ScorerContext)
      → (total_tokens byte_length (
            recency_tool_scorer above byte_length recency_score uniform_score entries budget
              context)
          ≤ budget)
        ⊎ (length (
              recency_tool_scorer above byte_length recency_score uniform_score entries budget
                context)
            ≤ 1)
  unfolding recency_tool_scorer
  recency_tool_scorer-fits [] budget context = inr (omega arith)
  recency_tool_scorer-fits (e ∷ es) budget context = scored (
      is_retry context
      && ltb 1 (length (e ∷ es))
      && not (is_tool_result e && not (any is_tool_result es)))
    where
      scored :
          (shift : Bool)
          → (total_tokens byte_length (
                enforce_budget above byte_length budget
                  (if shift
                    then score_from (recency_score (is_retry context) (length (e ∷ es))) 1 es
                    else score_from (recency_score (is_retry context) (length (e ∷ es))) 0 (e ∷ es))
                  (e ∷ es))
              ≤ budget)
            ⊎ (length (
                  enforce_budget above byte_length budget
                    (if shift
                      then score_from (recency_score (is_retry context) (length (e ∷ es))) 1 es
                      else score_from
                          (recency_score (is_retry context) (length (e ∷ es)))
                          0
                          (e ∷ es))
                    (e ∷ es))
                ≤ 1)
      scored true = enforce_budget-IsFitting above byte_length budget (e ∷ es) _ (
          All-map (IsPlaced byte_length 1 es) _ (λ s p. (IsPlaced-later byte_length 0 e es s p).1) _
            (score_from-IsPlaced byte_length (recency_score (is_retry context) (length (e ∷ es))) 1
              es))
      scored false = enforce_budget-IsFitting above byte_length budget (e ∷ es) _ (
          All-map (IsPlaced byte_length 0 (e ∷ es)) _ (λ s p. p.1) _
            (score_from-IsPlaced byte_length (recency_score (is_retry context) (length (e ∷ es))) 0
              (e ∷ es)))

  uniform_scorer-fits :
      (entries : List ContinuationEntry) (budget : ℕ) (context : Option ScorerContext)
      → (total_tokens byte_length
            (uniform_scorer above byte_length recency_score uniform_score entries budget context)
          ≤ budget)
        ⊎ (length
              (uniform_scorer above byte_length recency_score uniform_score entries budget context)
            ≤ 1)
  unfolding uniform_scorer
  uniform_scorer-fits [] budget context = inr (omega arith)
  uniform_scorer-fits (e ∷ es) budget context =
      enforce_budget-IsFitting above byte_length budget (e ∷ es) _ (
        All-map (IsPlaced byte_length 0 (e ∷ es)) _ (λ s p. p.1) _
          (score_from-IsPlaced byte_length (uniform_score (is_retry context) (length (e ∷ es))) 0
            (e ∷ es)))

  -- Whatever the scores, what either scorer keeps costs no more tokens than the budget, or is at
  -- most one entry.
  pub scorers_keep_to_budget :
      (entries : List ContinuationEntry) (budget : ℕ) (context : Option ScorerContext)
      → ((total_tokens byte_length (
              recency_tool_scorer above byte_length recency_score uniform_score entries budget
                context)
            ≤ budget)
          ⊎ (length (
                recency_tool_scorer above byte_length recency_score uniform_score entries budget
                  context)
              ≤ 1))
        × ((total_tokens byte_length (
                uniform_scorer above byte_length recency_score uniform_score entries budget context)
              ≤ budget)
            ⊎ (length (
                  uniform_scorer above byte_length recency_score uniform_score entries budget
                    context)
                ≤ 1))
  scorers_keep_to_budget entries budget context =
      (recency_tool_scorer-fits entries budget context, uniform_scorer-fits entries budget context)
