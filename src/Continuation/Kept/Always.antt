-- ===== src/Continuation/Kept/Always.antt =====
-- That both scorers of continuation/pruner.ts keep an entry.
use pi_task.Common.{
  ℕ, ◌≤◌, ltb, String, ◌&&◌, not, Bool, true, false, Option, List, [], ◌∷◌, if◌then◌else◌, length,
  any, refl, inl, inr, arith, Bool-cases,
}
use pi_task.Continuation.{
  ContinuationEntry, ScorerContext, is_tool_result, enforce_budget, is_retry, score_from,
  recency_tool_scorer, uniform_scorer,
}
use pi_task.Continuation.Kept.Enforced.{scored-keeps}

module _ {S : Type 0} (above : S → S → Bool) (byte_length : String → ℕ)
    (recency_score uniform_score : Bool → ℕ → ℕ → ContinuationEntry → S) where
  recency_tool_scorer-keeps :
      (e : ContinuationEntry) (es : List ContinuationEntry) (budget : ℕ)
      → (context : Option ScorerContext)
      → 1
        ≤ length (
            recency_tool_scorer above byte_length recency_score uniform_score
              (e ∷ es)
              budget
              context)
  unfolding recency_tool_scorer
  recency_tool_scorer-keeps e [] budget context = elim (Bool-cases (is_retry context)) [
    | inl r ↦
        rw r (scored-keeps above byte_length budget 1 (recency_score true 1) 0 e [] _ refl refl)
    | inr r ↦
        rw r (scored-keeps above byte_length budget 1 (recency_score false 1) 0 e [] _ refl refl)
  ]
  recency_tool_scorer-keeps e (f ∷ es) budget context = scored (
      is_retry context
      && ltb 1 (length (e ∷ f ∷ es))
      && not (is_tool_result e && not (any is_tool_result (f ∷ es))))
    where
      scored :
          (shift : Bool)
          → 1
            ≤ length (
                enforce_budget above byte_length budget
                  (if shift
                    then score_from
                        (recency_score (is_retry context) (length (e ∷ f ∷ es)))
                        1
                        (f ∷ es)
                    else score_from
                        (recency_score (is_retry context) (length (e ∷ f ∷ es)))
                        0
                        (e ∷ f ∷ es))
                  (e ∷ f ∷ es))
      scored true =
          scored-keeps above byte_length budget (length (e ∷ f ∷ es)) _ 1 f es _ (omega arith) refl
      scored false =
          scored-keeps above byte_length budget (length (e ∷ f ∷ es)) _ 0 e (f ∷ es) _ (omega arith)
            refl

  -- Either scorer keeps an entry where there is one, whatever the budget and the scores.
  pub scorers_keep_an_entry :
      (e : ContinuationEntry) (es : List ContinuationEntry) (budget : ℕ)
      → (context : Option ScorerContext)
      → (1
          ≤ length (
              recency_tool_scorer above byte_length recency_score uniform_score
                (e ∷ es)
                budget
                context))
        × (1
            ≤ length (
                uniform_scorer above byte_length recency_score uniform_score
                  (e ∷ es)
                  budget
                  context))
  unfolding uniform_scorer
  scorers_keep_an_entry e es budget context = (
    recency_tool_scorer-keeps e es budget context,
    scored-keeps above byte_length budget (length (e ∷ es)) _ 0 e es _ (omega arith) refl,
  )
