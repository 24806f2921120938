-- ===== src/Continuation/Examples.antt =====
-- Runs of continuation/pruner.ts with the score an entry's index, and every content of ten bytes.
use pi_task.Common.{
  ℕ, ◌≤◌, ltb, String, Bool, true, Option, none, some, List, [], ◌∷◌, length, ◌≡◌, refl, ◌⊎◌, arith,
}
use pi_task.Continuation.{
  ContinuationEntry, ScorerContext, has, add_index, delete_index, pick, estimate_entry_tokens,
  total_tokens, at_least_one, fill, force_tool, kept_indices, enforce_budget, is_retry, score_from,
  recency_tool_scorer, uniform_scorer,
}
use pi_task.Continuation.Kept.Always.{scorers_keep_an_entry}
use pi_task.Continuation.Retry.Indices.{IsSublist}
use pi_task.Continuation.Retry.Oldest.{retry_leaves_oldest}
use pi_task.Continuation.Scorers.{scorers_keep_to_budget}

abbrev ten : String → ℕ
ten s = 10

abbrev higher : ℕ → ℕ → Bool
higher a b = ltb b a

abbrev newest_first : Bool → ℕ → ℕ → ContinuationEntry → ℕ
newest_first retry n i e = i

-- A content of the given tokens.
abbrev entry_of : String → ℕ → ContinuationEntry
entry_of role n = record { role = role; tool_name = none; content = none; tokens = some n }

abbrev talk : List ContinuationEntry
talk = entry_of "toolResult" 4 ∷ entry_of "user" 3 ∷ entry_of "assistant" 5 ∷ []

abbrev retried : Option ScorerContext
retried = some (record { already_pruned = true; attempt_number = none; retry_budget_spent = none })

unfoldable kept_tokens : List ContinuationEntry → List (Option ℕ)
kept_tokens [] = []
kept_tokens (e ∷ es) = e.tokens ∷ kept_tokens es

-- The last two fit, and the first of them gives way to the tool result.
tool_result_comes_in :
    kept_tokens (recency_tool_scorer higher ten newest_first newest_first talk 9 none)
    ≡ some 4 ∷ some 5 ∷ []
unfolding has add_index delete_index pick estimate_entry_tokens total_tokens at_least_one fill
    force_tool kept_indices enforce_budget is_retry score_from recency_tool_scorer kept_tokens
tool_result_comes_in = refl

-- No tool result comes in where the swap is beyond the budget and two entries are kept.
tool_result_left_out :
    kept_tokens (
      uniform_scorer higher ten newest_first newest_first
        (entry_of "toolResult" 9 ∷ entry_of "user" 3 ∷ entry_of "assistant" 5 ∷ [])
        9
        retried)
    ≡ some 3 ∷ some 5 ∷ []
unfolding has add_index delete_index pick estimate_entry_tokens total_tokens at_least_one fill
    force_tool kept_indices enforce_budget is_retry score_from uniform_scorer kept_tokens
tool_result_left_out = refl

scorers_keep_to_budget_example :
    ((total_tokens ten (recency_tool_scorer higher ten newest_first newest_first talk 9 retried)
        ≤ 9)
      ⊎ (length (recency_tool_scorer higher ten newest_first newest_first talk 9 retried) ≤ 1))
    × ((total_tokens ten (uniform_scorer higher ten newest_first newest_first talk 9 retried) ≤ 9)
        ⊎ (length (uniform_scorer higher ten newest_first newest_first talk 9 retried) ≤ 1))
scorers_keep_to_budget_example =
    scorers_keep_to_budget higher ten newest_first newest_first talk 9 retried

scorers_keep_an_entry_example :
    (1
      ≤ length (
          recency_tool_scorer higher ten newest_first newest_first
            (entry_of "user" 3 ∷ entry_of "assistant" 5 ∷ [])
            0
            retried))
    × (1
        ≤ length (
            uniform_scorer higher ten newest_first newest_first
              (entry_of "user" 3 ∷ entry_of "assistant" 5 ∷ [])
              0
              retried))
scorers_keep_an_entry_example =
    scorers_keep_an_entry higher ten newest_first newest_first (entry_of "user" 3)
      (entry_of "assistant" 5 ∷ []) 0 retried

abbrev later : List ContinuationEntry
later = entry_of "assistant" 5 ∷ entry_of "user" 4 ∷ []

retry_leaves_oldest_example :
    IsSublist
      (recency_tool_scorer higher ten newest_first newest_first
        (entry_of "user" 3 ∷ later)
        9
        retried)
      later
unfolding is_retry total_tokens estimate_entry_tokens
retry_leaves_oldest_example =
    retry_leaves_oldest higher ten newest_first newest_first (entry_of "user" 3) later 9 retried
      refl (omega arith) refl (omega arith)
