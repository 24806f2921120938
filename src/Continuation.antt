-- ===== src/Continuation.antt =====
-- packages/core-v2/src/continuation/pruner.ts: which entries of a continuation are kept within a
-- budget of tokens. Scores are floats: a type that is given with its order and with the score that
-- each of the two scorers gives.
pub mod Budget
pub mod Kept
pub mod Scorers
pub mod Retry
mod Examples
use pi_task.Common.{
  ℕ, zero, suc, ◌+◌, ◌-◌, ◌/◌, max, ◌==◌, leb, ltb, String, ◌&&◌, ◌||◌, not, Bool, true, false,
  Option, none, some, List, [], ◌∷◌, ◌++◌, if◌then◌else◌, length, keep, any, str_eq,
}

-- The text that is counted of a content, none when it is missing, and the tokens that are given,
-- rounded up, none when they are no finite non-negative number.
pub record ContinuationEntry : Type 0 where
  pub role : String
  pub tool_name : Option String
  pub content : Option String
  pub tokens : Option ℕ

pub record Scored (S : Type 0) : Type 0 where
  pub entry : ContinuationEntry
  pub score : S
  pub index : ℕ

abbrev pub is_tool_result : ContinuationEntry → Bool
is_tool_result e = str_eq e.role "toolResult"

unfoldable pub has : ℕ → List ℕ → Bool
has k [] = false
has k (j ∷ js) = (j == k) || has k js

-- `kept.add(k)` and `kept.delete(k)`
unfoldable pub add_index : ℕ → List ℕ → List ℕ
add_index k ks = if has k ks then ks else ks ++ k ∷ []

unfoldable pub delete_index : ℕ → List ℕ → List ℕ
delete_index k [] = []
delete_index k (j ∷ js) = let rest = delete_index k js in if j == k then rest else j ∷ rest

-- `out`: the entries whose index is kept, in their order.
unfoldable pub pick : List ℕ → ℕ → List ContinuationEntry → List ContinuationEntry
pick kept i [] = []
pick kept i (e ∷ es) = let rest = pick kept (i + 1) es in if has i kept then e ∷ rest else rest

module _ (byte_length : String → ℕ) where
  abbrev pub bytes_of : Option String → ℕ
  bytes_of none = 0
  bytes_of (some s) = byte_length s

  abbrev pub content_bytes : Option String → ℕ
  content_bytes none = 16
  content_bytes (some s) = byte_length s

  unfoldable pub estimate_entry_tokens : ContinuationEntry → ℕ
  estimate_entry_tokens e = given e.tokens
    where
      given : Option ℕ → ℕ
      given (some n) = max 1 n
      given none =
          max 1 ((content_bytes e.content + byte_length e.role + bytes_of e.tool_name + 3) / 4)

  unfoldable pub total_tokens : List ContinuationEntry → ℕ
  total_tokens [] = 0
  total_tokens (e ∷ es) = estimate_entry_tokens e + total_tokens es

module _ {S : Type 0} (above : S → S → Bool) where
  abbrev pub insert_descending : Scored S → List (Scored S) → List (Scored S)
  insert_descending x [] = x ∷ []
  insert_descending x (y ∷ ys) =
      let rest = insert_descending x ys in if above y.score x.score then y ∷ rest else x ∷ y ∷ ys

  -- `[...scored].sort((a, b) => b.score - a.score)`
  abbrev pub sort_descending : List (Scored S) → List (Scored S)
  sort_descending [] = []
  sort_descending (x ∷ xs) = insert_descending x (sort_descending xs)

  abbrev pub insert_ascending : Scored S → List (Scored S) → List (Scored S)
  insert_ascending x [] = x ∷ []
  insert_ascending x (y ∷ ys) =
      let rest = insert_ascending x ys in if above x.score y.score then y ∷ rest else x ∷ y ∷ ys

  abbrev pub sort_ascending : List (Scored S) → List (Scored S)
  sort_ascending [] = []
  sort_ascending (x ∷ xs) = insert_ascending x (sort_ascending xs)

module _ {S : Type 0} where
  -- `find((s) => isToolResult(s.entry) === tool)`
  abbrev pub find_kind : Bool → List (Scored S) → Option (Scored S)
  find_kind tool [] = none
  find_kind tool (s ∷ ss) =
      let rest = find_kind tool ss in
      if is_tool_result s.entry
      then (if tool then some s else rest)
      else (if tool then rest else some s)

  abbrev pub keep_indices : List ℕ → List (Scored S) → List (Scored S)
  keep_indices kept [] = []
  keep_indices kept (s ∷ ss) =
      let rest = keep_indices kept ss in if has s.index kept then s ∷ rest else rest

  abbrev pub single : Option (Scored S) → List ℕ
  single none = []
  single (some s) = s.index ∷ []

  abbrev pub first : List (Scored S) → Option (Scored S)
  first [] = none
  first (s ∷ ss) = some s

  -- When nothing is kept, the best tool result, or the best entry.
  unfoldable pub at_least_one : Bool → List (Scored S) → List ℕ → List ℕ
  at_least_one has_tool sorted (k ∷ ks) = k ∷ ks
  at_least_one true sorted [] = of_tool (find_kind true sorted)
    where
      of_tool : Option (Scored S) → List ℕ
      of_tool (some s) = s.index ∷ []
      of_tool none = at_first (first sorted)
        where
          at_first : Option (Scored S) → List ℕ
          at_first none = 0 ∷ []
          at_first (some s) = s.index ∷ []
  at_least_one false sorted [] = single (first sorted)

module _ {S : Type 0} (above : S → S → Bool) (byte_length : String → ℕ) (budget : ℕ) where
  -- The greedy pass, with what is kept and spent before it.
  unfoldable pub fill : List (Scored S) → List ℕ → ℕ → List ℕ × ℕ
  fill [] kept spent = (kept, spent)
  fill (s ∷ ss) kept spent =
      let tok = estimate_entry_tokens byte_length s.entry in
      let within = leb (spent + tok) budget in
      fill ss (if within then add_index s.index kept else kept)
        (if within then spent + tok else spent)

  abbrev pub swap : List ℕ → ℕ → Scored S → Option (Scored S) → List ℕ
  swap kept spent best none =
      if leb (spent + estimate_entry_tokens byte_length best.entry) budget
      then add_index best.index kept
      else kept
  swap kept spent best (some victim) =
      if leb
        ((spent - estimate_entry_tokens byte_length victim.entry)
          + estimate_entry_tokens byte_length best.entry)
        budget
      then add_index best.index (delete_index victim.index kept)
      else if length kept == 1
      then best.index ∷ []
      else kept

  abbrev pub with_tool : List (Scored S) → List ℕ → ℕ → Option (Scored S) → List ℕ
  with_tool sorted kept spent none = kept
  with_tool sorted kept spent (some best) =
      swap kept spent best (find_kind false (sort_ascending above (keep_indices kept sorted)))

  abbrev pub no_entry : List ℕ → Bool
  no_entry [] = true
  no_entry (k ∷ ks) = false

  -- A tool result is brought in when some entries are kept and none of them is one.
  unfoldable pub force_tool : List ContinuationEntry → List (Scored S) → List ℕ → ℕ → List ℕ
  force_tool entries sorted kept spent =
      if any is_tool_result entries
        && not (any is_tool_result (pick kept 0 entries))
        && not (no_entry kept)
      then with_tool sorted kept spent (find_kind true sorted)
      else kept

  unfoldable pub kept_indices : List ContinuationEntry → List (Scored S) → List ℕ
  kept_indices entries sorted =
      let (kept, spent) = fill sorted [] 0 in
      at_least_one (any is_tool_result entries) sorted (force_tool entries sorted kept spent)

  unfoldable pub enforce_budget : List (Scored S) → List ContinuationEntry → List ContinuationEntry
  enforce_budget scored entries =
      if leb (total_tokens byte_length entries) budget
      then entries
      else pick (kept_indices entries (sort_descending above scored)) 0 entries

-- The share of the retry budget that is spent is a number of parts.
pub record ScorerContext : Type 0 where
  pub already_pruned : Bool
  pub attempt_number : Option ℕ
  pub retry_budget_spent : Option ℕ

abbrev pub more_than : ℕ → Option ℕ → Bool
more_than n none = false
more_than n (some m) = ltb n m

unfoldable pub is_retry : Option ScorerContext → Bool
is_retry none = false
is_retry (some c) =
    c.already_pruned || more_than 1 c.attempt_number || more_than 0 c.retry_budget_spent

module _ {S : Type 0} where
  -- `entries.map((e, j) => ({ entry: e, score, index: j + start }))`
  unfoldable pub score_from :
      (ℕ → ContinuationEntry → S) → ℕ → List ContinuationEntry → List (Scored S)
  score_from score i [] = []
  score_from score i (e ∷ es) =
      record { entry = e; score = score i e; index = i } ∷ score_from score (i + 1) es

-- The score of an entry by whether it is a retry, the number of entries and its index.
module _ {S : Type 0} (above : S → S → Bool) (byte_length : String → ℕ)
    (recency_score uniform_score : Bool → ℕ → ℕ → ContinuationEntry → S) where
  -- A retry leaves the oldest entry out, unless it is alone or the only tool result.
  unfoldable pub recency_tool_scorer :
      List ContinuationEntry → ℕ → Option ScorerContext → List ContinuationEntry
  recency_tool_scorer [] budget context = []
  recency_tool_scorer (e ∷ es) budget context =
      let n = length (e ∷ es) in
      let retry = is_retry context in
      let score = recency_score retry n in
      let oldest_is_only_tool = is_tool_result e && not (any is_tool_result es) in
      enforce_budget above byte_length budget
        (if retry && ltb 1 n && not oldest_is_only_tool
          then score_from score 1 es
          else score_from score 0 (e ∷ es))
        (e ∷ es)

  unfoldable pub uniform_scorer :
      List ContinuationEntry → ℕ → Option ScorerContext → List ContinuationEntry
  uniform_scorer [] budget context = []
  uniform_scorer (e ∷ es) budget context =
      enforce_budget above byte_length budget
        (score_from (uniform_score (is_retry context) (length (e ∷ es))) 0 (e ∷ es)) (e ∷ es)
