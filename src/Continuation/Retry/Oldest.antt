-- ===== src/Continuation/Retry/Oldest.antt =====
-- That a retry of continuation/pruner.ts leaves the oldest entry out.
use mathlib.Core.Path.{subst}
use pi_task.Common.{
  ℕ, ◌+◌, ◌-◌, ◌≤◌, ◌<◌, ◌==◌, leb, ltb, String, ◌&&◌, not, Bool, true, false, Option, none, some,
  List, [], ◌∷◌, if◌then◌else◌, length, any, ◌≡◌, refl, inl, inr, arith, Bool-cases, Option-cases,
}
use pi_task.Continuation.{
  ContinuationEntry, Scored, ScorerContext, is_tool_result, has, add_index, delete_index, pick,
  estimate_entry_tokens, total_tokens, sort_descending, find_kind, at_least_one, fill, swap,
  with_tool, no_entry, force_tool, kept_indices, enforce_budget, is_retry, score_from,
  recency_tool_scorer,
}
use pi_task.Continuation.Budget.Scored.{All, OneOf, sort_descending-All, find_kind-OneOf}
use pi_task.Continuation.Kept.Indices.{Begins, Begins-insert_descending}
use pi_task.Continuation.Retry.Indices.{
  IsSublist, Lacks, Lacks-add_index, Lacks-delete_index, Lacks-single, pick-IsSublist,
}

module _ {S : Type 0} (above : S → S → Bool) (byte_length : String → ℕ) (budget : ℕ) where
  abbrev IsLater : Scored S → Type 0
  IsLater s = 1 ≤ s.index

  fill-Lacks :
      (ss : List (Scored S)) (kept : List ℕ) (spent : ℕ)
      → All IsLater ss
      → Lacks kept
      → Lacks (fill above byte_length budget ss kept spent).0
  unfolding fill
  fill-Lacks [] kept spent h l = l
  fill-Lacks (s ∷ ss) kept spent h l =
      elim (Bool-cases (leb (spent + estimate_entry_tokens byte_length s.entry) budget)) [
        | inl e ↦
            rw (fill, e)
              (fill-Lacks ss (add_index s.index kept)
                (spent + estimate_entry_tokens byte_length s.entry) h.1
                (Lacks-add_index s.index kept h.0 l))
        | inr e ↦ rw (fill, e) (fill-Lacks ss kept spent h.1 l)
      ]

  swap-Lacks :
      (kept : List ℕ) (spent : ℕ) (best : Scored S) (victim : Option (Scored S))
      → IsLater best
      → Lacks kept
      → Lacks (swap above byte_length budget kept spent best victim)
  swap-Lacks kept spent best none later l =
      elim (Bool-cases (leb (spent + estimate_entry_tokens byte_length best.entry) budget)) [
        | inl e ↦ rw e (Lacks-add_index best.index kept later l)
        | inr e ↦ rw e l
      ]
  swap-Lacks kept spent best (some victim) later l =
      elim (Bool-cases (
        leb
          ((spent - estimate_entry_tokens byte_length victim.entry)
            + estimate_entry_tokens byte_length best.entry)
          budget)) [
            | inl e ↦ rw e (
                Lacks-add_index best.index (delete_index victim.index kept) later
                  (Lacks-delete_index victim.index kept l))
            | inr e ↦ elim (Bool-cases (length kept == 1)) [
              | inl one ↦ rw (e, one) (Lacks-single best.index later)
              | inr more ↦ rw (e, more) l
            ]
          ]

  force_tool-Lacks :
      (entries : List ContinuationEntry) (sorted : List (Scored S)) (kept : List ℕ) (spent : ℕ)
      → All IsLater sorted
      → Lacks kept
      → Lacks (force_tool above byte_length budget entries sorted kept spent)
  unfolding force_tool
  force_tool-Lacks entries sorted kept spent h l =
      forced
        (any is_tool_result entries
          && not (any is_tool_result (pick kept 0 entries))
          && not (no_entry above byte_length budget kept))
        (find_kind true sorted) (find_kind-OneOf IsLater true sorted h)
    where
      forced :
          (needed : Bool) (best : Option (Scored S))
          → OneOf IsLater best
          → Lacks
              (if needed then with_tool above byte_length budget sorted kept spent best else kept)
      forced false best p = l
      forced true none p = l
      forced true (some best) p = swap-Lacks kept spent best _ p l

  at_least_one-Lacks :
      (has_tool : Bool) (sorted : List (Scored S)) (kept : List ℕ)
      → All IsLater sorted
      → Begins above IsLater sorted
      → Lacks kept
      → Lacks (at_least_one has_tool sorted kept)
  unfolding at_least_one
  at_least_one-Lacks has_tool sorted (k ∷ ks) h b l = l
  at_least_one-Lacks true sorted [] h (s, e, p) l = elim (Option-cases (find_kind true sorted)) [
    | inl f ↦ rw (f, e) (Lacks-single s.index p)
    | inr (t, f) ↦ rw f (Lacks-single t.index (found t f (find_kind-OneOf IsLater true sorted h)))
  ]
    where
      found :
          (t : Scored S)
          → find_kind true sorted ≡ some t
          → OneOf IsLater (find_kind true sorted)
          → 1 ≤ t.index
      found t f o = subst (λ x. OneOf IsLater x) f o
  at_least_one-Lacks false sorted [] h (s, e, p) l = rw e (Lacks-single s.index p)

  score_from-IsLater :
      (score : ℕ → ContinuationEntry → S) (i : ℕ) (es : List ContinuationEntry)
      → 1 ≤ i
      → All IsLater (score_from score i es)
  unfolding score_from
  score_from-IsLater score i [] h = tt
  score_from-IsLater score i (e ∷ es) h = (h, score_from-IsLater score (i + 1) es (omega arith))

  -- When the candidates begin with the second entry, what is kept is of those behind the first.
  enforce_budget-later :
      (score : ℕ → ContinuationEntry → S) (e f : ContinuationEntry) (fs : List ContinuationEntry)
      → budget < total_tokens byte_length (e ∷ f ∷ fs)
      → IsSublist
          (enforce_budget above byte_length budget (score_from score 1 (f ∷ fs)) (e ∷ f ∷ fs))
          (f ∷ fs)
  unfolding enforce_budget kept_indices score_from has pick
  enforce_budget-later score e f fs over =
      let scored : List (Scored S) = score_from score 1 (f ∷ fs) in
      let sorted : List (Scored S) = sort_descending above scored in
      let later : All IsLater scored = score_from-IsLater score 1 (f ∷ fs) (omega arith) in
      let sorted-All : All IsLater sorted = sort_descending-All above IsLater scored later in
      let begins : Begins above IsLater sorted =
        Begins-insert_descending above IsLater _ (sort_descending above (score_from score 2 fs))
          (omega arith) (sort_descending-All above IsLater (score_from score 2 fs) later.1) in
      let lacks =
        at_least_one-Lacks (any is_tool_result (e ∷ f ∷ fs)) sorted
          (force_tool above byte_length budget (e ∷ f ∷ fs) sorted
            (fill above byte_length budget sorted [] 0).0
            (fill above byte_length budget sorted [] 0).1)
          sorted-All begins
          (force_tool-Lacks (e ∷ f ∷ fs) sorted (fill above byte_length budget sorted [] 0).0
            (fill above byte_length budget sorted [] 0).1 sorted-All
            (fill-Lacks sorted [] 0 sorted-All refl)) in
      rw (within (total_tokens byte_length (e ∷ f ∷ fs)) over)
        (picked (kept_indices above byte_length budget (e ∷ f ∷ fs) sorted) lacks)
    where
      within : (n : ℕ) → budget < n → leb n budget ≡ false
      within n h = ground arith

      picked : (ks : List ℕ) → Lacks ks → IsSublist (pick ks 0 (e ∷ f ∷ fs)) (f ∷ fs)
      picked ks l = rw l (pick-IsSublist ks 1 (f ∷ fs))

-- On a retry of a list that is over the budget, what the recency scorer keeps is some of the entries
-- behind the oldest, in their order, whatever the scores, unless the oldest is alone or the only
-- tool result.
pub retry_leaves_oldest :
    {S : Type 0} (above : S → S → Bool) (byte_length : String → ℕ)
    (recency_score uniform_score : Bool → ℕ → ℕ → ContinuationEntry → S) (e : ContinuationEntry)
    (es : List ContinuationEntry) (budget : ℕ) (context : Option ScorerContext)
    → is_retry context ≡ true
    → 1 ≤ length es
    → (is_tool_result e && not (any is_tool_result es)) ≡ false
    → budget < total_tokens byte_length (e ∷ es)
    → IsSublist
        (recency_tool_scorer above byte_length recency_score uniform_score (e ∷ es) budget context)
        es
unfolding recency_tool_scorer
retry_leaves_oldest above byte_length recency_score uniform_score e [] budget context r some_more
      tool over =
    absurd (omega arith)
retry_leaves_oldest above byte_length recency_score uniform_score e (f ∷ fs) budget context r
      some_more tool over =
    rw (r, more, tool)
      (enforce_budget-later above byte_length budget (recency_score true (length (e ∷ f ∷ fs))) e f
        fs over)
  where
    more : ltb 1 (length (e ∷ f ∷ fs)) ≡ true
    more = ground arith
