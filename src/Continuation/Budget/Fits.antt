-- ===== src/Continuation/Budget/Fits.antt =====
-- That what enforceBudget of continuation/pruner.ts keeps is within the budget, or a single entry.
use pi_task.Common.{
  ℕ, ◌+◌, ◌-◌, ◌≤◌, ◌==◌, leb, leb→le, String, ◌&&◌, not, Bool, true, false, Option, none, some,
  List, [], ◌∷◌, if◌then◌else◌, length, any, ◌≡◌, refl, ◌⊎◌, inl, inr, arith, Bool-cases,
  Option-cases,
}
use pi_task.Continuation.{
  ContinuationEntry, Scored, is_tool_result, has, add_index, delete_index, pick,
  estimate_entry_tokens, total_tokens, sort_descending, sort_ascending, find_kind, keep_indices,
  first, at_least_one, fill, swap, with_tool, no_entry, force_tool, kept_indices, enforce_budget,
}
use pi_task.Continuation.Budget.Costs.{
  cost, cost-add_index, cost-delete_index, pick-cost, pick_single, tokens_at,
}
use pi_task.Continuation.Budget.Scored.{
  All, OneOf, find_kind-OneOf, keep_indices-All, sort_ascending-All, sort_descending-All,
}

module _ {S : Type 0} (above : S → S → Bool) (byte_length : String → ℕ) (budget : ℕ)
    (entries : List ContinuationEntry) where
  abbrev pub IsAtIndex : Scored S → Type 0
  IsAtIndex s = estimate_entry_tokens byte_length s.entry ≡ tokens_at byte_length s.index 0 entries

  -- The greedy pass spends at least what is kept costs, and no more than the budget.
  fill-cost :
      (ss : List (Scored S)) (kept : List ℕ) (spent : ℕ)
      → All IsAtIndex ss
      → cost byte_length entries kept ≤ spent
      → spent ≤ budget
      → (cost byte_length entries (fill above byte_length budget ss kept spent).0
          ≤ (fill above byte_length budget ss kept spent).1)
        × ((fill above byte_length budget ss kept spent).1 ≤ budget)
  unfolding fill
  fill-cost [] kept spent h c b = (c, b)
  fill-cost (s ∷ ss) kept spent h c b =
      elim (Bool-cases (leb (spent + estimate_entry_tokens byte_length s.entry) budget)) [
        | inl e ↦
            rw (fill, e)
              (fill-cost ss (add_index s.index kept)
                (spent + estimate_entry_tokens byte_length s.entry) h.1
                (omega (arith, cost-add_index byte_length entries kept s.index, h.0))
                (leb→le _ _ e))
        | inr e ↦ rw (fill, e) (fill-cost ss kept spent h.1 c b)
      ]

  -- What is kept costs no more than the budget, or is one index.
  abbrev IsSmall : List ℕ → Type 0
  IsSmall ks = (cost byte_length entries ks ≤ budget) ⊎ ((k : ℕ) × (ks ≡ k ∷ []))

  swap-IsSmall :
      (kept : List ℕ) (spent : ℕ) (best : Scored S) (victim : Option (Scored S))
      → cost byte_length entries kept ≤ spent
      → spent ≤ budget
      → IsAtIndex best
      → OneOf (λ s. (has s.index kept ≡ true) × IsAtIndex s) victim
      → IsSmall (swap above byte_length budget kept spent best victim)
  swap-IsSmall kept spent best none c b at_best at_victim =
      elim (Bool-cases (leb (spent + estimate_entry_tokens byte_length best.entry) budget)) [
        | inl e ↦ rw e (
            inl (
              omega
                (arith, cost-add_index byte_length entries kept best.index, at_best, leb→le _ _ e)))
        | inr e ↦ rw e (inl (omega arith))
      ]
  swap-IsSmall kept spent best (some victim) c b at_best (there, at_victim) =
      elim (Bool-cases (
        leb
          ((spent - estimate_entry_tokens byte_length victim.entry)
            + estimate_entry_tokens byte_length best.entry)
          budget)) [
            | inl e ↦ rw e (
                inl (
                  omega (
                    arith,
                    cost-add_index byte_length entries (delete_index victim.index kept) best.index,
                    cost-delete_index byte_length entries kept victim.index there,
                    at_best,
                    at_victim,
                    leb→le _ _ e,
                  )))
            | inr e ↦ elim (Bool-cases (length kept == 1)) [
              | inl one ↦ rw (e, one) (inr (best.index, refl))
              | inr more ↦ rw (e, more) (inl (omega arith))
            ]
          ]

  force_tool-IsSmall :
      (sorted : List (Scored S)) (kept : List ℕ) (spent : ℕ)
      → All IsAtIndex sorted
      → cost byte_length entries kept ≤ spent
      → spent ≤ budget
      → IsSmall (force_tool above byte_length budget entries sorted kept spent)
  unfolding force_tool
  force_tool-IsSmall sorted kept spent h c b =
      forced
        (any is_tool_result entries
          && not (any is_tool_result (pick kept 0 entries))
          && not (no_entry above byte_length budget kept))
        (find_kind true sorted) (find_kind-OneOf IsAtIndex true sorted h)
    where
      forced :
          (needed : Bool) (best : Option (Scored S))
          → OneOf IsAtIndex best
          → IsSmall
              (if needed then with_tool above byte_length budget sorted kept spent best else kept)
      forced false best p = inl (omega arith)
      forced true none p = inl (omega arith)
      forced true (some best) p = swap-IsSmall kept spent best _ c b p (
          find_kind-OneOf (λ s. (has s.index kept ≡ true) × IsAtIndex s) false
            (sort_ascending above (keep_indices kept sorted))
            (sort_ascending-All above (λ s. (has s.index kept ≡ true) × IsAtIndex s)
              (keep_indices kept sorted) (keep_indices-All IsAtIndex kept sorted h)))

  at_least_one-IsSmall :
      (has_tool : Bool) (sorted : List (Scored S)) (kept : List ℕ)
      → IsSmall kept
      → IsSmall (at_least_one has_tool sorted kept)
  unfolding at_least_one cost
  at_least_one-IsSmall has_tool sorted (k ∷ ks) h = h
  at_least_one-IsSmall true sorted [] h = elim (Option-cases (find_kind true sorted)) [
    | inl e ↦ elim (Option-cases (first sorted)) [
      | inl f ↦ rw (e, f) (inr (0, refl))
      | inr (s, f) ↦ rw (e, f) (inr (s.index, refl))
    ]
    | inr (s, e) ↦ rw e (inr (s.index, refl))
  ]
  at_least_one-IsSmall false [] [] h = inl (omega arith)
  at_least_one-IsSmall false (s ∷ ss) [] h = inr (s.index, refl)

  -- The entries fit the budget, or there is at most one.
  abbrev pub IsFitting : List ContinuationEntry → Type 0
  IsFitting out = (total_tokens byte_length out ≤ budget) ⊎ (length out ≤ 1)

  picked-IsFitting : (ks : List ℕ) → IsSmall ks → IsFitting (pick ks 0 entries)
  picked-IsFitting ks (inl h) = inl (omega (arith, pick-cost byte_length ks entries))
  picked-IsFitting ks (inr (k, e)) = rw e (inr (pick_single k 0 entries))

  pub enforce_budget-IsFitting :
      (scored : List (Scored S))
      → All IsAtIndex scored
      → IsFitting (enforce_budget above byte_length budget scored entries)
  unfolding enforce_budget kept_indices cost
  enforce_budget-IsFitting scored h =
      elim (Bool-cases (leb (total_tokens byte_length entries) budget)) [
        | inl e ↦ rw e (inl (leb→le _ _ e))
        | inr e ↦
            let sorted : List (Scored S) = sort_descending above scored in
            let sorted-All : All IsAtIndex sorted = sort_descending-All above IsAtIndex scored h in
            let (c, b) = fill-cost sorted [] 0 sorted-All (omega arith) (omega arith) in
            rw e (
              picked-IsFitting (kept_indices above byte_length budget entries sorted) (
                at_least_one-IsSmall (any is_tool_result entries) sorted _ (
                  force_tool-IsSmall sorted (fill above byte_length budget sorted [] 0).0
                    (fill above byte_length budget sorted [] 0).1 sorted-All c b)))
      ]
