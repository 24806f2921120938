-- ===== src/Continuation/Kept/Enforced.antt =====
-- That enforceBudget of continuation/pruner.ts keeps an entry.
use mathlib.Core.Path.{subst}
use pi_task.Common.{
  ℕ, ◌+◌, ◌-◌, ◌≤◌, ◌<◌, ◌==◌, leb, String, ◌&&◌, not, Bool, true, false, Option, none, some, List,
  [], ◌∷◌, if◌then◌else◌, length, any, ◌≡◌, refl, inl, inr, arith, Bool-cases, Option-cases,
}
use pi_task.Continuation.{
  ContinuationEntry, Scored, is_tool_result, add_index, delete_index, pick, estimate_entry_tokens,
  total_tokens, sort_descending, find_kind, at_least_one, fill, swap, with_tool, no_entry,
  force_tool, kept_indices, enforce_budget, score_from,
}
use pi_task.Continuation.Budget.Scored.{All, OneOf, sort_descending-All, find_kind-OneOf}
use pi_task.Continuation.Kept.Indices.{
  Begins, Begins-insert_descending, HasIndex, HasIndexOrNone, has-add_index, has-single,
  length-pick,
}

module _ {S : Type 0} (above : S → S → Bool) (byte_length : String → ℕ) (budget n : ℕ) where
  abbrev IsInside : Scored S → Type 0
  IsInside s = s.index < n

  fill-HasIndexOrNone :
      (ss : List (Scored S)) (kept : List ℕ) (spent : ℕ)
      → All IsInside ss
      → HasIndexOrNone n kept
      → HasIndexOrNone n (fill above byte_length budget ss kept spent).0
  unfolding fill
  fill-HasIndexOrNone [] kept spent h c = c
  fill-HasIndexOrNone (s ∷ ss) kept spent h c =
      elim (Bool-cases (leb (spent + estimate_entry_tokens byte_length s.entry) budget)) [
        | inl e ↦
            rw (fill, e)
              (fill-HasIndexOrNone ss (add_index s.index kept)
                (spent + estimate_entry_tokens byte_length s.entry) h.1
                (inr (s.index, h.0, has-add_index s.index kept)))
        | inr e ↦ rw (fill, e) (fill-HasIndexOrNone ss kept spent h.1 c)
      ]

  swap-HasIndexOrNone :
      (kept : List ℕ) (spent : ℕ) (best : Scored S) (victim : Option (Scored S))
      → IsInside best
      → HasIndexOrNone n kept
      → HasIndexOrNone n (swap above byte_length budget kept spent best victim)
  swap-HasIndexOrNone kept spent best none inside c =
      elim (Bool-cases (leb (spent + estimate_entry_tokens byte_length best.entry) budget)) [
        | inl e ↦ rw e (inr (best.index, inside, has-add_index best.index kept))
        | inr e ↦ rw e c
      ]
  swap-HasIndexOrNone kept spent best (some victim) inside c =
      elim (Bool-cases (
        leb
          ((spent - estimate_entry_tokens byte_length victim.entry)
            + estimate_entry_tokens byte_length best.entry)
          budget)) [
            | inl e ↦ rw e (
                inr (best.index, inside, has-add_index best.index (delete_index victim.index kept)))
            | inr e ↦ elim (Bool-cases (length kept == 1)) [
              | inl one ↦ rw (e, one) (inr (best.index, inside, has-single best.index))
              | inr more ↦ rw (e, more) c
            ]
          ]

  force_tool-HasIndexOrNone :
      (entries : List ContinuationEntry) (sorted : List (Scored S)) (kept : List ℕ) (spent : ℕ)
      → All IsInside sorted
      → HasIndexOrNone n kept
      → HasIndexOrNone n (force_tool above byte_length budget entries sorted kept spent)
  unfolding force_tool
  force_tool-HasIndexOrNone entries sorted kept spent h c =
      forced
        (any is_tool_result entries
          && not (any is_tool_result (pick kept 0 entries))
          && not (no_entry above byte_length budget kept))
        (find_kind true sorted) (find_kind-OneOf IsInside true sorted h)
    where
      forced :
          (needed : Bool) (best : Option (Scored S))
          → OneOf IsInside best
          → HasIndexOrNone n
              (if needed then with_tool above byte_length budget sorted kept spent best else kept)
      forced false best p = c
      forced true none p = c
      forced true (some best) p = swap-HasIndexOrNone kept spent best _ p c

  at_least_one-HasIndex :
      (has_tool : Bool) (sorted : List (Scored S)) (kept : List ℕ)
      → All IsInside sorted
      → Begins above IsInside sorted
      → HasIndexOrNone n kept
      → HasIndex n (at_least_one has_tool sorted kept)
  unfolding at_least_one
  at_least_one-HasIndex has_tool sorted (k ∷ ks) h b (inl e) = cc
  at_least_one-HasIndex has_tool sorted (k ∷ ks) h b (inr p) = p
  at_least_one-HasIndex true sorted [] h (s, e, p) c = elim (Option-cases (find_kind true sorted)) [
    | inl f ↦ rw (f, e) (s.index, p, has-single s.index)
    | inr (t, f) ↦
        rw f (t.index, found t f (find_kind-OneOf IsInside true sorted h), has-single t.index)
  ]
    where
      found :
          (t : Scored S)
          → find_kind true sorted ≡ some t
          → OneOf IsInside (find_kind true sorted)
          → t.index < n
      found t f o = subst (λ x. OneOf IsInside x) f o
  at_least_one-HasIndex false sorted [] h (s, e, p) c = rw e (s.index, p, has-single s.index)

  enforce_budget-keeps :
      (scored : List (Scored S)) (entries : List ContinuationEntry)
      → length entries ≡ n
      → 1 ≤ n
      → All IsInside scored
      → Begins above IsInside (sort_descending above scored)
      → 1 ≤ length (enforce_budget above byte_length budget scored entries)
  unfolding enforce_budget kept_indices
  enforce_budget-keeps scored entries size some_entry h b =
      elim (Bool-cases (leb (total_tokens byte_length entries) budget)) [
        | inl e ↦ rw e (omega arith)
        | inr e ↦
            let sorted : List (Scored S) = sort_descending above scored in
            let sorted-All : All IsInside sorted = sort_descending-All above IsInside scored h in
            let (k, k_lt, kept) =
              at_least_one-HasIndex (any is_tool_result entries) sorted _ sorted-All b (
                force_tool-HasIndexOrNone entries sorted
                  (fill above byte_length budget sorted [] 0).0
                  (fill above byte_length budget sorted [] 0).1 sorted-All
                  (fill-HasIndexOrNone sorted [] 0 sorted-All (inl refl))) in
            rw e (length-pick _ k 0 entries kept (omega arith) (omega arith))
      ]

  score_from-IsInside :
      (score : ℕ → ContinuationEntry → S) (i : ℕ) (es : List ContinuationEntry)
      → i + length es ≤ n
      → All IsInside (score_from score i es)
  unfolding score_from
  score_from-IsInside score i [] h = tt
  score_from-IsInside score i (e ∷ es) h =
      (omega arith, score_from-IsInside score (i + 1) es (omega arith))

  pub scored-keeps :
      (score : ℕ → ContinuationEntry → S) (i : ℕ) (e : ContinuationEntry)
      → (es entries : List ContinuationEntry) → i + length (e ∷ es) ≡ n
      → length entries ≡ n
      → 1 ≤ length (enforce_budget above byte_length budget (score_from score i (e ∷ es)) entries)
  unfolding score_from
  scored-keeps score i e es entries at_end size =
      enforce_budget-keeps (score_from score i (e ∷ es)) entries size (omega arith)
        (score_from-IsInside score i (e ∷ es) (omega arith))
        (Begins-insert_descending above IsInside _
          (sort_descending above (score_from score (i + 1) es)) (omega arith)
          (sort_descending-All above IsInside (score_from score (i + 1) es)
            (score_from-IsInside score (i + 1) es (omega arith))))
