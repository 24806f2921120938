-- ===== src/Continuation/Budget/Costs.antt =====
-- What a set of kept indices of continuation/pruner.ts costs.
use pi_task.Common.{
  ℕ, ◌+◌, ◌≤◌, ◌<◌, ◌==◌, String, Bool, true, false, List, [], ◌∷◌, ◌++◌, if◌then◌else◌, length,
  ◌≡◌, refl, ap, inl, inr, arith, Bool-cases,
}
use pi_task.Continuation.{
  ContinuationEntry, has, add_index, delete_index, pick, estimate_entry_tokens, total_tokens,
}

same_index : (k i : ℕ) → (k == i) ≡ true → k ≡ i
same_index k i h = ground arith

flipped : (k i : ℕ) (b : Bool) → (k == i) ≡ b → (i == k) ≡ b
flipped k i b h = ground arith

module _ (byte_length : String → ℕ) where
  -- The tokens of the entry at an index, of a list that begins at another.
  unfoldable pub tokens_at : ℕ → ℕ → List ContinuationEntry → ℕ
  tokens_at k i [] = 0
  tokens_at k i (e ∷ es) =
      let rest = tokens_at k (i + 1) es in
      if i == k then estimate_entry_tokens byte_length e else rest

  -- What the kept indices cost.
  unfoldable pub cost : List ContinuationEntry → List ℕ → ℕ
  cost es [] = 0
  cost es (k ∷ ks) = tokens_at k 0 es + cost es ks

  tokens_at_past : (k i : ℕ) (es : List ContinuationEntry) → k < i → tokens_at k i es ≡ 0
  unfolding tokens_at
  tokens_at_past k i [] h = refl
  tokens_at_past k i (e ∷ es) h = ground (arith, tokens_at_past k (i + 1) es)

  pick_cons :
      (k : ℕ) (ks : List ℕ) (i : ℕ) (es : List ContinuationEntry)
      → total_tokens byte_length (pick (k ∷ ks) i es)
        ≤ tokens_at k i es + total_tokens byte_length (pick ks i es)
  unfolding pick has total_tokens tokens_at
  pick_cons k ks i [] = ground arith
  pick_cons k ks i (e ∷ es) = elim (Bool-cases (k == i)) [
    | inl here ↦ elim (Bool-cases (has i ks)) [
      | inl p ↦
          rw (here, flipped k i true here, p)
            (omega (arith, pick_cons k ks (i + 1) es, tokens_at_past k (i + 1) es (ground arith)))
      | inr p ↦
          rw (here, flipped k i true here, p)
            (omega (arith, pick_cons k ks (i + 1) es, tokens_at_past k (i + 1) es (ground arith)))
    ]
    | inr other ↦ elim (Bool-cases (has i ks)) [
      | inl p ↦ rw (other, flipped k i false other, p) (omega (arith, pick_cons k ks (i + 1) es))
      | inr p ↦ rw (other, flipped k i false other, p) (pick_cons k ks (i + 1) es)
    ]
  ]

  pick_none : (i : ℕ) (es : List ContinuationEntry) → pick [] i es ≡ []
  unfolding pick has
  pick_none i [] = refl
  pick_none i (e ∷ es) = pick_none (i + 1) es

  -- What is picked costs at most what its indices cost.
  pub pick-cost :
      (ks : List ℕ) (es : List ContinuationEntry)
      → total_tokens byte_length (pick ks 0 es) ≤ cost es ks
  unfolding cost total_tokens
  pick-cost [] es = rw (pick_none 0 es) (omega arith)
  pick-cost (k ∷ ks) es = omega (arith, pick_cons k ks 0 es, pick-cost ks es)

  cost-snoc :
      (es : List ContinuationEntry) (ks : List ℕ) (k : ℕ)
      → cost es (ks ++ k ∷ []) ≡ cost es ks + tokens_at k 0 es
  unfolding cost
  cost-snoc es [] k = omega arith
  cost-snoc es (j ∷ js) k = omega (arith, cost-snoc es js k)

  pub cost-add_index :
      (es : List ContinuationEntry) (ks : List ℕ) (k : ℕ)
      → cost es (add_index k ks) ≤ cost es ks + tokens_at k 0 es
  unfolding add_index
  cost-add_index es ks k = ground (arith, cost-snoc es ks k)

  cost-delete_le :
      (es : List ContinuationEntry) (ks : List ℕ) (k : ℕ) → cost es (delete_index k ks) ≤ cost es ks
  unfolding delete_index cost
  cost-delete_le es [] k = omega arith
  cost-delete_le es (j ∷ js) k = ground (arith, cost-delete_le es js k)

  pub cost-delete_index :
      (es : List ContinuationEntry) (ks : List ℕ) (k : ℕ)
      → has k ks ≡ true
      → cost es (delete_index k ks) + tokens_at k 0 es ≤ cost es ks
  unfolding delete_index cost has
  cost-delete_index es [] k h = cc
  cost-delete_index es (j ∷ js) k h = elim (Bool-cases (j == k)) [
    | inl here ↦
        rw here
          (omega (arith, ap (λ x. tokens_at x 0 es) (same_index j k here), cost-delete_le es js k))
    | inr other ↦ rw other (omega (arith, cost-delete_index es js k (ground arith)))
  ]

pick_past : (k i : ℕ) (es : List ContinuationEntry) → k < i → pick (k ∷ []) i es ≡ []
unfolding pick has
pick_past k i [] h = refl
pick_past k i (e ∷ es) h = ground (arith, pick_past k (i + 1) es)

pub pick_single : (k i : ℕ) (es : List ContinuationEntry) → length (pick (k ∷ []) i es) ≤ 1
unfolding pick has
pick_single k i [] = omega arith
pick_single k i (e ∷ es) = elim (Bool-cases (k == i)) [
  | inl here ↦ rw (here, pick_past k (i + 1) es (ground arith)) (omega arith)
  | inr other ↦ rw other (pick_single k (i + 1) es)
]
