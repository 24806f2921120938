-- ===== src/Continuation/Kept/Indices.antt =====
-- What continuation/pruner.ts picks by an index in range.
use pi_task.Common.{
  ℕ, ◌+◌, ◌≤◌, ◌<◌, ◌==◌, Bool, true, some, List, [], ◌∷◌, ◌++◌, length, ◌≡◌, refl, ◌⊎◌, inl, inr,
  arith, ap, ◌∙◌, Bool-cases,
}
use pi_task.Continuation.{ContinuationEntry, Scored, has, add_index, pick, insert_descending, first}
use pi_task.Continuation.Budget.Scored.{All}

-- An index in range is kept, or none is kept yet.
abbrev pub HasIndex : ℕ → List ℕ → Type 0
HasIndex n ks = (k : ℕ) × (k < n) × (has k ks ≡ true)

abbrev pub HasIndexOrNone : ℕ → List ℕ → Type 0
HasIndexOrNone n ks = (ks ≡ []) ⊎ HasIndex n ks

has_self : (k : ℕ) → (k == k) ≡ true
has_self k = ground arith

has-snoc : (k : ℕ) (ks : List ℕ) → has k (ks ++ k ∷ []) ≡ true
unfolding has
has-snoc k [] = rw (has_self k) refl
has-snoc k (j ∷ js) = elim (Bool-cases (j == k)) [
  | inl e ↦ rw e refl
  | inr e ↦ rw e (has-snoc k js)
]

pub has-add_index : (k : ℕ) (ks : List ℕ) → has k (add_index k ks) ≡ true
unfolding add_index
has-add_index k ks = elim (Bool-cases (has k ks)) [ inl e ↦ rw e e | inr e ↦ rw e (has-snoc k ks) ]

pub has-single : (k : ℕ) → has k (k ∷ []) ≡ true
unfolding has
has-single k = rw (has_self k) refl

same_index : (i k : ℕ) → (i == k) ≡ true → i ≡ k
same_index i k h = ground arith

has_same : (ks : List ℕ) (k i : ℕ) → (i == k) ≡ true → has k ks ≡ true → has i ks ≡ true
has_same ks k i e h = ap (λ x. has x ks) (same_index i k e) ∙ h

pub length-pick :
    (ks : List ℕ) (k i : ℕ) (es : List ContinuationEntry)
    → has k ks ≡ true
    → i ≤ k
    → k < i + length es
    → 1 ≤ length (pick ks i es)
unfolding pick
length-pick ks k i [] h low high = omega arith
length-pick ks k i (e ∷ es) h low high = elim (Bool-cases (i == k)) [
  | inl same ↦ rw (has_same ks k i same h) (omega arith)
  | inr other ↦ elim (Bool-cases (has i ks)) [
    | inl p ↦ rw p (omega arith)
    | inr p ↦ rw p (length-pick ks k (i + 1) es h (ground arith) (omega arith))
  ]
]

module _ {S : Type 0} (above : S → S → Bool) (P : Scored S → Type 0) where
  abbrev pub Begins : List (Scored S) → Type 0
  Begins xs = (s : Scored S) × (first xs ≡ some s) × P s

  pub Begins-insert_descending :
      (x : Scored S) (xs : List (Scored S)) → P x → All P xs → Begins (insert_descending above x xs)
  Begins-insert_descending x [] p h = (x, refl, p)
  Begins-insert_descending x (y ∷ ys) p h = elim (Bool-cases (above y.score x.score)) [
    | inl e ↦ rw e (y, refl, h.0)
    | inr e ↦ rw e (x, refl, p)
  ]
