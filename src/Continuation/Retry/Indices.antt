-- ===== src/Continuation/Retry/Indices.antt =====
-- Indices of continuation/pruner.ts among which the first is not.
use pi_task.Common.{ℕ, ◌+◌, ◌≤◌, false, List, [], ◌∷◌, ◌++◌, ◌≡◌, refl, inl, inr, arith, Bool-cases}
use pi_task.Continuation.{ContinuationEntry, has, add_index, delete_index, pick}

-- The first entries are some of the second, in their order.
pub data IsSublist : List ContinuationEntry → List ContinuationEntry → Type 0 where
  ends : IsSublist [] []
  drops :
      {e : ContinuationEntry} {xs ys : List ContinuationEntry}
      → IsSublist xs ys
      → IsSublist xs (e ∷ ys)
  keeps :
      {e : ContinuationEntry} {xs ys : List ContinuationEntry}
      → IsSublist xs ys
      → IsSublist (e ∷ xs) (e ∷ ys)

pub pick-IsSublist :
    (ks : List ℕ) (i : ℕ) (es : List ContinuationEntry) → IsSublist (pick ks i es) es
unfolding pick
pick-IsSublist ks i [] = ends
pick-IsSublist ks i (e ∷ es) = elim (Bool-cases (has i ks)) [
  | inl p ↦ rw p (keeps (pick-IsSublist ks (i + 1) es))
  | inr p ↦ rw p (drops (pick-IsSublist ks (i + 1) es))
]

-- The first index is not kept.
abbrev pub Lacks : List ℕ → Type 0
Lacks ks = has 0 ks ≡ false

Lacks-snoc : (k : ℕ) (ks : List ℕ) → 1 ≤ k → Lacks ks → Lacks (ks ++ k ∷ [])
unfolding has
Lacks-snoc k [] h l = ground arith
Lacks-snoc k (j ∷ js) h l = ground (arith, Lacks-snoc k js h)

pub Lacks-add_index : (k : ℕ) (ks : List ℕ) → 1 ≤ k → Lacks ks → Lacks (add_index k ks)
unfolding add_index
Lacks-add_index k ks h l = elim (Bool-cases (has k ks)) [
  | inl e ↦ rw e l
  | inr e ↦ rw e (Lacks-snoc k ks h l)
]

pub Lacks-delete_index : (k : ℕ) (ks : List ℕ) → Lacks ks → Lacks (delete_index k ks)
unfolding delete_index has
Lacks-delete_index k [] l = refl
Lacks-delete_index k (j ∷ js) l = ground (arith, Lacks-delete_index k js)

pub Lacks-single : (k : ℕ) → 1 ≤ k → Lacks (k ∷ [])
unfolding has
Lacks-single k h = ground arith
