-- ===== src/Continuation/Budget/Scored.antt =====
-- The scored entries that continuation/pruner.ts sorts, filters and finds.
use pi_task.Common.{
  ℕ, Bool, true, false, Option, none, some, List, [], ◌∷◌, ◌≡◌, inl, inr, Bool-cases,
}
use pi_task.Continuation.{
  Scored, is_tool_result, has, insert_descending, sort_descending, insert_ascending, sort_ascending,
  find_kind, keep_indices,
}

-- Every scored entry is the entry at its index.
abbrev pub All : {S : Type 0} → (Scored S → Type 0) → List (Scored S) → Type 0
All P [] = Unit
All P (s ∷ ss) = P s × All P ss

abbrev pub OneOf : {S : Type 0} → (Scored S → Type 0) → Option (Scored S) → Type 0
OneOf P none = Unit
OneOf P (some s) = P s

module _ {S : Type 0} (above : S → S → Bool) (P : Scored S → Type 0) where
  insert_descending-All :
      (x : Scored S) (xs : List (Scored S)) → P x → All P xs → All P (insert_descending above x xs)
  insert_descending-All x [] p h = (p, tt)
  insert_descending-All x (y ∷ ys) p h = elim (Bool-cases (above y.score x.score)) [
    | inl e ↦ rw e (h.0, insert_descending-All x ys p h.1)
    | inr e ↦ rw e (p, h)
  ]

  pub sort_descending-All : (xs : List (Scored S)) → All P xs → All P (sort_descending above xs)
  sort_descending-All [] h = tt
  sort_descending-All (x ∷ xs) h =
      insert_descending-All x (sort_descending above xs) h.0 (sort_descending-All xs h.1)

  insert_ascending-All :
      (x : Scored S) (xs : List (Scored S)) → P x → All P xs → All P (insert_ascending above x xs)
  insert_ascending-All x [] p h = (p, tt)
  insert_ascending-All x (y ∷ ys) p h = elim (Bool-cases (above x.score y.score)) [
    | inl e ↦ rw e (h.0, insert_ascending-All x ys p h.1)
    | inr e ↦ rw e (p, h)
  ]

  pub sort_ascending-All : (xs : List (Scored S)) → All P xs → All P (sort_ascending above xs)
  sort_ascending-All [] h = tt
  sort_ascending-All (x ∷ xs) h =
      insert_ascending-All x (sort_ascending above xs) h.0 (sort_ascending-All xs h.1)

module _ {S : Type 0} (P : Scored S → Type 0) where
  pub find_kind-OneOf :
      (tool : Bool) (xs : List (Scored S)) → All P xs → OneOf P (find_kind tool xs)
  find_kind-OneOf tool [] h = tt
  find_kind-OneOf true (x ∷ xs) h = elim (Bool-cases (is_tool_result x.entry)) [
    | inl e ↦ rw e h.0
    | inr e ↦ rw e (find_kind-OneOf true xs h.1)
  ]
  find_kind-OneOf false (x ∷ xs) h = elim (Bool-cases (is_tool_result x.entry)) [
    | inl e ↦ rw e (find_kind-OneOf false xs h.1)
    | inr e ↦ rw e h.0
  ]

  pub keep_indices-All :
      (kept : List ℕ) (xs : List (Scored S))
      → All P xs
      → All (λ s. (has s.index kept ≡ true) × P s) (keep_indices kept xs)
  keep_indices-All kept [] h = tt
  keep_indices-All kept (x ∷ xs) h = elim (Bool-cases (has x.index kept)) [
    | inl e ↦ rw e ((e, h.0), keep_indices-All kept xs h.1)
    | inr e ↦ rw e (keep_indices-All kept xs h.1)
  ]
