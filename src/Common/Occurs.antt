-- ===== src/Common/Occurs.antt =====
-- How often a text stands in a list, and what that says of lengths.
use Prim.Native.Nat.{ℕ, suc, ◌+◌, ◌≤◌, ◌<◌}
use Prim.Native.String.{String}
use mathlib.Core.Path.{◌≡◌, refl}
use mathlib.Core.List.{List, [], ◌∷◌, ◌++◌}
use native.Mathlib.Omega.{arith}
use text.Mathlib.TextEquality.{eq_iff}
use pi_task.Common.Tests.{if◌then◌else◌, ltb}
use pi_task.Common.Lists.{length}
use pi_task.Common.Keys.{str_eq, contains, IsDistinct}

unfoldable pub occurs : String → List String → ℕ
occurs k [] = 0
occurs k (j ∷ ks) = let rest = occurs k ks in if str_eq j k then suc rest else rest

pub occurs-append :
    (k : String) (xs ys : List String) → occurs k (xs ++ ys) ≡ occurs k xs + occurs k ys
unfolding occurs
occurs-append k [] ys = omega arith
occurs-append k (x ∷ xs) ys = ground (arith, occurs-append k xs ys)

pub contains-occurs : (k : String) (xs : List String) → contains k xs ≡ ltb 0 (occurs k xs)
unfolding occurs contains
contains-occurs k [] = refl
contains-occurs k (x ∷ xs) = ground (arith, contains-occurs k xs)

pub occurs_of_distinct :
    (k : String) (xs : List String) → IsDistinct xs → occurs k xs ≡ (if contains k xs then 1 else 0)
unfolding occurs contains
occurs_of_distinct k [] d = refl
occurs_of_distinct k (x ∷ xs) d = ground (arith, eq_iff x k, occurs_of_distinct k xs d.1)

pub IsDistinct-of_occurs : (xs : List String) → ((k : String) → occurs k xs ≤ 1) → IsDistinct xs
unfolding occurs
IsDistinct-of_occurs [] h = tt
IsDistinct-of_occurs (x ∷ xs) h = (
  ground (arith, h x, contains-occurs x xs, eq_iff x x),
  IsDistinct-of_occurs xs (λ k. ground (arith, h k)),
)

-- One occurrence taken out.
take_out : String → List String → List String
take_out k [] = []
take_out k (x ∷ xs) = let rest = take_out k xs in if str_eq x k then xs else x ∷ rest

occurs-take_out :
    (k j : String) (xs : List String)
    → 0 < occurs k xs
    → (occurs j xs
        ≡ (if str_eq k j then suc (occurs j (take_out k xs)) else occurs j (take_out k xs)))
      × (length xs ≡ suc (length (take_out k xs)))
unfolding occurs take_out
occurs-take_out k j [] h = absurd (omega arith)
occurs-take_out k j (x ∷ xs) h =
    ground (arith, eq_iff x k, eq_iff k j, eq_iff x j, occurs-take_out k j xs)

module _ (x : String) (xs ys : List String)
    (h : (k : String) → occurs k (x ∷ xs) ≤ occurs k ys) where
  head_there : 0 < occurs x ys
  unfolding occurs
  head_there = ground (arith, h x, eq_iff x x)

  tail_le : (k : String) → occurs k xs ≤ occurs k (take_out x ys)
  unfolding occurs
  tail_le k = ground (arith, h k, (occurs-take_out x k ys head_there).0)

-- If nothing stands more often in `xs` than in `ys`, then `xs` is no longer than `ys`.
pub length-le_of_occurs :
    (xs ys : List String) → ((k : String) → occurs k xs ≤ occurs k ys) → length xs ≤ length ys
length-le_of_occurs [] ys h = omega arith
length-le_of_occurs (x ∷ xs) ys h = omega (
  arith,
  length-le_of_occurs xs (take_out x ys) (tail_le x xs ys h),
  (occurs-take_out x x ys (head_there x xs ys h)).1,
)

-- If they are as long as one another, they hold the same texts as often.
pub occurs-eq_of_length :
    (xs ys : List String)
    → ((k : String) → occurs k xs ≤ occurs k ys)
    → length xs ≡ length ys
    → (k : String) → occurs k xs ≡ occurs k ys
unfolding occurs
occurs-eq_of_length [] [] h e k = refl
occurs-eq_of_length [] (y ∷ ys) h e k = absurd (omega arith)
occurs-eq_of_length (x ∷ xs) ys h e k =
    let there = head_there x xs ys h in
    let rest =
      occurs-eq_of_length xs (take_out x ys) (tail_le x xs ys h)
        (omega (arith, (occurs-take_out x x ys there).1)) k in
    ground (arith, (occurs-take_out x k ys there).0)
