-- ===== src/Common/Keys.antt =====
-- JavaScript's `Set<string>` and `Map<string, V>`, by their insertion order.
use Prim.Native.String.{String}
use mathlib.Core.Path.{◌≡◌, refl, ap}
use mathlib.Core.Bool.{Bool, false, ◌||◌}
use mathlib.Core.Option.{Option, none, some}
use mathlib.Core.List.{List, [], ◌∷◌, ◌++◌}
use native.Mathlib.Omega.{arith}
use text.Mathlib.Text.{◌==◌}
use text.Mathlib.TextEquality.{eq_iff}
use pi_task.Common.Tests.{if◌then◌else◌}

abbrev pub str_eq : String → String → Bool
str_eq a b = a == b

-- `set.has(k)`, `xs.includes(k)`
unfoldable pub contains : String → List String → Bool
contains k [] = false
contains k (j ∷ ks) = str_eq j k || contains k ks

-- `set.add(k)`
unfoldable pub add : String → List String → List String
unfolding contains
add k ks = if contains k ks then ks else ks ++ k ∷ []

-- `set.delete(k)`
unfoldable pub delete : String → List String → List String
delete k [] = []
delete k (j ∷ ks) = let rest = delete k ks in if str_eq j k then rest else j ∷ rest

-- No text stands twice.
abbrev pub IsDistinct : List String → Type 0
IsDistinct [] = Unit
IsDistinct (k ∷ ks) = (contains k ks ≡ false) × IsDistinct ks

pub contains-append :
    (k : String) (xs ys : List String) → contains k (xs ++ ys) ≡ (contains k xs || contains k ys)
unfolding contains
contains-append k [] ys = refl
contains-append k (x ∷ xs) ys = ground (arith, contains-append k xs ys)

pub contains-delete :
    (k j : String) (xs : List String)
    → contains j (delete k xs) ≡ (if str_eq k j then false else contains j xs)
unfolding contains delete
contains-delete k j [] = ground arith
contains-delete k j (x ∷ xs) =
    ground (arith, contains-delete k j xs, eq_iff k j, eq_iff x k, eq_iff x j)

pub contains-snoc :
    (k j : String) (xs : List String) → contains j (xs ++ k ∷ []) ≡ (contains j xs || str_eq k j)
unfolding contains
contains-snoc k j [] = ground arith
contains-snoc k j (x ∷ xs) = ground (arith, contains-snoc k j xs)

pub contains-add :
    (k j : String) (xs : List String) → contains j (add k xs) ≡ (contains j xs || str_eq k j)
unfolding add
contains-add k j xs = ground (arith, contains-snoc k j xs, eq_iff k j)

module _ {ℓ} {V : Type ℓ} where
  -- `map.get(k)`
  unfoldable pub lookup : String → List (String × V) → Option V
  lookup k [] = none
  lookup k ((j, v) ∷ m) = if str_eq j k then some v else lookup k m

  -- `map.set(k, v)`: a key that is there keeps its place.
  unfoldable pub put : String → V → List (String × V) → List (String × V)
  put k v [] = (k, v) ∷ []
  put k v ((j, w) ∷ m) = if str_eq j k then (j, v) ∷ m else (j, w) ∷ put k v m

  -- `map.delete(k)`
  unfoldable pub remove : String → List (String × V) → List (String × V)
  remove k [] = []
  remove k ((j, w) ∷ m) = let rest = remove k m in if str_eq j k then rest else (j, w) ∷ rest

  -- `[...map.keys()]`
  abbrev pub keys : List (String × V) → List String
  keys [] = []
  keys ((k, v) ∷ m) = k ∷ keys m

  pub lookup-put :
      (k j : String) (v : V) (m : List (String × V))
      → lookup j (put k v m) ≡ (if str_eq k j then some v else lookup j m)
  unfolding lookup put
  lookup-put k j v [] = refl
  lookup-put k j v ((i, w) ∷ m) =
      ground (arith, eq_iff k j, eq_iff i k, eq_iff i j, lookup-put k j v m)

  pub lookup-remove :
      (k j : String) (m : List (String × V))
      → lookup j (remove k m) ≡ (if str_eq k j then none else lookup j m)
  unfolding lookup remove
  lookup-remove k j [] = ground arith
  lookup-remove k j ((i, w) ∷ m) =
      ground (arith, eq_iff k j, eq_iff i k, eq_iff i j, lookup-remove k j m)

  -- A new key goes to the end.
  pub put_new :
      (k : String) (v : V) (m : List (String × V))
      → contains k (keys m) ≡ false
      → put k v m ≡ m ++ (k, v) ∷ []
  unfolding put contains
  put_new k v [] h = refl
  put_new k v ((j, w) ∷ m) h = ground (arith, put_new k v m)

  pub keys-append : (m n : List (String × V)) → keys (m ++ n) ≡ keys m ++ keys n
  keys-append [] n = refl
  keys-append ((k, v) ∷ m) n = ap (λ t. k ∷ t) (keys-append m n)

  pub keys-remove : (k : String) (m : List (String × V)) → keys (remove k m) ≡ delete k (keys m)
  unfolding remove delete
  keys-remove k [] = refl
  keys-remove k ((j, w) ∷ m) = ground (arith, keys-remove k m)
