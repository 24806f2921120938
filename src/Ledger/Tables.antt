-- ===== src/Ledger/Tables.antt =====
-- A table with a text as its primary key: the rows by their key, in the order they were inserted.
use pi_task.Common.{
  String, ◌≡◌, refl, Bool, true, false, Option, none, some, List, [], ◌∷◌, if◌then◌else◌, str_eq,
  lookup, keys, arith, eq_iff,
}

-- A statement for the row that a column refers to: with a null there, none.
abbrev pub at_reference {ℓ} : {V : Type ℓ} → Option String → (String → V → V) → V → V
at_reference none f rows = rows
at_reference (some id) f rows = f id rows

module _ {ℓ} {V : Type ℓ} where
  -- `UPDATE … WHERE id = k`
  unfoldable pub adjust : String → (V → V) → List (String × V) → List (String × V)
  adjust k f [] = []
  adjust k f ((j, v) ∷ m) =
      let rest = adjust k f m in if str_eq j k then (j, f v) ∷ rest else (j, v) ∷ rest

  abbrev pub on_row : Bool → (V → V) → Option V → Option V
  on_row true f (some v) = some (f v)
  on_row true f none = none
  on_row false f o = o

  pub lookup-adjust :
      (k j : String) (f : V → V) (m : List (String × V))
      → lookup j (adjust k f m) ≡ on_row (str_eq k j) f (lookup j m)
  unfolding lookup adjust
  lookup-adjust k j f [] = ground arith
  lookup-adjust k j f ((i, v) ∷ m) =
      ground (arith, eq_iff k j, eq_iff i k, eq_iff i j, lookup-adjust k j f m)

  pub keys-adjust : (k : String) (f : V → V) (m : List (String × V)) → keys (adjust k f m) ≡ keys m
  unfolding adjust
  keys-adjust k f [] = refl
  keys-adjust k f ((j, v) ∷ m) = ground (arith, keys-adjust k f m)
