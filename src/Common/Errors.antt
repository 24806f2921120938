-- ===== src/Common/Errors.antt =====
-- What a function that may throw comes to.
use mathlib.Core.Path.{◌≡◌, refl}

pub data Result {ℓ} (E A : Type ℓ) : Type ℓ where
  returns : A → Result E A
  throws : E → Result E A

infixl 5 ◌>>=◌
-- The rest of the code runs if the step before it returns.
abbrev pub ◌>>=◌ {ℓ} : {E A B : Type ℓ} → Result E A → (A → Result E B) → Result E B
throws e >>= rest = throws e
returns a >>= rest = rest a

module _ {ℓ} {E A B : Type ℓ} (rest : A → Result E B) (b : B) where
  -- If the whole returns, the step returned a value and so did the rest.
  pub >>=-eq-returns :
      (step : Result E A)
      → (step >>= rest) ≡ returns b
      → (a : A) × (step ≡ returns a) × (rest a ≡ returns b)
  >>=-eq-returns (throws e) h = cc
  >>=-eq-returns (returns a) h = (a, refl, h)
