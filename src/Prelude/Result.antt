-- ===== src/Prelude/Result.antt =====
-- What a Python function does to its caller: it returns a value, or raises an error.
use mathlib.Core.Path.{◌≡◌, refl}
use mathlib.Core.Bool.{Bool, true, false}

pub data Result {ℓ} (E A : Type ℓ) : Type ℓ where
  ok : A → Result E A
  err : E → Result E A

module _ {ℓ} {E A B : Type ℓ} where
  infixl 5 ◌>>=◌
  abbrev pub ◌>>=◌ : Result E A → (A → Result E B) → Result E B
  ok a >>= f = f a
  err e >>= f = err e

  -- A chain that returns a value has returned one at its first step.
  pub >>=-returns :
      (first : Result E A) (next : A → Result E B) {value : B}
      → (first >>= next) ≡ ok value
      → (middle : A) × (first ≡ ok middle) × (next middle ≡ ok value)
  >>=-returns (err raised) next returned = absurd cc
  >>=-returns (ok middle) next returned = (middle, refl, returned)

module _ {ℓ} {E A : Type ℓ} where
  abbrev pub is_ok : Result E A → Bool
  is_ok (ok a) = true
  is_ok (err e) = false
