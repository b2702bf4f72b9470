-- ===== src/Prelude/Results.antt =====
-- Go's (value, error) pair.
use mathlib.Core.Path.{◌≡◌, refl}
use mathlib.Core.Bool.{Bool, true, false}

pub data Result {ℓ} (E A : Type ℓ) : Type ℓ where
  ok : A → Result E A
  err : E → Result E A

-- The early return of an error.
infixl 5 ◌>>=◌
abbrev pub ◌>>=◌ {ℓ} : {E A B : Type ℓ} → Result E A → (A → Result E B) → Result E B
err failure >>= next = err failure
ok value >>= next = next value

infixl 5 ◌>>◌
abbrev pub ◌>>◌ : {E B : Type 0} → Result E (Unit {0}) → Result E B → Result E B
first >> second = first >>= λ done. second

-- `if bad { return e }`.
abbrev pub fail_if : {E : Type 0} → Bool → E → Result E (Unit {0})
fail_if true e = err e
fail_if false e = ok tt

-- A chain that succeeds has succeeded at its first step.
pub >>=-eq-ok {ℓ} :
    {E A B : Type ℓ} (step : Result E A) (next : A → Result E B) {b : B}
    → (step >>= next) ≡ ok b
    → (a : A) × (step ≡ ok a) × (next a ≡ ok b)
>>=-eq-ok (err failure) next e = cc
>>=-eq-ok (ok value) next e = (value, refl, e)
