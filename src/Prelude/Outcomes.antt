-- ===== src/Prelude/Outcomes.antt =====
-- What a Python call that may raise returns. The error type is the caller's.
use mathlib.Core.Path.{◌≡◌, refl}
use mathlib.Core.Bool.{Bool, true, false}
use mathlib.Core.Logic.{◌⊎◌, inl, inr}

pub data Outcome {ℓ} (E A : Type ℓ) : Type ℓ where
  ok : A → Outcome E A
  err : E → Outcome E A

infixl 5 ◌>>=◌ ◌>>◌
abbrev pub ◌>>=◌ {ℓ} : {E A B : Type ℓ} → Outcome E A → (A → Outcome E B) → Outcome E B
err problem >>= next = err problem
ok value >>= next = next value

abbrev pub ◌>>◌ : {E B : Type 0} → Outcome E (Unit {0}) → Outcome E B → Outcome E B
check >> rest = check >>= λ _. rest

-- `if test: raise error`
abbrev pub raise_if : {E : Type 0} → Bool → E → Outcome E (Unit {0})
raise_if true e = err e
raise_if false e = ok tt

abbrev pub is_ok {ℓ} : {E A : Type ℓ} → Outcome E A → Bool
is_ok (ok a) = true
is_ok (err e) = false

-- A chain that succeeds has succeeded at its first step, and then at the others.
pub >>=-eq-ok {ℓ} :
    {E A B : Type ℓ} (first : Outcome E A) (next : A → Outcome E B) {result : B}
    → (first >>= next) ≡ ok result
    → (value : A) × (first ≡ ok value) × (next value ≡ ok result)
>>=-eq-ok (err problem) next h = cc
>>=-eq-ok (ok value) next h = (value, refl, h)

pub Outcome-cases {ℓ} :
    {E A : Type ℓ} (outcome : Outcome E A)
    → ((value : A) × (outcome ≡ ok value)) ⊎ ((problem : E) × (outcome ≡ err problem))
Outcome-cases (err problem) = inr (problem, refl)
Outcome-cases (ok value) = inl (value, refl)

-- What holds of the value, if there is one.
abbrev pub Yields : {E A : Type 0} → (A → Type 0) → Outcome E A → Type 0
Yields {A = A} Holds outcome = (value : A) → outcome ≡ ok value → Holds value

pub Yields-bind :
    {E A B : Type 0} {Holds : B → Type 0} (first : Outcome E A) (next : A → Outcome E B)
    → ((value : A) → first ≡ ok value → Yields Holds (next value))
    → Yields Holds (first >>= next)
Yields-bind (err problem) next h = λ value e. absurd (cc)
Yields-bind (ok value) next h = h value refl
