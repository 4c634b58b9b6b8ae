-- ===== src/Prelude/Lists.antt =====
-- Lists measured by native numbers, membership of texts, and predicates by recursion.
use Prim.Native.Nat.{ℕ, suc, ◌+◌}
use Prim.Native.String.{String}
use mathlib.Core.Path.{◌≡◌, refl, subst}
use mathlib.Core.Logic.{inl, inr}
use mathlib.Core.Bool.{Bool, true, false, ◌||◌}
use mathlib.Core.List.{List, [], ◌∷◌, ◌++◌}
use mathlib.Core.Option.{Option, none, some}
use native.Mathlib.Omega.{arith}
use text.Mathlib.Text.{◌==◌ as str_eq}
use text.Mathlib.TextEquality.{eq_iff}
use finest_vx.Prelude.Tests.{Bool-cases}

module _ {ℓ} {A : Type ℓ} where
  abbrev pub length : List A → ℕ
  length [] = 0
  length (x ∷ xs) = suc (length xs)

  pub length-append : (xs ys : List A) → length (xs ++ ys) ≡ length xs + length ys
  length-append [] ys = omega arith
  length-append (x ∷ xs) ys = omega (arith, length-append xs ys)

abbrev pub All {ℓ κ} : {Item : Type ℓ} → (Item → Type κ) → List Item → Type κ
All Holds [] = Unit
All Holds (first ∷ rest) = Holds first × All Holds rest

-- `code in codes`, for a set or a sequence of texts.
abbrev pub contains : List String → String → Bool
contains [] a = false
contains (x ∷ xs) a = str_eq x a || contains xs a

pub contains-append :
    (xs ys : List String) (a : String) → contains (xs ++ ys) a ≡ (contains xs a || contains ys a)
contains-append [] ys a = refl
contains-append (x ∷ xs) ys a = ground (arith, contains-append xs ys a)

module _ {ℓ κ} {A : Type ℓ} (P : A → Type κ) where
  pub All-append : (before after : List A) → All P before → All P after → All P (before ++ after)
  All-append [] after h k = k
  All-append (x ∷ before) after (holds, h) k = (holds, All-append before after h k)

  pub All-last : (xs : List A) (y : A) → All P (xs ++ y ∷ []) → P y
  All-last [] y h = h.0
  All-last (x ∷ xs) y h = All-last xs y h.1

-- What holds of all members holds of one that `contains` finds.
pub All-contains {κ} :
    (P : String → Type κ) (xs : List String) (a : String) → All P xs → contains xs a ≡ true → P a
All-contains P [] a h e = ground arith
All-contains P (x ∷ xs) a h e = elim (Bool-cases (str_eq x a)) [
  | inl same ↦ subst P ((eq_iff x a).0 same) h.0
  | inr other ↦ All-contains P xs a h.1 (rw other at e)
]

-- No text stands twice.
abbrev pub Distinct : List String → Type 0
Distinct [] = Unit
Distinct (x ∷ xs) = (contains xs x ≡ false) × Distinct xs

abbrev pub Avoids : List String → List String → Type 0
Avoids seen = All (λ x. contains seen x ≡ false)

pub Avoids-append :
    (seen : List String) (x : String) (xs : List String)
    → contains xs x ≡ false
    → Avoids seen xs
    → Avoids (seen ++ x ∷ []) xs
Avoids-append seen x [] new h = tt
Avoids-append seen x (y ∷ xs) new (avoid, h) = (
  ground (arith, contains-append seen (x ∷ []) y, eq_iff x y, eq_iff y x),
  Avoids-append seen x xs (ground arith) h,
)

pub Avoids-append_inv :
    (seen : List String) (x : String) (xs : List String)
    → Avoids (seen ++ x ∷ []) xs
    → Avoids seen xs × (contains xs x ≡ false)
Avoids-append_inv seen x [] h = (tt, refl)
Avoids-append_inv seen x (y ∷ xs) (avoid, h) =
    let (old, new) = Avoids-append_inv seen x xs h in
    (
      (ground (arith, contains-append seen (x ∷ []) y), old),
      ground (arith, contains-append seen (x ∷ []) y, eq_iff x y, eq_iff y x),
    )

pub Avoids-nil : (xs : List String) → Avoids [] xs
Avoids-nil [] = tt
Avoids-nil (x ∷ xs) = (refl, Avoids-nil xs)

-- A stable sort, for `sorted` and ORDER BY.
module _ {ℓ} {A : Type ℓ} (le : A → A → Bool) where
  unfoldable pub insert_ordered : A → List A → List A
  insert_ordered x [] = x ∷ []
  insert_ordered x (y ∷ rest) =
      let onward = insert_ordered x rest in
      elim (le x y) [ true ↦ x ∷ y ∷ rest | false ↦ y ∷ onward ]

  unfoldable pub order_by : List A → List A
  unfolding insert_ordered
  order_by [] = []
  order_by (x ∷ rest) = insert_ordered x (order_by rest)

-- The members that pass the test, as a WHERE clause selects rows.
abbrev pub select {ℓ} : {A : Type ℓ} → (A → Bool) → List A → List A
select p [] = []
select p (x ∷ rest) = elim (p x) [ true ↦ x ∷ select p rest | false ↦ select p rest ]

abbrev pub first {ℓ} : {A : Type ℓ} → List A → Option A
first [] = none
first (x ∷ rest) = some x
