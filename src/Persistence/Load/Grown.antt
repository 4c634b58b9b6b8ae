-- ===== src/Persistence/Load/Grown.antt =====
-- Lists of rows with one more at the end: sorted, selected, and read through their payloads.
use finest_vx.Prelude.{
  ◌≡◌, refl, Bool, true, false, List, [], ◌∷◌, ◌++◌, arith, All, ok, select, order_by,
  insert_ordered,
}
use finest_vx.Core.Errors.{Result}
use finest_vx.Core.Serialization.Read.{read_items}
use finest_vx.Core.Value.{Value, to_items}

module _ {A : Type 0} (P : A → Type 0) where
  one_of :
      (b : Bool) (xs ys : List A)
      → (b ≡ true → All P xs)
      → (b ≡ false → All P ys)
      → All P (elim b [ true ↦ xs | false ↦ ys ])
  one_of true xs ys h k = h refl
  one_of false xs ys h k = k refl

  All-insert_ordered :
      (le : A → A → Bool) (x : A) (xs : List A) → P x → All P xs → All P (insert_ordered le x xs)
  unfolding insert_ordered
  All-insert_ordered le x [] holds h = (holds, tt)
  All-insert_ordered le x (y ∷ rest) holds (h, hs) =
      let onward = All-insert_ordered le x rest holds hs in
      one_of (le x y) (x ∷ y ∷ rest) (y ∷ insert_ordered le x rest) (λ e. (holds, (h, hs)))
        (λ e. (h, onward))

  pub All-order_by : (le : A → A → Bool) (xs : List A) → All P xs → All P (order_by le xs)
  unfolding order_by
  All-order_by le [] h = tt
  All-order_by le (x ∷ xs) (h, hs) =
      All-insert_ordered le x (order_by le xs) h (All-order_by le xs hs)

  -- What holds of the members that pass the test holds of the selected ones.
  pub All-select :
      (q : A → Bool) (xs : List A) → All (λ x. q x ≡ true → P x) xs → All P (select q xs)
  All-select q [] h = tt
  All-select q (x ∷ xs) (h, hs) =
      let onward = All-select q xs hs in
      one_of (q x) (x ∷ select q xs) (select q xs) (λ e. (h e, onward)) (λ e. onward)

pub to_items-same :
    {A : Type 0} (f g : A → Value) (xs : List A)
    → All (λ x. f x ≡ g x) xs
    → to_items f xs ≡ to_items g xs
to_items-same f g [] h = refl
to_items-same f g (x ∷ xs) (h, hs) = rw (h, to_items-same f g xs hs) refl

pub read_items-last :
    {A B : Type 0} (read : Value → Result A) (f : B → Value) (xs : List B) (x : B) (ys : List A)
    (y : A)
    → read_items read (to_items f xs) ≡ ok ys
    → read (f x) ≡ ok y
    → read_items read (to_items f (xs ++ x ∷ [])) ≡ ok (ys ++ y ∷ [])
read_items-last read f [] x ys y h k = ground arith
read_items-last read f (z ∷ xs) x [] y h k = absurd (ground arith)
read_items-last read f (z ∷ xs) x (w ∷ ys) y h k = ground (arith, read_items-last read f xs x ys y)
