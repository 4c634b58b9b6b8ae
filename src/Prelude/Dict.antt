-- ===== src/Prelude/Dict.antt =====
-- A dict with text keys as the list of its items, in the order of insertion.
use mathlib.Core.Path.{◌≡◌, refl, subst}
use mathlib.Core.Bool.{Bool, true, false, ◌||◌}
use mathlib.Core.Logic.{inl, inr}
use mathlib.Core.List.{List, [], ◌∷◌}
use mathlib.Core.Option.{Option, none, some}
use Prim.Native.String.{String}
use native.Mathlib.Omega.{arith}
use text.Mathlib.Text.{◌==◌ as str_eq}
use text.Mathlib.TextEquality.{eq_iff}
use finest_vx.Prelude.Lists.{contains, Distinct}
use finest_vx.Prelude.Tests.{Bool-cases, if◌then◌else◌}

module _ {A : Type 0} where
  abbrev pub keys : List (String × A) → List String
  keys [] = []
  keys ((key, _) ∷ rest) = key ∷ keys rest

  -- `items.get(key)`
  abbrev pub get : List (String × A) → String → Option A
  get [] key = none
  get ((found, a) ∷ rest) key = if str_eq found key then some a else get rest key

  -- `items[key] = value`
  abbrev pub put : String → A → List (String × A) → List (String × A)
  put key a [] = (key, a) ∷ []
  put key a ((found, old) ∷ rest) =
      let onward = put key a rest in
      if str_eq found key then (found, a) ∷ rest else (found, old) ∷ onward

  -- `items.pop(key, None)`
  abbrev pub pop : String → List (String × A) → List (String × A)
  pop key [] = []
  pop key ((found, old) ∷ rest) =
      let onward = pop key rest in if str_eq found key then rest else (found, old) ∷ onward

  pub get-put :
      (key : String) (a : A) (items : List (String × A)) (query : String)
      → get (put key a items) query ≡ (if str_eq key query then some a else get items query)
  get-put key a [] query = refl
  get-put key a ((found, old) ∷ rest) query =
      ground
        (arith, get-put key a rest query, eq_iff found key, eq_iff found query, eq_iff key query)

  pub get-contains :
      (items : List (String × A)) (key : String)
      → contains (keys items) key ≡ false
      → get items key ≡ none
  get-contains [] key h = refl
  get-contains ((found, a) ∷ rest) key h = ground (arith, get-contains rest key)

  pub get-pop :
      (key : String) (items : List (String × A)) (query : String)
      → Distinct (keys items)
      → get (pop key items) query ≡ (if str_eq key query then none else get items query)
  get-pop key [] query h = ground arith
  get-pop key ((found, a) ∷ rest) query (new, h) = ground (
    arith,
    get-pop key rest query h,
    get-contains rest found new,
    eq_iff found key,
    eq_iff found query,
    eq_iff key query,
  )

  pub get-pop_other :
      (key : String) (items : List (String × A)) (query : String)
      → str_eq key query ≡ false
      → get (pop key items) query ≡ get items query
  get-pop_other key [] query h = refl
  get-pop_other key ((found, a) ∷ rest) query h = ground (
    arith,
    get-pop_other key rest query h,
    eq_iff found key,
    eq_iff found query,
    eq_iff key query,
  )

  pub get-put_other :
      (key : String) (a : A) (items : List (String × A)) (query : String)
      → str_eq key query ≡ false
      → get (put key a items) query ≡ get items query
  get-put_other key a items query h = ground (arith, get-put key a items query)

  -- Storing what is there changes nothing.
  pub put-get :
      (key : String) (a : A) (items : List (String × A))
      → get items key ≡ some a
      → put key a items ≡ items
  put-get key a [] h = ground arith
  put-get key a ((found, old) ∷ rest) h = ground (arith, put-get key a rest)

  pub keys-put :
      (key : String) (a : A) (items : List (String × A)) (query : String)
      → contains (keys (put key a items)) query ≡ (str_eq key query || contains (keys items) query)
  keys-put key a [] query = refl
  keys-put key a ((found, old) ∷ rest) query =
      ground
        (arith, keys-put key a rest query, eq_iff found key, eq_iff found query, eq_iff key query)

  pub keys-pop :
      (key : String) (items : List (String × A)) (query : String)
      → contains (keys items) query ≡ false
      → contains (keys (pop key items)) query ≡ false
  keys-pop key [] query h = refl
  keys-pop key ((found, old) ∷ rest) query h = ground (arith, keys-pop key rest query)

  pub Distinct-put :
      (key : String) (a : A) (items : List (String × A))
      → Distinct (keys items)
      → Distinct (keys (put key a items))
  Distinct-put key a [] h = (refl, tt)
  Distinct-put key a ((found, old) ∷ rest) (new, h) = elim (Bool-cases (str_eq found key)) [
    | inl same ↦ rw same (new, h)
    | inr other ↦ rw other (
      (ground (arith, keys-put key a rest found, eq_iff key found, eq_iff found key)),
      Distinct-put key a rest h,
    )
  ]

  pub Distinct-pop :
      (key : String) (items : List (String × A))
      → Distinct (keys items)
      → Distinct (keys (pop key items))
  Distinct-pop key [] h = tt
  Distinct-pop key ((found, old) ∷ rest) (new, h) = elim (Bool-cases (str_eq found key)) [
    | inl same ↦ rw same h
    | inr other ↦ rw other (keys-pop key rest found new, Distinct-pop key rest h)
  ]

  pub get-keys :
      (items : List (String × A)) (key : String) (a : A)
      → get items key ≡ some a
      → contains (keys items) key ≡ true
  get-keys [] key a h = ground arith
  get-keys ((found, b) ∷ rest) key a h = ground (arith, get-keys rest key a)

module _ {A : Type 0} where
  abbrev pub is_some : Option A → Bool
  is_some none = false
  is_some (some a) = true

  pub contains-keys :
      (items : List (String × A)) (key : String)
      → contains (keys items) key ≡ is_some (get items key)
  contains-keys [] key = refl
  contains-keys ((found, a) ∷ rest) key = ground (arith, contains-keys rest key)

module _ {A : Type 0} (P : A → Type 0) where
  abbrev pub Values : List (String × A) → Type 0
  Values [] = Unit
  Values ((_, a) ∷ rest) = P a × Values rest

  pub Values-put :
      (key : String) (a : A) (items : List (String × A))
      → P a
      → Values items
      → Values (put key a items)
  Values-put key a [] holds h = (holds, tt)
  Values-put key a ((found, old) ∷ rest) holds (first, h) = elim (Bool-cases (str_eq found key)) [
    | inl same ↦ rw same (holds, h)
    | inr other ↦ rw other (first, Values-put key a rest holds h)
  ]

  pub get-Values :
      (items : List (String × A)) (key : String) (a : A)
      → get items key ≡ some a
      → Values items
      → P a
  get-Values [] key a e h = absurd (let bad : none ≡ some a = e in ground arith)
  get-Values ((found, b) ∷ rest) key a e (holds, h) = elim (Bool-cases (str_eq found key)) [
    | inl same ↦ let eq : b ≡ a = ground arith in subst P eq holds
    | inr other ↦ get-Values rest key a (ground arith) h
  ]
