-- ===== src/Core/Value.antt =====
-- The values that a payload of core/serialization.py holds, and what is read off them.
use finest_vx.Prelude.{
  String, Bool, true, false, not, Option, none, some, List, [], ◌∷◌, str_eq, ok, err, if◌then◌else◌,
}
use finest_vx.Prelude.Int.{ℤ, pos, eq_ℤ}
use finest_vx.Core.Errors.{type_error, key_error, Result}

mutual
  pub data Value : Type 0 where
    null : Value
    bool : Bool → Value
    int : ℤ → Value
    str : String → Value
    list : Items → Value
    mapping : Fields → Value

  -- the values of a dictionary by their keys
  pub data Fields : Type 0 where
    field : String → Value → Fields → Fields
    end : Fields

  -- the values of a sequence
  pub data Items : Type 0 where
    cons : Value → Items → Items
    nil : Items

-- `data.get(key)`, with `none` for a missing key.
abbrev pub find_key : Fields → String → Option Value
find_key end k = none
find_key (field j v rest) k = if str_eq j k then some v else find_key rest k

-- `data[key]`
abbrev pub require_key : Fields → String → Result Value
require_key fields k = elim (find_key fields k) [ none ↦ err (key_error k) | some v ↦ ok v ]

-- `data.get(key)`
abbrev pub get_key : Fields → String → Value
get_key fields k = elim (find_key fields k) [ none ↦ null | some v ↦ v ]

-- `bool(value)`
unfoldable pub truthy : Value → Bool
truthy null = false
truthy (bool b) = b
truthy (int i) = not (eq_ℤ i (pos 0))
truthy (str s) = not (str_eq s "")
truthy (list nil) = false
truthy (list (cons _ _)) = true
truthy (mapping end) = false
truthy (mapping (field _ _ _)) = true

-- `bool(data.get(key, True))`
unfoldable pub flag : Fields → String → Bool
unfolding truthy
flag fields k = elim (find_key fields k) [ none ↦ true | some v ↦ truthy v ]

-- `_require_mapping`
unfoldable pub require_mapping : Value → String → Result Fields
require_mapping (mapping fields) name = ok fields
require_mapping _ name = err (type_error name)

-- `_require_sequence`
unfoldable pub require_sequence : Value → String → Result Items
require_sequence (list items) name = ok items
require_sequence _ name = err (type_error name)

abbrev pub to_items {ℓ} : {A : Type ℓ} → (A → Value) → List A → Items
to_items f [] = nil
to_items f (x ∷ xs) = cons (f x) (to_items f xs)
