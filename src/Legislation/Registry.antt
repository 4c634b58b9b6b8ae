-- ===== src/Legislation/Registry.antt =====
-- legislation/registry.py `LegislativePackRegistry`: the packs by their codes, in the order of
-- registration. What a pack is besides its code does not matter here.
use finest_vx.Prelude.{
  String, ◌≡◌, arith, Bool, false, List, [], ◌∷◌, ◌++◌, order_by, contains, str_eq, str_eq_iff, ok,
  err, ◌>>=◌, ◌>>◌, raise_if, if◌then◌else◌,
}
use finest_vx.Core.Engine.{Engine}
use finest_vx.Core.Errors.{Result, key_error, value_error, pack_registered}

module _ {A : Type 0} where
  abbrev pub pack_codes : List (String × A) → List String
  pack_codes [] = []
  pack_codes ((code, _) ∷ rest) = code ∷ pack_codes rest

  -- `self._packs[code]`
  abbrev pub lookup : List (String × A) → String → Result A
  lookup [] code = err (key_error code)
  lookup ((c, pack) ∷ rest) code = if str_eq c code then ok pack else lookup rest code

  abbrev pub available_pack_codes : (String → String → Bool) → List (String × A) → List String
  available_pack_codes text_le packs = order_by text_le (pack_codes packs)

  module _ (e : Engine) where
    unfoldable pub register : String → A → List (String × A) → Result (List (String × A))
    register given pack packs = do
      code ← e.require_non_empty_str given
      raise_if (contains (pack_codes packs) code) (value_error (pack_registered code))
      ok (packs ++ (code, pack) ∷ [])

    unfoldable pub resolve : List (String × A) → String → Result A
    resolve packs given = do code ← e.require_non_empty_str given; lookup packs code

    lookup-last :
        (packs : List (String × A)) (c code : String) (pack : A)
        → contains (pack_codes packs) c ≡ false
        → lookup (packs ++ (c, pack) ∷ []) code
          ≡ (if str_eq c code then ok pack else lookup packs code)
    lookup-last [] c code pack new = ground arith
    lookup-last ((d, other) ∷ rest) c code pack new =
        ground (
          arith,
          lookup-last rest c code pack,
          str_eq_iff d code,
          str_eq_iff c code,
          str_eq_iff d c,
        )

    -- After a registration the new code resolves to the new pack, and every other code as before.
    pub resolve-register :
        (packs more : List (String × A)) (given code query asked : String) (pack : A)
        → register given pack packs ≡ ok more
        → e.require_non_empty_str given ≡ ok code
        → e.require_non_empty_str query ≡ ok asked
        → resolve more query ≡ (if str_eq code asked then ok pack else resolve packs query)
    unfolding register resolve
    resolve-register packs more given code query asked pack h named valid =
        ground (arith, lookup-last packs code asked pack)
