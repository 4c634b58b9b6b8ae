-- ===== src/Legislation/Metadata.antt =====
-- legislation/protocols.py: `__post_init__` of LegislativePackMetadata. The validators of ftllexengine
-- that only it uses are the record Jurisdictions.
pub mod Constructed
use finest_vx.Prelude.{
  String, Bool, true, not, ◌≡◌, refl, List, [], ◌∷◌, All, arith, ok, err, ◌>>=◌, ◌>>◌, raise_if,
}
use finest_vx.Prelude.Int.{ℤ, pos, ◌≤ℤ◌}
use finest_vx.Core.Engine.{Engine, EngineLaws}
use finest_vx.Core.Errors.{value_error, invalid_field, invalid_currency, Result}

pub record LegislativePackMetadata : Type 0 where
  pub pack_code : String
  pub territory_code : String
  pub tax_year : ℤ
  pub default_locale : String
  pub currencies : List String

pub record Jurisdictions : Type 0 where
  pub is_valid_territory_code : String → Bool
  -- `require_int_in_range` with the bounds 1 and 9999
  pub require_year : ℤ → Result ℤ
  pub require_locale_code : String → Result String

-- A territory code of ISO 3166-1 is upper-case and has no blanks; a number in its range is returned.
pub record JurisdictionsLaws (e : Engine) (j : Jurisdictions) : Type 0 where
  pub territory_upper : (c : String) → j.is_valid_territory_code c ≡ true → e.upper c ≡ c
  pub territory_stripped :
      (c : String) → j.is_valid_territory_code c ≡ true → e.require_non_empty_str c ≡ ok c
  pub year_in_range :
      (year kept : ℤ) → j.require_year year ≡ ok kept → (pos 1 ≤ℤ kept) × (kept ≤ℤ pos 9999)
  pub year_idem : (year kept : ℤ) → j.require_year year ≡ ok kept → j.require_year kept ≡ ok kept
  pub locale_idem :
      (locale kept : String)
      → j.require_locale_code locale ≡ ok kept
      → j.require_locale_code kept ≡ ok kept

abbrev pub require_currencies : List String → Result (Unit {0})
require_currencies [] = err (value_error (invalid_field "currencies"))
require_currencies (c ∷ rest) = ok tt

module _ (e : Engine) where
  -- The generator over the currencies, which runs before the first of them is looked up.
  unfoldable pub normalize_currencies : List String → Result (List String)
  normalize_currencies [] = ok []
  normalize_currencies (c ∷ rest) = do
    text ← e.require_non_empty_str c
    others ← normalize_currencies rest
    ok (e.upper text ∷ others)

  unfoldable pub check_currencies : List String → Result (Unit {0})
  check_currencies [] = ok tt
  check_currencies (c ∷ rest) = do
    raise_if (not (e.is_valid_currency_code c)) (value_error (invalid_currency c))
    check_currencies rest

  module _ (j : Jurisdictions) where
    unfoldable pub metadata_init : LegislativePackMetadata → Result LegislativePackMetadata
    unfolding normalize_currencies check_currencies
    metadata_init m = do
      pack_code ← e.require_non_empty_str m.pack_code
      territory ← e.require_non_empty_str m.territory_code
      let territory_code = e.upper territory
      raise_if (not (j.is_valid_territory_code territory_code))
          (value_error (invalid_field "territory_code"))
      tax_year ← j.require_year m.tax_year
      default_locale ← j.require_locale_code m.default_locale
      require_currencies m.currencies
      currencies ← normalize_currencies m.currencies
      check_currencies currencies
      ok (record {
        pack_code = pack_code;
        territory_code = territory_code;
        tax_year = tax_year;
        default_locale = default_locale;
        currencies = currencies;
      })

    -- `_build_metadata` of legislation/lv/standard_2026.py
    unfoldable pub build_metadata : Result LegislativePackMetadata
    unfolding metadata_init
    build_metadata = metadata_init (record {
      pack_code = "lv.standard.2026";
      territory_code = "LV";
      tax_year = pos 2026;
      default_locale = "lv-LV";
      currencies = "EUR" ∷ [];
    })
