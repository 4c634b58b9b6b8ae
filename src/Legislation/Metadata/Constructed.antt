-- ===== src/Legislation/Metadata/Constructed.antt =====
-- What the constructor of LegislativePackMetadata returns.
use finest_vx.Prelude.{String, true, ◌≡◌, refl, List, [], ◌∷◌, All, arith, ok}
use finest_vx.Prelude.Int.{pos, ◌≤ℤ◌}
use finest_vx.Core.Engine.{Engine, EngineLaws}
use finest_vx.Legislation.Metadata.{
  LegislativePackMetadata, Jurisdictions, JurisdictionsLaws, require_currencies,
  normalize_currencies, check_currencies, metadata_init,
}

abbrev pub AreCurrencies : Engine → List String → Type 0
AreCurrencies e currencies = All (λ c. e.is_valid_currency_code c ≡ true) currencies

-- The year has four digits at most, the territory and each of the currencies, of which there is one
-- at least, is a code of its standard.
abbrev pub IsMetadata : Engine → Jurisdictions → LegislativePackMetadata → Type 0
IsMetadata e j m =
    (j.is_valid_territory_code m.territory_code ≡ true)
    × ((pos 1 ≤ℤ m.tax_year) × (m.tax_year ≤ℤ pos 9999))
    × (require_currencies m.currencies ≡ ok tt)
    × AreCurrencies e m.currencies

module _ (e : Engine) (laws : EngineLaws e) where
  check_currencies-valid :
      (currencies : List String)
      → check_currencies e currencies ≡ ok tt
      → AreCurrencies e currencies
  unfolding check_currencies
  check_currencies-valid [] h = tt
  check_currencies-valid (c ∷ rest) h = (ground arith, check_currencies-valid rest (ground arith))

  normalize_currencies_same :
      (currencies : List String)
      → AreCurrencies e currencies
      → normalize_currencies e currencies ≡ ok currencies
  unfolding normalize_currencies
  normalize_currencies_same [] h = refl
  normalize_currencies_same (c ∷ rest) (h, hs) =
      rw (laws.currency_stripped c h, normalize_currencies_same rest hs, laws.currency_upper c h)
        refl

  -- A list that is not empty does not become empty.
  normalize_currencies-some :
      (given kept : List String)
      → require_currencies given ≡ ok tt
      → normalize_currencies e given ≡ ok kept
      → require_currencies kept ≡ ok tt
  unfolding normalize_currencies
  normalize_currencies-some [] kept some_given h = absurd (cc)
  normalize_currencies-some (c ∷ rest) kept some_given h = ground arith

  module _ (j : Jurisdictions) (jurisdictions : JurisdictionsLaws e j) where
    metadata_fields :
        (m n : LegislativePackMetadata)
        → metadata_init e j m ≡ ok n
        → (e.require_non_empty_str m.pack_code ≡ ok n.pack_code)
          × (j.is_valid_territory_code n.territory_code ≡ true)
          × (j.require_year m.tax_year ≡ ok n.tax_year)
          × (j.require_locale_code m.default_locale ≡ ok n.default_locale)
          × (require_currencies m.currencies ≡ ok tt)
          × (normalize_currencies e m.currencies ≡ ok n.currencies)
          × (check_currencies e n.currencies ≡ ok tt)
    unfolding metadata_init
    metadata_fields m n h = ground arith

    -- What the constructor of a pack's metadata returns has a valid territory, a year from 1 to 9999 and
    -- at least one currency, all of them valid, and the constructor returns it again, for
    -- validators that keep their laws.
    pub metadata_init-IsMetadata :
        (m n : LegislativePackMetadata)
        → metadata_init e j m ≡ ok n
        → IsMetadata e j n × (metadata_init e j n ≡ ok n)
    unfolding metadata_init
    metadata_init-IsMetadata m n h =
        let (code, territory, year, locale, some_given, normalized, checked) =
          metadata_fields m n h in
        let some_kept = normalize_currencies-some m.currencies n.currencies some_given normalized in
        let valid = check_currencies-valid n.currencies checked in
        let in_range = jurisdictions.year_in_range m.tax_year n.tax_year year in
        (
          (territory, in_range, some_kept, valid),
          rw
              (
                laws.require_idem m.pack_code n.pack_code code,
                jurisdictions.territory_stripped n.territory_code territory,
                jurisdictions.territory_upper n.territory_code territory,
                territory,
                jurisdictions.year_idem m.tax_year n.tax_year year,
                jurisdictions.locale_idem m.default_locale n.default_locale locale,
                some_kept,
                normalize_currencies_same n.currencies valid,
                checked,
              )
              refl,
        )
