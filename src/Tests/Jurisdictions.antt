-- ===== src/Tests/Jurisdictions.antt =====
-- The metadata of the Latvian pack, with concrete validators.
use finest_vx.Prelude.{
  String, true, ◌≡◌, refl, ◌&&◌, [], ◌∷◌, arith, ok, err, str_eq, str_eq_iff, if◌then◌else◌,
}
use finest_vx.Prelude.Int.{ℤ, pos, leb_ℤ, ◌≤ℤ◌}
use finest_vx.Core.Errors.{value_error, invalid_field, Result}
use finest_vx.Legislation.Metadata.{
  LegislativePackMetadata, Jurisdictions, JurisdictionsLaws, metadata_init, normalize_currencies,
  check_currencies, build_metadata,
}
use finest_vx.Legislation.Metadata.Constructed.{IsMetadata, metadata_init-IsMetadata}
use finest_vx.Tests.Fixtures.{engine, engine_laws, non_empty}

abbrev year_of : ℤ → Result ℤ
year_of i =
    if leb_ℤ (pos 1) i && leb_ℤ i (pos 9999)
    then ok i
    else err (value_error (invalid_field "tax_year"))

abbrev jurisdictions : Jurisdictions
jurisdictions = record {
  is_valid_territory_code = λ c. str_eq c "LV";
  require_year = year_of;
  require_locale_code = non_empty;
}

stripped : (c : String) → str_eq c "LV" ≡ true → non_empty c ≡ ok c
stripped c h = rw ((str_eq_iff c "LV").0 h)

year_in_range : (i kept : ℤ) → year_of i ≡ ok kept → (pos 1 ≤ℤ kept) × (kept ≤ℤ pos 9999)
year_in_range i kept h = ground arith

year_idem : (i kept : ℤ) → year_of i ≡ ok kept → year_of kept ≡ ok kept
year_idem i kept h = ground arith

locale_idem : (s t : String) → non_empty s ≡ ok t → non_empty t ≡ ok t
locale_idem s t h = ground arith

jurisdictions_laws : JurisdictionsLaws engine jurisdictions
jurisdictions_laws = record {
  territory_upper = λ c h. refl;
  territory_stripped = stripped;
  year_in_range = year_in_range;
  year_idem = year_idem;
  locale_idem = locale_idem;
}

abbrev latvia : LegislativePackMetadata
latvia = record {
  pack_code = "lv.standard.2026";
  territory_code = "LV";
  tax_year = pos 2026;
  default_locale = "lv-LV";
  currencies = "EUR" ∷ [];
}

built : build_metadata engine jurisdictions ≡ ok latvia
unfolding build_metadata metadata_init normalize_currencies check_currencies
built = refl

metadata_init-IsMetadata_example :
    IsMetadata engine jurisdictions latvia × (metadata_init engine jurisdictions latvia ≡ ok latvia)
unfolding metadata_init normalize_currencies check_currencies
metadata_init-IsMetadata_example =
    metadata_init-IsMetadata engine engine_laws jurisdictions jurisdictions_laws latvia latvia refl
