-- ===== src/Core/Engine.antt =====
-- What core/ uses of ftllexengine and of Python's text functions, as a parameter of the model.
use finest_vx.Prelude.{ℕ, String, Bool, true, Option, ◌≡◌, ok}
use finest_vx.Core.Decimal.{Decimal}
use finest_vx.Core.Errors.{Result}
use finest_vx.Core.Types.{FluentNumber}

pub record Engine : Type 0 where
  -- the stripped text, or an error for a blank one
  pub require_non_empty_str : String → Result String
  pub normalize_optional_str : Option String → Result (Option String)
  -- with the formatting that the library chooses when none is given
  pub make_fluent_number : Decimal → FluentNumber
  -- `str.upper`
  pub upper : String → String
  pub is_valid_currency_code : String → Bool
  pub get_currency_decimal_digits : String → Option ℕ
  -- with the bounds 0 and 1, as the source calls it
  pub normalize_tax_rate : Option Decimal → Result (Option Decimal)

-- What a normalizer returns it accepts and returns again; an ISO 4217 code is upper-case and
-- has no blanks at its ends.
pub record EngineLaws (e : Engine) : Type 0 where
  pub require_idem :
      (s t : String) → e.require_non_empty_str s ≡ ok t → e.require_non_empty_str t ≡ ok t
  pub optional_idem :
      (s t : Option String) → e.normalize_optional_str s ≡ ok t → e.normalize_optional_str t ≡ ok t
  pub currency_upper : (c : String) → e.is_valid_currency_code c ≡ true → e.upper c ≡ c
  pub currency_stripped :
      (c : String) → e.is_valid_currency_code c ≡ true → e.require_non_empty_str c ≡ ok c
  pub tax_rate_idem :
      (r s : Option Decimal) → e.normalize_tax_rate r ≡ ok s → e.normalize_tax_rate s ≡ ok s
