-- ===== src/Core/Entities.antt =====
-- core/models.py: `__post_init__` of Account, BookPeriod and LedgerEntry, each a function from the
-- fields that the caller gives to the normalized object.
pub mod Normal
use finest_vx.Prelude.{ℕ, String, Option, none, some, not, ltb, ok, ◌>>=◌, ◌>>◌, raise_if}
use finest_vx.Core.Decimal.{Decimal, is_finite, is_negative, decimal_places}
use finest_vx.Core.Engine.{Engine}
use finest_vx.Core.Errors.{
  value_error, Result, invalid_currency, own_parent, end_before_start, amount_not_finite,
  amount_negative, too_many_decimal_places,
}
use finest_vx.Core.Types.{Account, BookPeriod, LedgerEntry, option_str_eq}

-- The test on decimal places, when the currency has a known number of digits.
unfoldable pub check_places : Option ℕ → String → Decimal → Result (Unit {0})
check_places none currency amount = ok tt
check_places (some digits) currency amount =
    raise_if (ltb digits (decimal_places amount))
      (value_error (too_many_decimal_places (decimal_places amount) currency digits))

module _ (e : Engine) where
  unfoldable pub normalize_currency : String → Result String
  normalize_currency value = do
    text ← e.require_non_empty_str value
    let normalized = e.upper text
    raise_if (not (e.is_valid_currency_code normalized)) (value_error (invalid_currency value))
    ok normalized

  unfoldable pub account_init : Account → Result Account
  account_init a = do
    code ← e.require_non_empty_str a.code
    name ← e.require_non_empty_str a.name
    currency ← normalize_currency a.currency
    parent_code ← e.normalize_optional_str a.parent_code
    raise_if (option_str_eq parent_code (some code)) (value_error (own_parent code))
    ok (record a { code = code; name = name; currency = currency; parent_code = parent_code })

  unfoldable pub entry_init : LedgerEntry → Result LedgerEntry
  entry_init x = do
    account_code ← e.require_non_empty_str x.account_code
    raise_if (not (is_finite x.amount.decimal_value)) (value_error amount_not_finite)
    raise_if (is_negative x.amount.decimal_value) (value_error amount_negative)
    currency ← normalize_currency x.currency
    check_places (e.get_currency_decimal_digits currency) currency x.amount.decimal_value
    description ← e.normalize_optional_str x.description
    tax_rate ← e.normalize_tax_rate x.tax_rate
    ok (record x {
      account_code = account_code;
      currency = currency;
      description = description;
      tax_rate = tax_rate;
    })

unfoldable pub period_init : BookPeriod → Result BookPeriod
period_init p = do raise_if (ltb p.end_date p.start_date) (value_error end_before_start); ok p
