-- ===== src/Validation/Fx.antt =====
-- validation/service.py `validate_fx_conversion`, with the decimal operations that it uses.
pub mod Accepted
use finest_vx.Prelude.{
  ℕ, ◌-◌, ◌*◌, String, ◌≡◌, refl, Bool, true, false, ◌&&◌, ◌||◌, not, Option, none, some, [], ◌∷◌,
  ◌++◌, arith, ltb, ◌==◌, Bool-cases, inl, inr, ◌⊎◌, if◌then◌else◌,
}
use finest_vx.Prelude.Int.{ℤ, pos, ◌+ℤ◌, ◌-ℤ◌}
use finest_vx.Core.Balance.{total_of, totals_by_currency}
use finest_vx.Core.Decimal.{
  Decimal, finite, infinite, nan, zero_decimal, is_finite, round_context, min_ℤ, aligned,
  signed_sum, add, dec_eq, excess_digits, half_even,
}
use finest_vx.Core.Engine.{Engine}
use finest_vx.Core.Types.{JournalTransaction, debit, credit}
use finest_vx.Validation.{
  Message, ValidationReport, ValidationFinding, error_severity, fx_rate, fx_currency, fx_totals,
}

-- `rate > 0` of a finite rate
unfoldable pub is_positive_rate : Decimal → Bool
is_positive_rate (finite n c e) = not n && ltb 0 c
is_positive_rate _ = false

abbrev pub differ : Bool → Bool → Bool
differ true b = not b
differ false b = b

-- `a * b` of finite values; no other product is taken here.
unfoldable pub multiply : Decimal → Decimal → Decimal
multiply (finite na ca ea) (finite nb cb eb) = round_context (differ na nb) (ca * cb) (ea +ℤ eb)
multiply _ _ = nan

abbrev pub negated : Decimal → Decimal
negated (finite n c e) = finite (not n) c e
negated (infinite n) = infinite (not n)
negated nan = nan

-- `abs(a - b)`
unfoldable pub distance : Decimal → Decimal → Decimal
distance a b = elim (add a (negated b)) [
  | finite n c e ↦ finite false c e
  | infinite n ↦ infinite false
  | nan ↦ nan
]

-- `a > b` of finite values that are not negative
unfoldable pub exceeds : Decimal → Decimal → Bool
exceeds (finite na ca ea) (finite nb cb eb) =
    let m = min_ℤ ea eb in ltb (aligned cb eb m) (aligned ca ea m)
exceeds (infinite n) _ = true
exceeds _ _ = false

abbrev pub fx_finding : String → Message → ValidationFinding
fx_finding code message = record {
  code = code;
  message = message;
  severity = error_severity;
  source = "core.fx";
}

abbrev pub finding_if : Bool → ValidationFinding → ValidationReport
finding_if true f = f ∷ []
finding_if false f = []

-- `get_currency_decimal_digits(currency)`, or 2
abbrev pub digits_or_two : Option ℕ → ℕ
digits_or_two none = 2
digits_or_two (some digits) = digits

-- `Decimal(10) ** -digits`
abbrev pub tolerance : ℕ → Decimal
tolerance digits = finite false 1 (pos 0 -ℤ pos digits)

module _ (e : Engine) where
  abbrev pub mismatch : String → Decimal → Decimal → Decimal → ValidationReport
  mismatch counter base_debit rate counter_credit =
      let expected = multiply base_debit rate in
      finding_if
        (exceeds (distance expected counter_credit)
          (tolerance (digits_or_two (e.get_currency_decimal_digits counter))))
        (fx_finding "FX_RATE_MISMATCH" (fx_totals base_debit rate expected counter_credit))

  abbrev pub unless_found : ValidationReport → ValidationReport → ValidationReport
  unless_found [] otherwise = otherwise
  unless_found (f ∷ rest) otherwise = f ∷ rest

  -- The report on the two totals.
  unfoldable pub conversion_report :
      String → String → Decimal → Decimal → Decimal → ValidationReport
  conversion_report base counter rate base_debit counter_credit =
      unless_found
        (finding_if (dec_eq base_debit zero_decimal)
            (fx_finding "FX_BASE_CURRENCY_ABSENT" (fx_currency base))
          ++ finding_if (dec_eq counter_credit zero_decimal)
              (fx_finding "FX_COUNTER_CURRENCY_ABSENT" (fx_currency counter)))
        (mismatch counter base_debit rate counter_credit)

  unfoldable pub validate_fx_conversion :
      JournalTransaction → String → String → Decimal → ValidationReport
  unfolding conversion_report
  validate_fx_conversion t base counter rate =
      if is_finite rate && is_positive_rate rate
      then conversion_report base counter rate
          (total_of (totals_by_currency (some debit) t.entries) base)
          (total_of (totals_by_currency (some credit) t.entries) counter)
      else fx_finding "FX_RATE_INVALID" (fx_rate rate) ∷ []
