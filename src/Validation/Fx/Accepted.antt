-- ===== src/Validation/Fx/Accepted.antt =====
-- Which conversions `validate_fx_conversion` accepts.
use finest_vx.Prelude.{
  ℕ, ◌≤◌, String, ◌≡◌, ◌↔◌, refl, true, false, ◌&&◌, some, [], arith, Bool-cases, inl, inr,
}
use finest_vx.Prelude.Int.{pos, ◌-ℤ◌}
use finest_vx.Core.Balance.{total_of, totals_by_currency}
use finest_vx.Core.Decimal.{
  Decimal, finite, infinite, nan, zero_decimal, is_finite, min_ℤ, aligned, add, dec_eq,
}
use finest_vx.Core.Engine.{Engine}
use finest_vx.Core.Types.{JournalTransaction, debit, credit}
use finest_vx.Validation.Fx.{
  is_positive_rate, multiply, negated, distance, exceeds, digits_or_two, tolerance,
  conversion_report, validate_fx_conversion,
}

-- The size of the number is at most one unit of the last of the digits.
abbrev pub IsWithin : ℕ → Decimal → Type 0
IsWithin digits (finite n c e) =
    let unit = pos 0 -ℤ pos digits in let m = min_ℤ e unit in aligned c e m ≤ aligned 1 unit m
IsWithin digits (infinite n) = true ≡ false
IsWithin digits nan = Unit

exceeds_iff :
    (a b : Decimal) (digits : ℕ)
    → (exceeds (distance a b) (tolerance digits) ≡ false) ↔ IsWithin digits (add a (negated b))
unfolding distance exceeds
exceeds_iff a b digits = by_size (add a (negated b))
  where
    by_size :
        (d : Decimal)
        → (exceeds
              (elim d [ finite n c e ↦ finite false c e | infinite n ↦ infinite false | nan ↦ nan ])
              (tolerance digits)
            ≡ false)
          ↔ IsWithin digits d
    by_size (finite n c e) = (λ h. ground arith, λ h. ground arith)
    by_size (infinite n) = (λ h. h, λ h. h)
    by_size nan = (λ h. tt, λ h. refl)

module _ (e : Engine) (t : JournalTransaction) (base counter : String) (rate : Decimal) where
  -- The debits of the base currency and the credits of the counter currency.
  abbrev pub sold : Decimal
  sold = total_of (totals_by_currency (some debit) t.entries) base

  abbrev pub bought : Decimal
  bought = total_of (totals_by_currency (some credit) t.entries) counter

  -- The report on a conversion is empty exactly when the rate is finite and positive, both totals are
  -- not zero, and the debits times the rate differ from the credits by at most one unit of the last
  -- digit of the counter currency, of its second digit when the number of its digits is not known.
  pub validate_fx_conversion_iff : (validate_fx_conversion e t base counter rate ≡ []) ↔ (
      ((is_finite rate && is_positive_rate rate) ≡ true)
      × (dec_eq sold zero_decimal ≡ false)
      × (dec_eq bought zero_decimal ≡ false)
      × IsWithin
          (digits_or_two (e.get_currency_decimal_digits counter))
          (add (multiply sold rate) (negated bought)))
  unfolding validate_fx_conversion conversion_report
  validate_fx_conversion_iff =
      let digits = digits_or_two (e.get_currency_decimal_digits counter) in
      let within = exceeds_iff (multiply sold rate) bought digits in
      elim (Bool-cases (is_finite rate && is_positive_rate rate)) [
        | inr bad ↦ rw bad (λ h. absurd (cc), λ h. absurd (ground arith))
        | inl good ↦ rw good (elim (Bool-cases (dec_eq sold zero_decimal)) [
          | inl absent ↦ rw absent (λ h. absurd (cc), λ h. absurd (ground arith))
          | inr present ↦ rw present (elim (Bool-cases (dec_eq bought zero_decimal)) [
            | inl absent ↦ rw absent (λ h. absurd (cc), λ h. absurd (ground arith))
            | inr there ↦
                rw there
                  (elim (Bool-cases
                    (exceeds (distance (multiply sold rate) bought) (tolerance digits))) [
                      | inl off ↦
                          rw off
                            (λ h. absurd (cc), λ h. absurd (let no = within.1 h.3 in ground arith))
                      | inr near ↦ rw near (λ h. (refl, refl, refl, within.0 near), λ h. refl)
                    ])
          ])
        ])
      ]
