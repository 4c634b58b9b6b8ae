-- ===== src/Tests/Reports.antt =====
-- The reports on the small book with its sale and on an exchange.
use finest_vx.Prelude.{◌≡◌, refl, ◌↔◌, true, false, All, [], ◌∷◌}
use finest_vx.Prelude.Int.{negsuc}
use finest_vx.Core.Decimal.{finite, zero_decimal, is_finite, dec_eq, add}
use finest_vx.Core.Types.{credit, LedgerEntry, JournalTransaction}
use finest_vx.Validation.Fx.{multiply, negated, is_positive_rate, validate_fx_conversion}
use finest_vx.Validation.Fx.Accepted.{IsWithin, sold, bought, validate_fx_conversion_iff}
use finest_vx.Tests.Fixtures.{usual, engine, received, sale}
use finest_vx.Core.Chart.Valid.{IsChart}
use finest_vx.Validation.{accepted, validate_book}
use finest_vx.Validation.Accepted.{IsSoundTransaction, validate_book-accepted}
use finest_vx.Tests.Payloads.{full_book}

validate_book-accepted_example :
    (accepted (validate_book full_book) ≡ true)
    ↔ (IsChart full_book.accounts × All (IsSoundTransaction full_book) full_book.transactions)
validate_book-accepted_example = validate_book-accepted full_book

-- 11.00 USD are bought for 10.00 EUR.
abbrev dollars : LedgerEntry
dollars = record received {
  side = credit;
  amount = usual (finite false 1100 (negsuc 1));
  currency = "USD";
}

abbrev exchange : JournalTransaction
exchange = record sale { entries = received ∷ dollars ∷ [] }

validate_fx_conversion_iff_example :
    (validate_fx_conversion engine exchange "EUR" "USD" (finite false 11 (negsuc 0)) ≡ []) ↔ (
      (true ≡ true)
      × (dec_eq (sold engine exchange "EUR" "USD" (finite false 11 (negsuc 0))) zero_decimal
          ≡ false)
      × (dec_eq (bought engine exchange "EUR" "USD" (finite false 11 (negsuc 0))) zero_decimal
          ≡ false)
      × IsWithin 2 (
          add
            (multiply
              (sold engine exchange "EUR" "USD" (finite false 11 (negsuc 0)))
              (finite false 11 (negsuc 0)))
            (negated (bought engine exchange "EUR" "USD" (finite false 11 (negsuc 0))))))
unfolding is_positive_rate is_finite
validate_fx_conversion_iff_example =
    validate_fx_conversion_iff engine exchange "EUR" "USD" (finite false 11 (negsuc 0))

-- It is accepted.
exchange-accepted :
    validate_fx_conversion engine exchange "EUR" "USD" (finite false 11 (negsuc 0)) ≡ []
unfolding validate_fx_conversion finest_vx.Validation.Fx.conversion_report multiply is_positive_rate
    finest_vx.Validation.Fx.distance finest_vx.Validation.Fx.exceeds is_finite dec_eq add
    finest_vx.Core.Decimal.round_context finest_vx.Core.Decimal.signed_sum
    finest_vx.Core.Balance.totals_by_currency finest_vx.Core.Balance.totals_from
    finest_vx.Core.Balance.add_total finest_vx.Core.Balance.counts finest_vx.Core.Types.side_eq
    finest_vx.Prelude.Int.◌+ℤ◌ finest_vx.Prelude.Int.◌-ℤ◌
exchange-accepted = refl
