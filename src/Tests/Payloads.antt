-- ===== src/Tests/Payloads.antt =====
-- The payloads of the small book with its sale.
use finest_vx.Prelude.{◌≡◌, refl, ok, some, [], ◌∷◌}
use finest_vx.Core.Books.{
  book_init, validate_transactions_against_accounts, check_transaction_periods,
  check_transaction_period, check_entry_accounts,
}
use finest_vx.Core.Chart.{
  check_distinct, check_parents, check_parent, check_cycles, reject_cycle, find_account_cycle,
  climb, validate_account_collection,
}
use finest_vx.Core.Entities.{
  account_init, entry_init, period_init, normalize_currency, check_places,
}
use finest_vx.Core.Decimal.{is_finite, is_negative, decimal_places}
use finest_vx.Core.Periods.{
  check_periods, sort_periods, insert_period, key_le, check_ordered, check_pairwise,
  validate_period_collection,
}
use finest_vx.Core.Serialization.{transaction_to_mapping, book_to_mapping}
use finest_vx.Core.Serialization.Read.{transaction_from_mapping}
use finest_vx.Core.Serialization.ReadBook.{book_from_mapping}
use finest_vx.Core.Serialization.RoundTrip.{IsTransaction, transaction_round_trip}
use finest_vx.Core.Serialization.BookRoundTrip.{IsConstructed, book_round_trip}
use finest_vx.Core.Types.{Book, period_eq, is_posted}
use finest_vx.Tests.Books.{received-init, sale-init}
use finest_vx.Tests.Codecs.{codec, codec_laws, fiscal_period}
use finest_vx.Tests.Fixtures.{engine, engine_laws, sale, book, january}

abbrev pub full_book : Book
full_book = record book { transactions = sale ∷ [] }

pub sale-IsTransaction : IsTransaction engine codec engine_laws codec_laws sale
unfolding fiscal_period entry_init normalize_currency check_places is_finite is_negative
    decimal_places
sale-IsTransaction = record {
  made = sale-init;
  entries = (
    (received-init, (refl, refl, λ d h. absurd (cc))),
    ((refl, (refl, refl, λ d h. absurd (cc))), tt),
  );
  period = λ p h. rw (← january_of p h) refl;
}
  where
    january_of : (p : _) → some january ≡ some p → january ≡ p
    january_of p h = cc

transaction_round_trip_example :
    transaction_from_mapping engine codec (transaction_to_mapping codec sale) ≡ ok sale
transaction_round_trip_example =
    transaction_round_trip engine codec engine_laws codec_laws sale sale-IsTransaction

pub full_book-IsConstructed : IsConstructed engine codec engine_laws codec_laws full_book
unfolding book_init normalize_currency validate_account_collection check_distinct check_parents
    check_parent check_cycles reject_cycle find_account_cycle climb validate_period_collection
    check_periods sort_periods insert_period key_le check_ordered check_pairwise period_eq is_posted
    validate_transactions_against_accounts check_transaction_periods check_transaction_period
    check_entry_accounts account_init period_init fiscal_period
full_book-IsConstructed = record {
  made = refl;
  calendar = refl;
  accounts = (refl, (refl, tt));
  periods = ((refl, refl), ((refl, refl), tt));
  transactions = (sale-IsTransaction, tt);
}

book_round_trip_example :
    book_from_mapping engine codec (book_to_mapping codec full_book) ≡ ok full_book
book_round_trip_example =
    book_round_trip engine codec engine_laws codec_laws full_book full_book-IsConstructed
