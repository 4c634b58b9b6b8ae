-- ===== src/Tests/Books.antt =====
-- The constructors on the small book.
use finest_vx.Prelude.{arith, All, ◌≡◌, refl, ◌↔◌, ok}
use finest_vx.Prelude.Int.{◌-ℤ◌}
use finest_vx.Core.Balance.{
  validate_transaction_entries, totals_by_currency, counts, totals_from, add_total, union,
  mismatched, reject_mismatch,
}
use finest_vx.Core.Books.{
  transaction_init, book_init, append_transaction, check_entries,
  validate_transactions_against_accounts, check_transaction_periods, period_set,
}
use finest_vx.Core.Books.Append.{with_transaction, append_transaction_iff}
use finest_vx.Core.Books.Valid.{book_init-IsBook, HasKnownAccounts, HasKnownPeriod}
use finest_vx.Core.Chart.Valid.{IsChart}
use finest_vx.Core.Periods.Disjoint.{PairwiseDisjoint}
use finest_vx.Core.Periods.Valid.{DistinctPeriods}
use finest_vx.Core.Chart.{
  codes, check_distinct, check_parents, check_parent, check_cycles, reject_cycle,
  find_account_cycle, climb, validate_account_collection,
}
use finest_vx.Core.Decimal.{
  add, dec_eq, signed_sum, round_context, is_finite, is_negative, decimal_places,
}
use finest_vx.Core.Entities.{account_init, entry_init, normalize_currency, check_places}
use finest_vx.Core.Periods.{
  check_periods, sort_periods, insert_period, key_le, check_ordered, check_pairwise,
  validate_period_collection,
}
use finest_vx.Core.Types.{JournalTransaction, side_eq, period_eq, is_posted}
use finest_vx.Tests.Fixtures.{engine, engine_laws, cash, received, sale, book}

pub cash-init : account_init engine cash ≡ ok cash
unfolding account_init normalize_currency
cash-init = refl

pub received-init : entry_init engine received ≡ ok received
unfolding entry_init normalize_currency check_places is_finite is_negative decimal_places
received-init = refl

pub sale-init : transaction_init engine sale ≡ ok sale
unfolding transaction_init check_entries validate_transaction_entries totals_by_currency totals_from
    add_total counts union mismatched reject_mismatch add dec_eq signed_sum round_context side_eq
    is_posted ◌-ℤ◌
sale-init = refl

-- The same sale under another reference.
abbrev pub second_sale : JournalTransaction
second_sale = record sale { reference = "T2" }

pub second_sale-init : transaction_init engine second_sale ≡ ok second_sale
unfolding transaction_init check_entries validate_transaction_entries totals_by_currency totals_from
    add_total counts union mismatched reject_mismatch add dec_eq signed_sum round_context side_eq
    is_posted ◌-ℤ◌
second_sale-init = refl

pub book-init : book_init engine book ≡ ok book
unfolding book_init normalize_currency validate_account_collection check_distinct check_parents
    check_parent check_cycles reject_cycle find_account_cycle climb validate_period_collection
    check_periods sort_periods insert_period key_le check_ordered check_pairwise period_eq
    validate_transactions_against_accounts check_transaction_periods
book-init = refl

book_init-IsBook_example :
    IsChart book.accounts
    × DistinctPeriods book.periods
    × PairwiseDisjoint book.periods
    × All (HasKnownAccounts (codes book.accounts)) book.transactions
    × All (HasKnownPeriod (period_set book.periods)) book.transactions
    × (book_init engine book ≡ ok book)
book_init-IsBook_example =
    book_init-IsBook engine engine_laws book book (omega arith, (omega arith, tt)) book-init

append_transaction_iff_example :
    (append_transaction engine book sale ≡ ok (with_transaction engine book sale)) ↔ (
      (with_transaction engine book sale ≡ with_transaction engine book sale)
      × HasKnownAccounts (codes book.accounts) sale
      × HasKnownPeriod (period_set book.periods) sale)
append_transaction_iff_example =
    append_transaction_iff engine book (with_transaction engine book sale) sale book-init
