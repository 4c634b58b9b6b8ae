-- ===== src/Tests/Loads.antt =====
-- The small book with its sale: written, loaded, reversed, and its audit log in pages.
use finest_vx.Prelude.{
  ◌≡◌, refl, ◌≤◌, arith, ok, err, some, List, [], ◌∷◌, length, order_by, insert_ordered,
}
use finest_vx.Core.Errors.{value_error, already_reversed, persistence_integrity}
use finest_vx.Core.Serialization.ReadBook.{book_from_mapping}
use finest_vx.Prelude.Int.{pos}
use finest_vx.Core.Types.{Book}
use finest_vx.Persistence.AuditLog.{pages}
use finest_vx.Persistence.AuditLog.Pages.{behind, concat, pages_complete}
use finest_vx.Persistence.Load.{load_book, load_row, catching, stored_payload}
use finest_vx.Persistence.Load.Loaded.{IsLoaded, load_book-IsLoaded, load_row_reads}
use finest_vx.Persistence.Rows.{BookRow}
use finest_vx.Persistence.Store.{Store, Receipt}
use finest_vx.Persistence.Store.Auditing.{IsNumbered}
use finest_vx.Persistence.Store.AppendOnly.{Extends-refl}
use finest_vx.Persistence.Store.Writes.{create_book}
use finest_vx.Persistence.Store.Reversals.{append_reversal}
use finest_vx.Persistence.Store.Reversed.{append_reversal_once}
use finest_vx.Tests.Codecs.{codec, codec_laws}
use finest_vx.Tests.Writes.{empty-IsIntegral}
use finest_vx.Core.Books.{append_transaction}
use finest_vx.Core.Serialization.RoundTrip.{IsTransaction}
use finest_vx.Persistence.Load.Appended.{IsLast, load_book-append_transaction}
use finest_vx.Persistence.Store.Parents.{IsIntegral}
use finest_vx.Persistence.Store.Writes
use finest_vx.Runtime.Commands
use finest_vx.Runtime.Commands.{dispatch}
use finest_vx.Runtime.Ledger.{dispatch-IsIntegral}
use finest_vx.Tests.Books.{second_sale, second_sale-init}
use finest_vx.Persistence.Load.Created.{InOrder, load_book-create_book}
use finest_vx.Tests.Fixtures.{engine, engine_laws, platform, context, empty_store}
use finest_vx.Tests.Payloads.{sale-IsTransaction, full_book, full_book-IsConstructed}

-- The store with the book in it, and after the reversal of its sale.
abbrev pub stored : Store
stored = (create_book platform codec full_book context empty_store).1

abbrev reversed_store : Store
reversed_store = (append_reversal engine platform codec "B1" "T1" "R1" context stored).1

abbrev grown_store : Store
grown_store = (Writes.append_transaction platform codec "B1" second_sale context stored).1

abbrev book_row : BookRow
book_row = record {
  book_code = "B1";
  name = "Book";
  base_currency = "EUR";
  fiscal_start_month = pos 1;
  legislative_pack = "lv.standard.2026";
}

abbrev receipt : Receipt
receipt = record { changed_tables = []; change_count = 0; indirect_change_count = 0 }

-- What running the store's operations gives.
pub stored-runs :
    (load_book engine platform codec stored.db "B1" ≡ ok full_book)
    × (append_reversal engine platform codec "B1" "T1" "R1" context stored
        ≡ (ok receipt, reversed_store))
    × IsNumbered stored.db
    × (length (behind 3 stored.db.audit_log) ≡ 5)
    × (create_book platform codec full_book context empty_store ≡ (ok receipt, stored))
    × (Writes.append_transaction platform codec "B1" second_sale context stored
        ≡ (ok receipt, grown_store))
    × IsLast engine platform codec engine_laws codec_laws "B1" second_sale context stored.db
unfolding finest_vx.Tests.Codecs.write_number finest_vx.Tests.Codecs.read_number
    finest_vx.Tests.Codecs.write_sign finest_vx.Tests.Codecs.write_decimal
    finest_vx.Tests.Codecs.exponent finest_vx.Tests.Codecs.read_decimal
    finest_vx.Tests.Codecs.read_int finest_vx.Tests.Codecs.fiscal_period
    finest_vx.Core.Entities.check_places finest_vx.Core.Entities.normalize_currency
    finest_vx.Core.Entities.account_init finest_vx.Core.Entities.entry_init
    finest_vx.Core.Entities.period_init finest_vx.Core.Books.check_entries
    finest_vx.Core.Books.check_entry_accounts
    finest_vx.Core.Books.validate_transactions_against_accounts
    finest_vx.Core.Books.check_transaction_period finest_vx.Core.Books.check_transaction_periods
    finest_vx.Core.Books.transaction_init finest_vx.Core.Books.book_init
    finest_vx.Core.Decimal.is_finite finest_vx.Core.Decimal.is_negative
    finest_vx.Core.Decimal.round_context finest_vx.Core.Decimal.signed_sum
    finest_vx.Core.Decimal.add finest_vx.Core.Decimal.dec_eq finest_vx.Core.Decimal.decimal_places
    finest_vx.Core.Value.truthy finest_vx.Core.Value.flag finest_vx.Core.Value.require_mapping
    finest_vx.Core.Value.require_sequence finest_vx.Core.Balance.add_total
    finest_vx.Core.Balance.counts finest_vx.Core.Balance.totals_from
    finest_vx.Core.Balance.totals_by_currency finest_vx.Core.Balance.union
    finest_vx.Core.Balance.mismatched finest_vx.Core.Balance.reject_mismatch
    finest_vx.Core.Balance.validate_transaction_entries
    finest_vx.Core.Balance.validate_transaction_balance finest_vx.Core.Types.side_eq
    finest_vx.Core.Types.is_posted finest_vx.Core.Types.period_eq finest_vx.Core.Chart.climb
    finest_vx.Core.Chart.find_account_cycle finest_vx.Core.Chart.check_distinct
    finest_vx.Core.Chart.check_parent finest_vx.Core.Chart.check_parents
    finest_vx.Core.Chart.reject_cycle finest_vx.Core.Chart.check_cycles
    finest_vx.Core.Chart.validate_account_collection finest_vx.Core.Chart.validate_chart_of_accounts
    finest_vx.Core.Periods.check_periods finest_vx.Core.Periods.key_le
    finest_vx.Core.Periods.insert_period finest_vx.Core.Periods.sort_periods
    finest_vx.Core.Periods.check_pairwise finest_vx.Core.Periods.check_ordered
    finest_vx.Core.Periods.validate_period_collection finest_vx.Core.Balance.Reversal.opposite
    finest_vx.Core.Balance.Reversal.invert finest_vx.Core.Serialization.Read.to_side
    finest_vx.Core.Serialization.Read.to_period_state
    finest_vx.Core.Serialization.Read.to_transaction_state
    finest_vx.Core.Serialization.Read.require_text finest_vx.Core.Serialization.Read.read_str
    finest_vx.Core.Serialization.Read.read_optional_str
    finest_vx.Core.Serialization.Read.account_from_mapping
    finest_vx.Core.Serialization.Read.period_from_mapping
    finest_vx.Core.Serialization.Read.read_optional_period
    finest_vx.Core.Serialization.Read.require_decimal
    finest_vx.Core.Serialization.Read.read_optional_decimal
    finest_vx.Core.Serialization.Read.entry_from_mapping
    finest_vx.Core.Serialization.Read.transaction_from_mapping
    finest_vx.Core.Serialization.ReadBook.require_date
    finest_vx.Core.Serialization.ReadBook.book_period_from_mapping
    finest_vx.Core.Serialization.ReadBook.book_arguments
    finest_vx.Core.Serialization.ReadBook.book_from_mapping finest_vx.Prelude.insert_ordered
    finest_vx.Prelude.order_by finest_vx.Prelude.Int.◌+ℤ◌ finest_vx.Prelude.Int.◌-ℤ◌
    finest_vx.Persistence.Schema.audit finest_vx.Persistence.Schema.insert_book
    finest_vx.Persistence.Schema.insert_account finest_vx.Persistence.Schema.insert_period
    finest_vx.Persistence.Schema.insert_transaction finest_vx.Persistence.Schema.insert_entry
    finest_vx.Persistence.Schema.parents_known finest_vx.Persistence.Schema.check_deferred
    finest_vx.Persistence.Load.catching finest_vx.Persistence.Load.check_balances
    finest_vx.Persistence.Load.check_book finest_vx.Persistence.Load.account_rows
    finest_vx.Persistence.Load.period_rows finest_vx.Persistence.Load.transaction_rows
    finest_vx.Persistence.Load.stored_payload finest_vx.Persistence.Load.load_row
    finest_vx.Persistence.Load.load_book finest_vx.Persistence.Payload.account_payload
    finest_vx.Persistence.Payload.period_payload
    finest_vx.Persistence.Payload.transaction_period_payload
    finest_vx.Persistence.Payload.entry_payload finest_vx.Persistence.Payload.transaction_payload
    finest_vx.Persistence.Payload.entry_rows finest_vx.Persistence.Payload.build_book_payload
    finest_vx.Persistence.Store.collect_changes finest_vx.Persistence.Store.build_write_receipt
    finest_vx.Persistence.Store.transact finest_vx.Persistence.Store.finish
    finest_vx.Persistence.Store.execute_write finest_vx.Persistence.Store.insert_entries
    finest_vx.Persistence.Store.insert_transaction_rows
    finest_vx.Persistence.Store.Writes.insert_accounts
    finest_vx.Persistence.Store.Writes.insert_periods
    finest_vx.Persistence.Store.Writes.insert_transactions
    finest_vx.Persistence.Store.Writes.create_operation
    finest_vx.Persistence.Store.Writes.create_book finest_vx.Persistence.Store.Writes.check_accounts
    finest_vx.Persistence.Store.Writes.append_transaction
    finest_vx.Persistence.Store.Reversals.inverted_entries
    finest_vx.Persistence.Store.Reversals.reversal_of_transaction
    finest_vx.Persistence.Store.Reversals.prepare_reversal
    finest_vx.Persistence.Store.Reversals.append_reversal
stored-runs = (
  refl,
  refl,
  (refl, (refl, (refl, (refl, (refl, (refl, (refl, (refl, tt)))))))),
  refl,
  refl,
  refl,
  refl,
)

load_book-IsLoaded_example : IsLoaded engine platform codec full_book
load_book-IsLoaded_example =
    load_book-IsLoaded engine platform codec engine_laws stored.db "B1" full_book stored-runs.0

load_row_reads_example :
    load_row engine platform codec stored.db "B1" (some book_row)
    ≡ catching
        (persistence_integrity "B1")
        (book_from_mapping engine codec (stored_payload platform stored.db book_row))
load_row_reads_example = load_row_reads engine platform codec stored.db "B1" book_row

append_reversal_once_example :
    append_reversal engine platform codec "B1" "T1" "R2" context reversed_store
    ≡ (err (value_error (already_reversed "T1" "B1")), reversed_store)
append_reversal_once_example =
    append_reversal_once engine platform codec "B1" "T1" "R1" "R2" context context receipt stored
      reversed_store reversed_store refl stored-runs.1 (Extends-refl reversed_store.db)

pages_complete_example : concat (pages 9 stored.db.audit_log 2 3) ≡ behind 3 stored.db.audit_log
pages_complete_example = pages_complete stored.db 1 3 9 stored-runs.2 (omega (arith, stored-runs.3))

in_order : InOrder engine platform codec engine_laws codec_laws full_book context
unfolding order_by insert_ordered
in_order = record { accounts = refl; periods = refl; transactions = refl }

load_book-create_book_example : load_book engine platform codec stored.db "B1" ≡ ok full_book
load_book-create_book_example =
    load_book-create_book engine platform codec engine_laws codec_laws full_book context empty_store
      stored receipt full_book-IsConstructed in_order empty-IsIntegral.0 stored-runs.4

second_sale-IsTransaction : IsTransaction engine codec engine_laws codec_laws second_sale
second_sale-IsTransaction = record {
  made = second_sale-init;
  entries = sale-IsTransaction.entries;
  period = sale-IsTransaction.period;
}

pub stored-IsIntegral : IsIntegral stored.db
unfolding dispatch
stored-IsIntegral =
    dispatch-IsIntegral engine platform codec (λ path compress db. ok tt)
      (Commands.create_book full_book context) empty_store empty-IsIntegral

load_book-append_transaction_example :
    load_book engine platform codec grown_store.db "B1"
    ≡ catching (persistence_integrity "B1") (append_transaction engine full_book second_sale)
load_book-append_transaction_example =
    load_book-append_transaction engine platform codec engine_laws codec_laws "B1" second_sale
      context stored grown_store receipt full_book second_sale-IsTransaction stored-runs.6
      stored-IsIntegral.0 stored-runs.0 stored-runs.5
