-- ===== src/Persistence/Load.antt =====
-- persistence/store.py `_load_book_from_connection`, `list_book_codes` and `export_book_payload`: the
-- reads of a book. An async reader runs the same statements.
pub mod Loaded
pub mod Adding
pub mod Added
pub mod Selected
pub mod Reread
pub mod Created
pub mod Grown
pub mod Regrown
pub mod Appended
use finest_vx.Prelude.{
  String, Bool, true, false, ◌&&◌, Option, none, some, List, [], ◌∷◌, map, str_eq, select, first,
  order_by, ok, err, ◌>>=◌, ◌>>◌, if◌then◌else◌,
}
use finest_vx.Prelude.Int.{ℤ, leb_ℤ}
use finest_vx.Core.Balance.{validate_transaction_balance}
use finest_vx.Core.Chart.{validate_chart_of_accounts}
use finest_vx.Core.Codec.{Codec}
use finest_vx.Core.Engine.{Engine}
use finest_vx.Core.Errors.{
  Error, type_error, value_error, key_error, persistence_integrity, ledger_invariant, Result,
}
use finest_vx.Core.Serialization.{book_to_mapping}
use finest_vx.Core.Serialization.ReadBook.{book_from_mapping}
use finest_vx.Core.Types.{JournalTransaction, Book}
use finest_vx.Core.Value.{Value}
use finest_vx.Persistence.Payload.{build_book_payload}
use finest_vx.Persistence.Platform.{Platform}
use finest_vx.Persistence.Rows.{BookRow, AccountRow, PeriodRow, TransactionRow, Database}

-- The next column of an ORDER BY decides where the first one is equal both ways.
abbrev pub then_by : Bool → Bool → Bool → Bool
then_by le ge next = if le && ge then next else le

-- `except (TypeError, ValueError)`: another exception passes.
unfoldable pub catching : {A : Type 0} → Error → Result A → Result A
catching replacement (ok a) = ok a
catching replacement (err (type_error x)) = err replacement
catching replacement (err (value_error x)) = err replacement
catching replacement (err x) = err x

unfoldable pub check_balances : List JournalTransaction → Result (Unit {0})
unfolding catching
check_balances [] = ok tt
check_balances (t ∷ rest) = do
  catching (ledger_invariant "TRANSACTION_BALANCE" t.reference) (validate_transaction_balance t)
  check_balances rest

-- The checks after the payload was read.
unfoldable pub check_book : String → Book → Result Book
unfolding catching
check_book code b = do
  catching (ledger_invariant "COA_INVARIANT" code) (validate_chart_of_accounts b.accounts)
  check_balances b.transactions
  ok b

module _ (p : Platform) where
  abbrev pub text_then : String → String → Bool → Bool
  text_then a b next = then_by (p.text_le a b) (p.text_le b a) next

  abbrev pub int_then : ℤ → ℤ → Bool → Bool
  int_then a b next = then_by (leb_ℤ a b) (leb_ℤ b a) next

  -- The orders of the ORDER BY clauses.
  abbrev pub account_le : AccountRow → AccountRow → Bool
  account_le a b = p.text_le a.code b.code

  abbrev pub period_le : PeriodRow → PeriodRow → Bool
  period_le a b = text_then a.start_date b.start_date (
      text_then a.end_date b.end_date (
        int_then a.fiscal_year b.fiscal_year
          (int_then a.quarter b.quarter (leb_ℤ a.month b.month))))

  abbrev pub transaction_le : TransactionRow → TransactionRow → Bool
  transaction_le a b = text_then a.posted_at b.posted_at (p.text_le a.reference b.reference)

  unfoldable pub account_rows : Database → String → List AccountRow
  account_rows db book = order_by account_le (select (λ r. str_eq r.book_code book) db.accounts)

  unfoldable pub period_rows : Database → String → List PeriodRow
  period_rows db book = order_by period_le (select (λ r. str_eq r.book_code book) db.periods)

  unfoldable pub transaction_rows : Database → String → List TransactionRow
  transaction_rows db book =
      order_by transaction_le (select (λ r. str_eq r.book_code book) db.transactions)

  unfoldable pub list_book_codes : Database → List String
  list_book_codes db = order_by p.text_le (map (λ (r : BookRow). r.book_code) db.books)

  unfoldable pub stored_payload : Database → BookRow → Value
  unfolding build_book_payload account_rows period_rows transaction_rows
  stored_payload db row =
      build_book_payload db row (account_rows db row.book_code) (period_rows db row.book_code)
        (transaction_rows db row.book_code)

module _ (e : Engine) (p : Platform) (k : Codec) where
  unfoldable pub load_row : Database → String → Option BookRow → Result Book
  unfolding catching check_book
  load_row db code none = err (key_error code)
  load_row db code (some row) = do
    b ← catching (persistence_integrity code) (book_from_mapping e k (stored_payload p db row))
    check_book code b

  unfoldable pub load_book : Database → String → Result Book
  unfolding load_row
  load_book db code = load_row db code (first (select (λ r. str_eq r.book_code code) db.books))

  unfoldable pub export_book_payload : Database → String → Result Value
  export_book_payload db code = do b ← load_book db code; ok (book_to_mapping k b)
