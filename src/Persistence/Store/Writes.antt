-- ===== src/Persistence/Store/Writes.antt =====
-- persistence/store.py: `create_book` and `append_transaction`.
use finest_vx.Prelude.{String, List, [], ◌∷◌, map, str_eq, select, ok, err, ◌>>=◌, if◌then◌else◌}
use finest_vx.Core.Balance.{validate_transaction_balance}
use finest_vx.Core.Books.{check_entry_accounts}
use finest_vx.Core.Chart.{validate_chart_of_accounts}
use finest_vx.Core.Codec.{Codec}
use finest_vx.Core.Errors.{value_error, key_error, Result, not_posted}
use finest_vx.Core.Serialization.{side_value, period_state_value}
use finest_vx.Core.Types.{Account, BookPeriod, JournalTransaction, Book, is_posted}
use finest_vx.Persistence.Platform.{Platform}
use finest_vx.Persistence.Rows.{AccountRow, PeriodRow, Database, AuditContext}
use finest_vx.Persistence.Schema.{insert_book, insert_account, insert_period}
use finest_vx.Persistence.Store.{Write, reject, execute_write, insert_transaction_rows, flag_int}

abbrev pub account_row : String → Account → AccountRow
account_row book a = record {
  book_code = book;
  code = a.code;
  name = a.name;
  normal_side = side_value a.normal_side;
  currency = a.currency;
  parent_code = a.parent_code;
  allow_posting = flag_int a.allow_posting;
  active = flag_int a.active;
}

-- A check before the write: on an error nothing is written.
abbrev pub after : {A : Type 0} → Result A → (A → Write) → Write
after (ok a) f = f a
after (err x) f = reject x

-- `{row[0] for row in SELECT code FROM accounts WHERE book_code = ?}`
abbrev pub known_account_codes : Database → String → List String
known_account_codes db book = map (λ r. r.code) (select (λ r. str_eq r.book_code book) db.accounts)

module _ (p : Platform) (k : Codec) where
  abbrev pub period_row : String → BookPeriod → PeriodRow
  period_row book q = record {
    book_code = book;
    fiscal_year = q.period.fiscal_year;
    quarter = q.period.quarter;
    month = q.period.month;
    start_date = k.date_isoformat q.start_date;
    end_date = k.date_isoformat q.end_date;
    state = period_state_value q.state;
  }

  unfoldable pub insert_accounts : AuditContext → String → List Account → Database → Result Database
  insert_accounts ctx book [] db = ok db
  insert_accounts ctx book (a ∷ rest) db = do
    db' ← insert_account p ctx (account_row book a) db
    insert_accounts ctx book rest db'

  unfoldable pub insert_periods :
      AuditContext → String → List BookPeriod → Database → Result Database
  insert_periods ctx book [] db = ok db
  insert_periods ctx book (q ∷ rest) db = do
    db' ← insert_period p ctx (period_row book q) db
    insert_periods ctx book rest db'

  unfoldable pub insert_transactions :
      AuditContext → String → List JournalTransaction → Database → Result Database
  insert_transactions ctx book [] db = ok db
  insert_transactions ctx book (t ∷ rest) db = do
    db' ← insert_transaction_rows p k book t ctx db
    insert_transactions ctx book rest db'

  -- The `operation` of `create_book`.
  unfoldable pub create_operation : Book → AuditContext → Database → Result Database
  create_operation b ctx db = do
    db1 ←
        insert_book p ctx
          (record {
            book_code = b.code;
            name = b.name;
            base_currency = b.base_currency;
            fiscal_start_month = b.fiscal_calendar;
            legislative_pack = b.legislative_pack;
          })
          db
    db2 ← insert_accounts ctx b.code b.accounts db1
    db3 ← insert_periods ctx b.code b.periods db2
    insert_transactions ctx b.code b.transactions db3

  unfoldable pub create_book : Book → AuditContext → Write
  create_book b ctx =
      after (validate_chart_of_accounts b.accounts) (λ _. execute_write p (create_operation b) ctx)

  -- The loop over the entries, against the codes read from the store.
  unfoldable pub check_accounts : Database → String → JournalTransaction → Result (Unit {0})
  check_accounts db book t = elim (known_account_codes db book) [
    | [] ↦ err (key_error book)
    | c ∷ rest ↦ check_entry_accounts (c ∷ rest) book t.entries
  ]

  unfoldable pub append_transaction : String → JournalTransaction → AuditContext → Write
  unfolding check_accounts
  append_transaction book t ctx s =
      if is_posted t.state
      then after (validate_transaction_balance t)
          (λ _.
            after (check_accounts s.db book t)
              (λ _. execute_write p (insert_transaction_rows p k book t) ctx))
          s
      else reject (value_error not_posted) s
