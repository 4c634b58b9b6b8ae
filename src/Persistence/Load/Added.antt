-- ===== src/Persistence/Load/Added.antt =====
-- The rows that a committed `create_book` adds to each table.
use finest_vx.Prelude.{ℕ, suc, String, ◌≡◌, List, [], ◌∷◌, ◌++◌, map, ok, ◌>>=◌, >>=-eq-ok, ◌∙◌, ap}
use mathlib.Core.List.{append-nil}
use finest_vx.Core.Codec.{Codec}
use finest_vx.Core.Errors.{Result}
use finest_vx.Core.Types.{Account, BookPeriod, LedgerEntry, JournalTransaction, Book}
use finest_vx.Persistence.Platform.{Platform}
use finest_vx.Persistence.Rows.{
  BookRow, AccountRow, PeriodRow, EntryRow, Database, AuditContext, empty_database,
}
use finest_vx.Persistence.Schema.{
  insert_book, insert_account, insert_period, insert_transaction, insert_entry,
}
use finest_vx.Persistence.Store.{
  insert_entries, insert_transaction_rows, transaction_row, entry_row,
}
use finest_vx.Persistence.Store.Writes.{
  insert_accounts, insert_periods, insert_transactions, create_operation, account_row, period_row,
}
use finest_vx.Persistence.Load.Adding.{
  Adds, both, Adds-join, Adds-nothing, insert_book-Adds, insert_account-Adds, insert_period-Adds,
  insert_transaction-Adds, insert_entry-Adds,
}

module _ (p : Platform) (k : Codec) (ctx : AuditContext) where
  abbrev pub rows_of_entries : String → String → ℕ → List LedgerEntry → List EntryRow
  rows_of_entries book reference line [] = []
  rows_of_entries book reference line (x ∷ rest) =
      entry_row p k book reference line x ∷ rows_of_entries book reference (suc line) rest

  abbrev pub all_entries : String → List JournalTransaction → List EntryRow
  all_entries book [] = []
  all_entries book (t ∷ rest) =
      rows_of_entries book t.reference 0 t.entries ++ all_entries book rest

  -- The first step and the others.
  chained :
      (c d : Database) (f g : Database → Result Database)
      → ((a b : Database) → f a ≡ ok b → Adds c a b)
      → ((a b : Database) → g a ≡ ok b → Adds d a b)
      → (a b : Database) → (f a >>= g) ≡ ok b
      → Adds (both c d) a b
  chained c d f g hf hg a b h =
      let (mid, first, second) = >>=-eq-ok (f a) g h in Adds-join (hf a mid first) (hg mid b second)

  insert_entries-Adds :
      (book reference : String) (line : ℕ) (xs : List LedgerEntry) (a b : Database)
      → insert_entries p k ctx book reference line xs a ≡ ok b
      → Adds (record empty_database { entries = rows_of_entries book reference line xs }) a b
  unfolding insert_entries
  insert_entries-Adds book reference line [] a b h = Adds-nothing a b h
  insert_entries-Adds book reference line (x ∷ rest) a b h =
      chained (record empty_database { entries = entry_row p k book reference line x ∷ [] })
        (record empty_database { entries = rows_of_entries book reference (suc line) rest })
        (insert_entry p ctx (entry_row p k book reference line x))
        (insert_entries p k ctx book reference (suc line) rest)
        (insert_entry-Adds p k ctx (entry_row p k book reference line x))
        (insert_entries-Adds book reference (suc line) rest) a b h

  abbrev pub transaction_delta : String → JournalTransaction → Database
  transaction_delta book t = record empty_database {
    transactions = transaction_row p k book t ∷ [];
    entries = rows_of_entries book t.reference 0 t.entries;
  }

  pub insert_transaction_rows-Adds :
      (book : String) (t : JournalTransaction) (a b : Database)
      → insert_transaction_rows p k book t ctx a ≡ ok b
      → Adds (transaction_delta book t) a b
  unfolding insert_transaction_rows
  insert_transaction_rows-Adds book t a b h =
      chained (record empty_database { transactions = transaction_row p k book t ∷ [] })
        (record empty_database { entries = rows_of_entries book t.reference 0 t.entries })
        (insert_transaction p ctx (transaction_row p k book t))
        (insert_entries p k ctx book t.reference 0 t.entries)
        (insert_transaction-Adds p k ctx (transaction_row p k book t))
        (insert_entries-Adds book t.reference 0 t.entries) a b h

  insert_accounts-Adds :
      (book : String) (xs : List Account) (a b : Database)
      → insert_accounts p k ctx book xs a ≡ ok b
      → Adds (record empty_database { accounts = map (account_row book) xs }) a b
  unfolding insert_accounts
  insert_accounts-Adds book [] a b h = Adds-nothing a b h
  insert_accounts-Adds book (x ∷ rest) a b h =
      chained (record empty_database { accounts = account_row book x ∷ [] })
        (record empty_database { accounts = map (account_row book) rest })
        (insert_account p ctx (account_row book x)) (insert_accounts p k ctx book rest)
        (insert_account-Adds p k ctx (account_row book x)) (insert_accounts-Adds book rest) a b h

  insert_periods-Adds :
      (book : String) (xs : List BookPeriod) (a b : Database)
      → insert_periods p k ctx book xs a ≡ ok b
      → Adds (record empty_database { periods = map (period_row p k book) xs }) a b
  unfolding insert_periods
  insert_periods-Adds book [] a b h = Adds-nothing a b h
  insert_periods-Adds book (x ∷ rest) a b h =
      chained (record empty_database { periods = period_row p k book x ∷ [] })
        (record empty_database { periods = map (period_row p k book) rest })
        (insert_period p ctx (period_row p k book x)) (insert_periods p k ctx book rest)
        (insert_period-Adds p k ctx (period_row p k book x)) (insert_periods-Adds book rest) a b h

  insert_transactions-Adds :
      (book : String) (xs : List JournalTransaction) (a b : Database)
      → insert_transactions p k ctx book xs a ≡ ok b
      → Adds
          (record empty_database {
            transactions = map (transaction_row p k book) xs;
            entries = all_entries book xs;
          })
          a
          b
  unfolding insert_transactions
  insert_transactions-Adds book [] a b h = Adds-nothing a b h
  insert_transactions-Adds book (x ∷ rest) a b h =
      chained (transaction_delta book x)
        (record empty_database {
          transactions = map (transaction_row p k book) rest;
          entries = all_entries book rest;
        })
        (insert_transaction_rows p k book x ctx) (insert_transactions p k ctx book rest)
        (insert_transaction_rows-Adds book x) (insert_transactions-Adds book rest) a b h

  abbrev pub row_of_book : Book → BookRow
  row_of_book b = record {
    book_code = b.code;
    name = b.name;
    base_currency = b.base_currency;
    fiscal_start_month = b.fiscal_calendar;
    legislative_pack = b.legislative_pack;
  }

  -- All rows of the book.
  abbrev pub rows_of_book : Book → Database
  rows_of_book b = record {
    books = row_of_book b ∷ [];
    accounts = map (account_row b.code) b.accounts;
    periods = map (period_row p k b.code) b.periods;
    transactions = map (transaction_row p k b.code) b.transactions;
    entries = all_entries b.code b.transactions;
    audit_log = [];
  }

  pub create_operation-Adds :
      (b : Book) (db db' : Database)
      → create_operation p k b ctx db ≡ ok db'
      → Adds (rows_of_book b) db db'
  unfolding create_operation
  create_operation-Adds b db db' h =
      let (db1, booked, h1) = >>=-eq-ok (insert_book p ctx (row_of_book b) db) _ h in
      let (db2, accounted, h2) = >>=-eq-ok (insert_accounts p k ctx b.code b.accounts db1) _ h1 in
      let (db3, dated, last) = >>=-eq-ok (insert_periods p k ctx b.code b.periods db2) _ h2 in
      let all = Adds-join (insert_book-Adds p k ctx (row_of_book b) db db1 booked) (
        Adds-join (insert_accounts-Adds b.code b.accounts db1 db2 accounted) (
          Adds-join (insert_periods-Adds b.code b.periods db2 db3 dated)
            (insert_transactions-Adds b.code b.transactions db3 db' last))) in
      record {
        books = all.books;
        accounts =
            all.accounts
            ∙ ap (λ (l : List AccountRow). db.accounts ++ l)
                (append-nil (map (account_row b.code) b.accounts));
        periods =
            all.periods
            ∙ ap (λ (l : List PeriodRow). db.periods ++ l)
                (append-nil (map (period_row p k b.code) b.periods));
        transactions = all.transactions;
        entries = all.entries;
      }
