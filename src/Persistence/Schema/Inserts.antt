-- ===== src/Persistence/Schema/Inserts.antt =====
-- What a successful INSERT has tested, and the database that it leaves.
use finest_vx.Prelude.{◌≡◌, true, false, [], ◌∷◌, ◌++◌, arith, ok}
use finest_vx.Prelude.Int.{pos}
use finest_vx.Persistence.Platform.{Platform}
use finest_vx.Persistence.Rows.{
  BookRow, AccountRow, PeriodRow, TransactionRow, EntryRow, Database, AuditContext,
}
use finest_vx.Persistence.Schema.{
  audit, colon, book_cells, account_cells, period_cells, transaction_cells, entry_cells,
  insert_book, insert_account, insert_period, insert_transaction, insert_entry, has_book,
  has_account, has_period_row, has_transaction, has_entry,
}

module _ (p : Platform) (ctx : AuditContext) (db : Database) where
  abbrev pub with_book : BookRow → Database
  with_book r =
      audit p ctx "books" r.book_code (book_cells p r) (record db { books = db.books ++ r ∷ [] })

  pub insert_book-ok :
      (r : BookRow) (db' : Database)
      → insert_book p ctx r db ≡ ok db'
      → (with_book r ≡ db') × (has_book db r.book_code ≡ false)
  unfolding insert_book
  insert_book-ok r db' h = ground arith

  abbrev pub with_account : AccountRow → Database
  with_account r =
      audit p ctx "accounts" (colon r.book_code r.code) (account_cells p r)
        (record db { accounts = db.accounts ++ r ∷ [] })

  pub insert_account-ok :
      (r : AccountRow) (db' : Database)
      → insert_account p ctx r db ≡ ok db'
      → (with_account r ≡ db')
        × (has_account db r.book_code r.code ≡ false)
        × (has_book db r.book_code ≡ true)
  unfolding insert_account
  insert_account-ok r db' h = ground arith

  abbrev pub with_period : PeriodRow → Database
  with_period r =
      audit p ctx "periods"
        (colon r.book_code
          (colon (p.show_int r.fiscal_year) (colon (p.show_int r.quarter) (p.show_int r.month))))
        (period_cells p r) (record db { periods = db.periods ++ r ∷ [] })

  pub insert_period-ok :
      (r : PeriodRow) (db' : Database)
      → insert_period p ctx r db ≡ ok db'
      → (with_period r ≡ db') × (has_period_row db r ≡ false) × (has_book db r.book_code ≡ true)
  unfolding insert_period
  insert_period-ok r db' h = ground arith

  abbrev pub with_transaction : TransactionRow → Database
  with_transaction r =
      audit p ctx "transactions" (colon r.book_code r.reference) (transaction_cells p r)
        (record db { transactions = db.transactions ++ r ∷ [] })

  pub insert_transaction-ok :
      (r : TransactionRow) (db' : Database)
      → insert_transaction p ctx r db ≡ ok db'
      → (with_transaction r ≡ db')
        × (has_transaction db r.book_code r.reference ≡ false)
        × (has_book db r.book_code ≡ true)
  unfolding insert_transaction
  insert_transaction-ok r db' h = ground arith

  abbrev pub with_entry : EntryRow → Database
  with_entry r =
      audit p ctx "entries"
        (colon r.book_code (colon r.transaction_reference (p.show_int (pos r.line_no))))
        (entry_cells p r) (record db { entries = db.entries ++ r ∷ [] })

  pub insert_entry-ok :
      (r : EntryRow) (db' : Database)
      → insert_entry p ctx r db ≡ ok db'
      → (with_entry r ≡ db')
        × (has_entry db r ≡ false)
        × (has_transaction db r.book_code r.transaction_reference ≡ true)
        × (has_account db r.book_code r.account_code ≡ true)
  unfolding insert_entry
  insert_entry-ok r db' h = ground arith
