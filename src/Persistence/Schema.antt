-- ===== src/Persistence/Schema.antt =====
-- persistence/schema.py: one function for each INSERT, with the CHECK, PRIMARY KEY and FOREIGN KEY
-- constraints of the table and its audit trigger. Nothing updates or deletes rows: the triggers
-- `..._no_update` and `..._no_delete` abort every such statement.
pub mod Inserts
pub use finest_vx.Persistence.Keys.{
  between, text_cell, int_cell, exists_in, has_book, has_account, has_transaction, has_period_row,
  has_entry, max_seq, colon,
}
use text.Mathlib.Text.{starts_with}
use finest_vx.Prelude.{
  ℕ, suc, String, Bool, true, false, ◌&&◌, not, Option, none, some, List, [], ◌∷◌, ◌++◌, str_eq,
  contains, ok, ◌>>=◌, ◌>>◌, raise_if, if◌then◌else◌,
}
use finest_vx.Prelude.Int.{ℤ, pos}
use finest_vx.Core.Errors.{constraint_error, primary_key, foreign_key, check_failed, Result}
use finest_vx.Core.Value.{int, str, Fields, end, field}
use finest_vx.Persistence.Platform.{Platform}
use finest_vx.Persistence.Rows.{
  BookRow, AccountRow, PeriodRow, TransactionRow, EntryRow, AuditLogRecord, Database, AuditContext,
}

module _ (p : Platform) where
  -- The INSERT into `audit_log` of a trigger; `blake2_hex(json_object(...))` signs the payload.
  unfoldable pub audit : AuditContext → String → String → Fields → Database → Database
  audit ctx table pk cells db = record db {
    audit_log =
        db.audit_log
        ++ record {
          seq = suc (max_seq db.audit_log);
          table_name = table;
          operation = "INSERT";
          row_pk = pk;
          actor = ctx.actor;
          reason = ctx.reason;
          session_id = ctx.session_id;
          monotonic_ms = p.monotonic_ms (suc (max_seq db.audit_log));
          row_signature = p.blake2_hex (p.json_object cells);
          row_payload = p.json_object cells;
        }
          ∷ [];
  }

  abbrev pub book_cells : BookRow → Fields
  book_cells r = field "book_code" (str r.book_code) (
      field "name" (str r.name) (
        field "base_currency" (str r.base_currency) (
          field "fiscal_start_month" (int r.fiscal_start_month)
            (field "legislative_pack" (str r.legislative_pack) end))))

  unfoldable pub insert_book : AuditContext → BookRow → Database → Result Database
  unfolding audit
  insert_book ctx r db = do
    raise_if (not (between (pos 1) (pos 12) r.fiscal_start_month))
        (constraint_error (check_failed "books"))
    raise_if (has_book db r.book_code) (constraint_error (primary_key "books"))
    ok (audit ctx "books" r.book_code (book_cells r) (record db { books = db.books ++ r ∷ [] }))

  abbrev pub account_cells : AccountRow → Fields
  account_cells r = field "book_code" (str r.book_code) (
      field "code" (str r.code) (
        field "name" (str r.name) (
          field "normal_side" (str r.normal_side) (
            field "currency" (str r.currency) (
              field "parent_code" (text_cell r.parent_code) (
                field "allow_posting" (int r.allow_posting)
                  (field "active" (int r.active) end)))))))

  -- The foreign key to the parent is deferred: `check_deferred` tests it at the commit.
  unfoldable pub insert_account : AuditContext → AccountRow → Database → Result Database
  unfolding audit
  insert_account ctx r db = do
    raise_if
        (not (
          contains ("Dr" ∷ "Cr" ∷ []) r.normal_side
          && (between (pos 0) (pos 1) r.allow_posting && between (pos 0) (pos 1) r.active)))
        (constraint_error (check_failed "accounts"))
    raise_if (has_account db r.book_code r.code) (constraint_error (primary_key "accounts"))
    raise_if (not (has_book db r.book_code)) (constraint_error (foreign_key "accounts"))
    ok (
        audit ctx "accounts" (colon r.book_code r.code) (account_cells r)
          (record db { accounts = db.accounts ++ r ∷ [] }))

  abbrev pub period_cells : PeriodRow → Fields
  period_cells r = field "book_code" (str r.book_code) (
      field "fiscal_year" (int r.fiscal_year) (
        field "quarter" (int r.quarter) (
          field "month" (int r.month) (
            field "start_date" (str r.start_date)
              (field "end_date" (str r.end_date) (field "state" (str r.state) end))))))

  unfoldable pub insert_period : AuditContext → PeriodRow → Database → Result Database
  unfolding audit
  insert_period ctx r db = do
    raise_if
        (not (
          between (pos 1) (pos 4) r.quarter
          && (between (pos 1) (pos 12) r.month
              && contains ("open" ∷ "closed" ∷ "locked" ∷ []) r.state)))
        (constraint_error (check_failed "periods"))
    raise_if (has_period_row db r) (constraint_error (primary_key "periods"))
    raise_if (not (has_book db r.book_code)) (constraint_error (foreign_key "periods"))
    ok (
        audit ctx "periods"
          (colon r.book_code
            (colon (p.show_int r.fiscal_year) (colon (p.show_int r.quarter) (p.show_int r.month))))
          (period_cells r) (record db { periods = db.periods ++ r ∷ [] }))

  abbrev pub transaction_cells : TransactionRow → Fields
  transaction_cells r = field "book_code" (str r.book_code) (
      field "reference" (str r.reference) (
        field "posted_at" (str r.posted_at) (
          field "description" (str r.description) (
            field "state" (str r.state) (
              field "period_fiscal_year" (int_cell r.period_fiscal_year) (
                field "period_quarter" (int_cell r.period_quarter) (
                  field "period_month" (int_cell r.period_month)
                    (field "reversal_of" (text_cell r.reversal_of) end))))))))

  -- The three period columns are all NULL or none of them is.
  abbrev pub period_columns : Option ℤ → Option ℤ → Option ℤ → Bool
  period_columns none none none = true
  period_columns (some _) (some _) (some _) = true
  period_columns _ _ _ = false

  unfoldable pub insert_transaction : AuditContext → TransactionRow → Database → Result Database
  unfolding audit
  insert_transaction ctx r db = do
    raise_if
        (not (
          contains ("draft" ∷ "posted" ∷ "reversed" ∷ []) r.state
          && period_columns r.period_fiscal_year r.period_quarter r.period_month))
        (constraint_error (check_failed "transactions"))
    raise_if (has_transaction db r.book_code r.reference)
        (constraint_error (primary_key "transactions"))
    raise_if (not (has_book db r.book_code)) (constraint_error (foreign_key "transactions"))
    ok (
        audit ctx "transactions" (colon r.book_code r.reference) (transaction_cells r)
          (record db { transactions = db.transactions ++ r ∷ [] }))

  abbrev pub entry_cells : EntryRow → Fields
  entry_cells r = field "book_code" (str r.book_code) (
      field "transaction_reference" (str r.transaction_reference) (
        field "line_no" (int (pos r.line_no)) (
          field "account_code" (str r.account_code) (
            field "side" (str r.side) (
              field "amount" (str r.amount) (
                field "currency" (str r.currency) (
                  field "description" (text_cell r.description)
                    (field "tax_rate" (text_cell r.tax_rate) end))))))))

  -- `text NOT LIKE '-%'`
  abbrev pub not_signed : Option String → Bool
  not_signed none = true
  not_signed (some s) = not (starts_with s "-")

  unfoldable pub insert_entry : AuditContext → EntryRow → Database → Result Database
  unfolding audit
  insert_entry ctx r db = do
    raise_if
        (not (
          contains ("Dr" ∷ "Cr" ∷ []) r.side
          && (not (str_eq r.amount "") && (not_signed (some r.amount) && not_signed r.tax_rate))))
        (constraint_error (check_failed "entries"))
    raise_if (has_entry db r) (constraint_error (primary_key "entries"))
    raise_if (not (has_transaction db r.book_code r.transaction_reference))
        (constraint_error (foreign_key "entries"))
    raise_if (not (has_account db r.book_code r.account_code))
        (constraint_error (foreign_key "entries"))
    ok (
        audit ctx "entries"
          (colon r.book_code (colon r.transaction_reference (p.show_int (pos r.line_no))))
          (entry_cells r) (record db { entries = db.entries ++ r ∷ [] }))

-- The deferred foreign key of `accounts`, tested when a transaction commits.
unfoldable pub parents_known : Database → List AccountRow → Bool
parents_known db [] = true
parents_known db (r ∷ rest) =
    elim r.parent_code [ none ↦ true | some c ↦ has_account db r.book_code c ]
    && parents_known db rest

unfoldable pub check_deferred : Database → Result (Unit {0})
unfolding parents_known
check_deferred db =
    raise_if (not (parents_known db db.accounts)) (constraint_error (foreign_key "accounts"))
