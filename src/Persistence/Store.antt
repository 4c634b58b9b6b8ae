-- ===== src/Persistence/Store.antt =====
-- persistence/store.py `SqliteLedgerStore`: the writes. A write runs under the writer lock, so the
-- model runs them one after another. What the connection commits is the new database; an error
-- rolls the transaction back. Telemetry and the sizes in a receipt are not modelled.
pub mod Writes
pub mod Reversals
pub mod Results
pub mod Induction
pub mod Atomic
pub mod AppendOnly
pub mod Auditing
pub mod Integrity
pub mod Parents
pub mod Reversed
use finest_vx.Prelude.{
  ℕ, zero, suc, ◌+◌, String, Bool, true, false, ◌&&◌, not, Option, none, some, List, [], ◌∷◌, ◌++◌,
  map, contains, length, ok, err, ◌>>=◌, ◌>>◌, raise_if, str_eq, select, first, if◌then◌else◌,
  Outcome,
}
use Prim.Native.String.{◌++◌ as str_append}
use finest_vx.Prelude.Int.{ℤ, pos}
use finest_vx.Core.Balance.{validate_transaction_balance}
use finest_vx.Core.Balance.Reversal.{invert}
use finest_vx.Core.Books.{transaction_init}
use finest_vx.Core.Chart.{validate_chart_of_accounts}
use finest_vx.Core.Codec.{Codec}
use finest_vx.Core.Decimal.{Decimal}
use finest_vx.Core.Engine.{Engine}
use finest_vx.Core.Entities.{entry_init}
use finest_vx.Core.Errors.{
  Error, value_error, key_error, Result, not_posted, unknown_account, not_found, already_reversed,
  reference_in_use,
}
use finest_vx.Core.Serialization.{side_value, period_state_value, transaction_state_value}
use finest_vx.Core.Serialization.Read.{transaction_from_mapping}
use finest_vx.Core.Types.{
  FiscalPeriod, Account, BookPeriod, LedgerEntry, JournalTransaction, Book, posted, is_posted,
}
use finest_vx.Persistence.Payload.{transaction_payload, entry_rows}
use finest_vx.Persistence.Platform.{Platform, Change}
use finest_vx.Persistence.Rows.{TransactionRow, Database, AuditContext, EntryRow, AuditLogRecord}
use finest_vx.Persistence.Schema.{
  insert_book, insert_account, insert_period, insert_transaction, insert_entry, check_deferred,
  has_book, has_transaction, exists_in,
}

pub record Store : Type 0 where
  pub db : Database
  pub audit_state : AuditContext

-- StoreWriteReceipt
pub record Receipt : Type 0 where
  pub changed_tables : List String
  pub change_count : ℕ
  pub indirect_change_count : ℕ

-- The loop of `_build_write_receipt` over the changes.
unfoldable pub collect_changes : Receipt → List Change → Receipt
collect_changes r [] = r
collect_changes r (c ∷ rest) =
    collect_changes
      (record {
        changed_tables =
            if contains r.changed_tables c.name
            then r.changed_tables
            else r.changed_tables ++ c.name ∷ [];
        change_count = r.change_count + 1;
        indirect_change_count =
            if c.indirect then r.indirect_change_count + 1 else r.indirect_change_count;
      })
      rest

unfoldable pub build_write_receipt : List Change → Receipt
build_write_receipt changes =
    collect_changes (record { changed_tables = []; change_count = 0; indirect_change_count = 0 })
      changes

-- `with self._writer_connection: operation()`: the new database, or the old one and the error.
unfoldable pub transact : (Database → Result Database) → Database → Result Database
transact operation db = do db' ← operation db; check_deferred db'; ok db'

-- A write: its receipt or its error, and the store that it leaves.
abbrev pub Write : Type 0
Write = Store → Result Receipt × Store

abbrev pub reject : Error → Write
reject x s = (err x, s)

module _ (p : Platform) where
  -- How a write ends: `_audit_context` gives the previous audit state back either way.
  unfoldable pub finish : AuditContext → Store → Result Database → Result Receipt × Store
  finish previous s (ok db) =
      (ok (build_write_receipt (p.changeset s.db db)), record s { db = db; audit_state = previous })
  finish previous s (err x) = (err x, record s { audit_state = previous })

  -- `_execute_write`, with `_audit_context` around it.
  unfoldable pub execute_write : (AuditContext → Database → Result Database) → AuditContext → Write
  unfolding finish transact
  execute_write operation ctx s =
      let entered = record s { audit_state = ctx } in
      finish s.audit_state entered (transact (operation entered.audit_state) entered.db)

-- `int(flag)`
abbrev pub flag_int : Bool → ℤ
flag_int b = if b then pos 1 else pos 0

abbrev pub period_part : (FiscalPeriod → ℤ) → Option FiscalPeriod → Option ℤ
period_part part none = none
period_part part (some q) = some (part q)

module _ (p : Platform) (k : Codec) where
  abbrev pub transaction_row : String → JournalTransaction → TransactionRow
  transaction_row book t = record {
    book_code = book;
    reference = t.reference;
    posted_at = k.datetime_isoformat t.posted_at;
    description = t.description;
    state = transaction_state_value t.state;
    period_fiscal_year = period_part (λ q. q.fiscal_year) t.period;
    period_quarter = period_part (λ q. q.quarter) t.period;
    period_month = period_part (λ q. q.month) t.period;
    reversal_of = t.reversal_of;
  }

  abbrev pub rate_text : Option Decimal → Option String
  rate_text none = none
  rate_text (some d) = some (k.format_decimal d)

  abbrev pub entry_row : String → String → ℕ → LedgerEntry → EntryRow
  entry_row book reference line x = record {
    book_code = book;
    transaction_reference = reference;
    line_no = line;
    account_code = x.account_code;
    side = side_value x.side;
    amount = k.format_decimal x.amount.decimal_value;
    currency = x.currency;
    description = x.description;
    tax_rate = rate_text x.tax_rate;
  }

  -- The loop over `enumerate(transaction.entries)`.
  unfoldable pub insert_entries :
      AuditContext → String → String → ℕ → List LedgerEntry → Database → Result Database
  insert_entries ctx book reference line [] db = ok db
  insert_entries ctx book reference line (x ∷ rest) db = do
    db' ← insert_entry p ctx (entry_row book reference line x) db
    insert_entries ctx book reference (suc line) rest db'

  unfoldable pub insert_transaction_rows :
      String → JournalTransaction → AuditContext → Database → Result Database
  insert_transaction_rows book t ctx db = do
    db' ← insert_transaction p ctx (transaction_row book t) db
    insert_entries ctx book t.reference 0 t.entries db'
