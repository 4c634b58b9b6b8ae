-- ===== src/Persistence/Rows.antt =====
-- persistence/schema.py `_SCHEMA_SQL`: the columns of each table, and the database as its tables,
-- each in the order of insertion. persistence/config.py AuditContext and store.py `_AuditState`.
use finest_vx.Prelude.{ℕ, String, Option, none, List, []}
use finest_vx.Prelude.Int.{ℤ}

pub record BookRow : Type 0 where
  pub book_code : String
  pub name : String
  pub base_currency : String
  pub fiscal_start_month : ℤ
  pub legislative_pack : String

pub record AccountRow : Type 0 where
  pub book_code : String
  pub code : String
  pub name : String
  pub normal_side : String
  pub currency : String
  pub parent_code : Option String
  pub allow_posting : ℤ
  pub active : ℤ

pub record PeriodRow : Type 0 where
  pub book_code : String
  pub fiscal_year : ℤ
  pub quarter : ℤ
  pub month : ℤ
  pub start_date : String
  pub end_date : String
  pub state : String

pub record TransactionRow : Type 0 where
  pub book_code : String
  pub reference : String
  pub posted_at : String
  pub description : String
  pub state : String
  pub period_fiscal_year : Option ℤ
  pub period_quarter : Option ℤ
  pub period_month : Option ℤ
  pub reversal_of : Option String

pub record EntryRow : Type 0 where
  pub book_code : String
  pub transaction_reference : String
  pub line_no : ℕ
  pub account_code : String
  pub side : String
  pub amount : String
  pub currency : String
  pub description : Option String
  pub tax_rate : Option String

-- A row of `audit_log`, the AuditLogRecord of store.py.
pub record AuditLogRecord : Type 0 where
  pub seq : ℕ
  pub table_name : String
  pub operation : String
  pub row_pk : String
  pub actor : String
  pub reason : String
  pub session_id : Option String
  pub monotonic_ms : ℕ
  pub row_signature : String
  pub row_payload : String

pub record Database : Type 0 where
  pub books : List BookRow
  pub accounts : List AccountRow
  pub periods : List PeriodRow
  pub transactions : List TransactionRow
  pub entries : List EntryRow
  pub audit_log : List AuditLogRecord

abbrev pub empty_database : Database
empty_database = record {
  books = [];
  accounts = [];
  periods = [];
  transactions = [];
  entries = [];
  audit_log = [];
}

pub record AuditContext : Type 0 where
  pub actor : String
  pub reason : String
  pub session_id : Option String

-- `_AuditState` before the first write.
abbrev pub initial_audit_state : AuditContext
initial_audit_state = record { actor = "system"; reason = "schema/bootstrap"; session_id = none }
