-- ===== src/Core/Types.antt =====
-- core/enums.py, core/types.py and the fields of the dataclasses of core/models.py. Every value has
-- its declared type, so the `isinstance` guards of the source have nothing to refuse. A date is its
-- ordinal, a datetime a number that stands for it, a FluentNumber its `decimal_value`.
use finest_vx.Prelude.{ℕ, String, Bool, true, false, ◌&&◌, Option, none, some, List, str_eq}
use finest_vx.Prelude.Int.{ℤ, eq_ℤ}
use finest_vx.Core.Decimal.{Decimal}

pub data PostingSide : Type 0 where
  debit credit : PostingSide

pub data FiscalPeriodState : Type 0 where
  open_state closed locked : FiscalPeriodState

pub data TransactionState : Type 0 where
  draft posted reversed : TransactionState

-- `side is PostingSide....`
unfoldable pub side_eq : PostingSide → PostingSide → Bool
side_eq debit debit = true
side_eq credit credit = true
side_eq _ _ = false

unfoldable pub is_posted : TransactionState → Bool
is_posted posted = true
is_posted _ = false

-- The third-party FiscalPeriod: what the source reads of it.
pub record FiscalPeriod : Type 0 where
  pub fiscal_year : ℤ
  pub quarter : ℤ
  pub month : ℤ

unfoldable pub period_eq : FiscalPeriod → FiscalPeriod → Bool
period_eq p q =
    eq_ℤ p.fiscal_year q.fiscal_year && (eq_ℤ p.quarter q.quarter && eq_ℤ p.month q.month)

-- `a == b` of two optional texts.
abbrev pub option_str_eq : Option String → Option String → Bool
option_str_eq none none = true
option_str_eq (some a) (some b) = str_eq a b
option_str_eq _ _ = false

pub record Account : Type 0 where
  pub code : String
  pub name : String
  pub normal_side : PostingSide
  pub currency : String
  pub parent_code : Option String
  pub allow_posting : Bool
  pub active : Bool

pub record BookPeriod : Type 0 where
  pub period : FiscalPeriod
  pub start_date : ℕ
  pub end_date : ℕ
  pub state : FiscalPeriodState

-- What the program can see of a ftllexengine FluentNumber: the number, and how it is displayed.
pub record FluentNumber : Type 0 where
  pub decimal_value : Decimal
  pub formatted : String
  pub precision : Option ℕ

pub record LedgerEntry : Type 0 where
  pub account_code : String
  pub side : PostingSide
  pub amount : FluentNumber
  pub currency : String
  pub description : Option String
  pub tax_rate : Option Decimal

pub record JournalTransaction : Type 0 where
  pub reference : String
  pub posted_at : ℕ
  pub description : String
  pub entries : List LedgerEntry
  pub period : Option FiscalPeriod
  pub state : TransactionState
  pub reversal_of : Option String

-- `fiscal_calendar` is the calendar's `start_month`, the one field that the source reads.
pub record Book : Type 0 where
  pub code : String
  pub name : String
  pub base_currency : String
  pub fiscal_calendar : ℤ
  pub legislative_pack : String
  pub accounts : List Account
  pub periods : List BookPeriod
  pub transactions : List JournalTransaction
