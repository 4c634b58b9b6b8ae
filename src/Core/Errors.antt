-- ===== src/Core/Errors.antt =====
-- The exceptions that the program raises, with what their messages are made of.
use finest_vx.Prelude.{ℕ, String, List, Outcome}
use finest_vx.Core.Types.{FiscalPeriod}

-- The messages of the `ValueError`s, by the function that raises them.
pub data Reason : Type 0 where
  -- a text field, a currency, a decimal range: the validators of ftllexengine
  invalid_field : String → Reason
  invalid_currency : String → Reason
  own_parent : String → Reason
  end_before_start : Reason
  amount_not_finite amount_negative : Reason
  too_many_decimal_places : ℕ → String → ℕ → Reason
  reverses_itself : Reason
  duplicate_account : String → Reason
  missing_parent : String → String → Reason
  account_cycle : List String → Reason
  duplicate_period : FiscalPeriod → Reason
  overlapping_periods : FiscalPeriod → FiscalPeriod → Reason
  too_few_entries : Reason
  not_balanced : List String → Reason
  not_posted : Reason
  unknown_account : String → String → Reason
  unknown_period : String → FiscalPeriod → Reason
  -- serialization: text that is no date, number or enum value
  malformed : String → Reason
  -- the store
  not_found : String → String → Reason
  already_reversed : String → String → Reason
  reference_in_use : String → String → Reason
  -- the multi-book runtime
  already_open : String → Reason
  -- the legislative registry
  pack_registered : String → Reason

-- What SQLite refuses.
pub data Constraint : Type 0 where
  primary_key foreign_key check_failed append_only : String → Constraint

pub data Error : Type 0 where
  type_error : String → Error
  value_error : Reason → Error
  key_error : String → Error
  constraint_error : Constraint → Error
  -- ftllexengine.integrity
  persistence_integrity : String → Error
  ledger_invariant : String → String → Error
  integrity_check_failed : List String → Error
  -- decimal.InvalidOperation, which is no ValueError
  decimal_error : String → Error
  -- lxml.etree.DocumentInvalid and XMLSyntaxError
  xml_error : String → Error
  -- `next` of an iterator that has ended
  stop_iteration : Error
  timeout_error : Error

abbrev pub Result : Type 0 → Type 0
Result A = Outcome Error A
