-- ===== src/Tests/Fixtures.antt =====
-- A concrete engine and platform, and a small book.
use finest_vx.Prelude.{
  String, true, false, ◌≡◌, refl, none, some, [], ◌∷◌, arith, str_eq, str_eq_iff, ok, err,
  if◌then◌else◌,
}
use finest_vx.Prelude.Int.{pos, negsuc}
use finest_vx.Core.Decimal.{Decimal, finite}
use finest_vx.Core.Engine.{Engine, EngineLaws}
use finest_vx.Core.Errors.{Result, value_error, invalid_field}
use finest_vx.Core.Types.{
  debit, credit, open_state, posted, FiscalPeriod, FluentNumber, Account, BookPeriod, LedgerEntry,
  JournalTransaction, Book,
}
use finest_vx.Persistence.Platform.{Platform}
use finest_vx.Persistence.Rows.{AuditContext, empty_database, initial_audit_state}
use finest_vx.Persistence.Store.{Store}

-- No text is empty, EUR with two digits is the one currency.
abbrev pub non_empty : String → Result String
non_empty s = if str_eq s "" then err (value_error (invalid_field s)) else ok s

abbrev pub usual : Decimal → FluentNumber
usual d = record { decimal_value = d; formatted = ""; precision = none }

abbrev pub engine : Engine
engine = record {
  require_non_empty_str = non_empty;
  normalize_optional_str = λ o. ok o;
  make_fluent_number = usual;
  upper = λ s. s;
  is_valid_currency_code = λ c. str_eq c "EUR";
  get_currency_decimal_digits = λ c. some 2;
  normalize_tax_rate = λ r. ok r;
}

non_empty-valid : (c : String) → str_eq c "EUR" ≡ true → non_empty c ≡ ok c
non_empty-valid c h = rw ((str_eq_iff c "EUR").0 h)

non_empty_idem : (s t : String) → non_empty s ≡ ok t → non_empty t ≡ ok t
non_empty_idem s t h = ground arith

pub engine_laws : EngineLaws engine
engine_laws = record {
  require_idem = non_empty_idem;
  optional_idem = λ s t h. refl;
  currency_upper = λ c h. refl;
  currency_stripped = non_empty-valid;
  tax_rate_idem = λ r s h. refl;
}

abbrev pub platform : Platform
platform = record {
  json_object = λ cells. "{}";
  show_int = λ i. "0";
  json_dumps = λ v. "{}";
  blake2_hex = λ s. s;
  monotonic_ms = λ n. n;
  changeset = λ a b. [];
  text_le = λ a b. true;
}

abbrev pub january : FiscalPeriod
january = record { fiscal_year = pos 2026; quarter = pos 1; month = pos 1 }

abbrev pub february : FiscalPeriod
february = record { fiscal_year = pos 2026; quarter = pos 1; month = pos 2 }

abbrev pub first_period : BookPeriod
first_period = record { period = january; start_date = 1; end_date = 31; state = open_state }

abbrev pub second_period : BookPeriod
second_period = record { period = february; start_date = 32; end_date = 59; state = open_state }

abbrev pub cash : Account
cash = record {
  code = "1000";
  name = "Cash";
  normal_side = debit;
  currency = "EUR";
  parent_code = none;
  allow_posting = true;
  active = true;
}

abbrev pub sales : Account
sales = record {
  code = "4000";
  name = "Sales";
  normal_side = credit;
  currency = "EUR";
  parent_code = some "1000";
  allow_posting = true;
  active = true;
}

-- 10.00 EUR
abbrev pub received : LedgerEntry
received = record {
  account_code = "1000";
  side = debit;
  amount = usual (finite false 1000 (negsuc 1));
  currency = "EUR";
  description = none;
  tax_rate = none;
}

abbrev pub sold : LedgerEntry
sold = record received { account_code = "4000"; side = credit }

abbrev pub sale : JournalTransaction
sale = record {
  reference = "T1";
  posted_at = 7;
  description = "Sale";
  entries = received ∷ sold ∷ [];
  period = some january;
  state = posted;
  reversal_of = none;
}

abbrev pub book : Book
book = record {
  code = "B1";
  name = "Book";
  base_currency = "EUR";
  fiscal_calendar = pos 1;
  legislative_pack = "lv.standard.2026";
  accounts = cash ∷ sales ∷ [];
  periods = first_period ∷ second_period ∷ [];
  transactions = [];
}

abbrev pub context : AuditContext
context = record { actor = "anna"; reason = "sale"; session_id = none }

abbrev pub empty_store : Store
empty_store = record { db = empty_database; audit_state = initial_audit_state }
