-- ===== src/Core/Books.antt =====
-- core/models.py: `JournalTransaction.__post_init__`, `Book.__post_init__` and the methods of Book.
pub mod Valid
pub mod Append
use finest_vx.Prelude.{
  String, Bool, true, Option, none, some, List, [], ◌∷◌, ◌++◌, map, not, contains, ok, ◌>>=◌, ◌>>◌,
  raise_if, str_eq, if◌then◌else◌,
}
use finest_vx.Core.Balance.{validate_transaction_entries}
use finest_vx.Core.Chart.{codes, validate_account_collection}
use finest_vx.Core.Engine.{Engine}
use finest_vx.Core.Entities.{normalize_currency}
use finest_vx.Core.Errors.{
  value_error, Result, reverses_itself, not_posted, unknown_account, unknown_period,
}
use finest_vx.Core.Periods.{has_period, validate_period_collection}
use finest_vx.Core.Types.{
  FiscalPeriod, Account, BookPeriod, LedgerEntry, TransactionState, is_posted, JournalTransaction,
  Book, option_str_eq,
}

-- Only a posted transaction has to balance.
unfoldable pub check_entries : TransactionState → List LedgerEntry → Result (Unit {0})
check_entries state entries =
    if is_posted state then validate_transaction_entries entries else ok tt

unfoldable pub check_entry_accounts : List String → String → List LedgerEntry → Result (Unit {0})
check_entry_accounts known reference [] = ok tt
check_entry_accounts known reference (x ∷ rest) = do
  raise_if (not (contains known x.account_code))
      (value_error (unknown_account reference x.account_code))
  check_entry_accounts known reference rest

unfoldable pub validate_transactions_against_accounts :
    List String → List JournalTransaction → Result (Unit {0})
validate_transactions_against_accounts known [] = ok tt
validate_transactions_against_accounts known (t ∷ rest) = do
  raise_if (not (is_posted t.state)) (value_error not_posted)
  check_entry_accounts known t.reference t.entries
  validate_transactions_against_accounts known rest

unfoldable pub check_transaction_period :
    List FiscalPeriod → String → Option FiscalPeriod → Result (Unit {0})
check_transaction_period known reference none = ok tt
check_transaction_period known reference (some p) =
    raise_if (not (has_period known p)) (value_error (unknown_period reference p))

-- The last loop of `Book.__post_init__`.
unfoldable pub check_transaction_periods :
    List FiscalPeriod → List JournalTransaction → Result (Unit {0})
check_transaction_periods known [] = ok tt
check_transaction_periods known (t ∷ rest) = do
  check_transaction_period known t.reference t.period
  check_transaction_periods known rest

-- The fiscal periods of the book, `period_set`.
abbrev pub period_set : List BookPeriod → List FiscalPeriod
period_set = map (λ p. p.period)

-- `account_map()[code]`, for distinct codes.
unfoldable pub account_map : List Account → String → Option Account
account_map [] c = none
account_map (a ∷ rest) c = if str_eq a.code c then some a else account_map rest c

module _ (e : Engine) where
  unfoldable pub transaction_init : JournalTransaction → Result JournalTransaction
  transaction_init t = do
    reference ← e.require_non_empty_str t.reference
    description ← e.require_non_empty_str t.description
    reversal_of ← e.normalize_optional_str t.reversal_of
    raise_if (option_str_eq reversal_of (some reference)) (value_error reverses_itself)
    check_entries t.state t.entries
    ok (record t { reference = reference; description = description; reversal_of = reversal_of })

  unfoldable pub book_init : Book → Result Book
  book_init b = do
    code ← e.require_non_empty_str b.code
    name ← e.require_non_empty_str b.name
    base_currency ← normalize_currency e b.base_currency
    legislative_pack ← e.require_non_empty_str b.legislative_pack
    validate_account_collection b.accounts
    validate_period_collection b.periods
    validate_transactions_against_accounts (codes b.accounts) b.transactions
    check_transaction_periods (period_set b.periods) b.transactions
    ok (record b {
      code = code;
      name = name;
      base_currency = base_currency;
      legislative_pack = legislative_pack;
    })

  -- `replace(self, accounts=(*self.accounts, account))` runs `__post_init__` again.
  unfoldable pub append_account : Book → Account → Result Book
  append_account b a = book_init (record b { accounts = b.accounts ++ a ∷ [] })

  unfoldable pub append_transaction : Book → JournalTransaction → Result Book
  append_transaction b t = book_init (record b { transactions = b.transactions ++ t ∷ [] })
