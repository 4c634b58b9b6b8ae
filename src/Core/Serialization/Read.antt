-- ===== src/Core/Serialization/Read.antt =====
-- core/serialization.py: from payloads to domain objects, whose constructors validate again.
use finest_vx.Prelude.{
  String, Option, none, some, List, [], ◌∷◌, str_eq, ok, err, ◌>>=◌, if◌then◌else◌,
}
use finest_vx.Core.Books.{transaction_init}
use finest_vx.Core.Codec.{Codec}
use finest_vx.Core.Decimal.{Decimal}
use finest_vx.Core.Engine.{Engine}
use finest_vx.Core.Entities.{account_init, entry_init}
use finest_vx.Core.Errors.{type_error, value_error, malformed, Result}
use finest_vx.Core.Types.{
  PostingSide, debit, credit, FiscalPeriodState, open_state, closed, locked, TransactionState,
  draft, posted, reversed, FiscalPeriod, Account, LedgerEntry, JournalTransaction,
}
use finest_vx.Core.Value.{
  Value, null, str, Items, nil, cons, require_key, get_key, flag, require_mapping, require_sequence,
}

-- `PostingSide(text)`, and so on
unfoldable pub to_side : String → Result PostingSide
to_side s =
    if str_eq s "Dr"
    then ok debit
    else if str_eq s "Cr"
    then ok credit
    else err (value_error (malformed s))

unfoldable pub to_period_state : String → Result FiscalPeriodState
to_period_state s =
    if str_eq s "open"
    then ok open_state
    else if str_eq s "closed"
    then ok closed
    else if str_eq s "locked"
    then ok locked
    else err (value_error (malformed s))

unfoldable pub to_transaction_state : String → Result TransactionState
to_transaction_state s =
    if str_eq s "draft"
    then ok draft
    else if str_eq s "posted"
    then ok posted
    else if str_eq s "reversed"
    then ok reversed
    else err (value_error (malformed s))

-- `tuple(f(item) for item in items)`
abbrev pub read_items : {A : Type 0} → (Value → Result A) → Items → Result (List A)
read_items f nil = ok []
read_items f (cons v rest) = do x ← f v; xs ← read_items f rest; ok (x ∷ xs)

-- The test on the text of `_require_date`, `_require_datetime` and `_require_decimal`.
unfoldable pub require_text : Value → String → Result String
require_text (str s) name = ok s
require_text _ name = err (type_error name)

module _ (e : Engine) where
  -- The text validators on a value that may be no text.
  unfoldable pub read_str : Value → String → Result String
  read_str (str s) name = e.require_non_empty_str s
  read_str _ name = err (type_error name)

  unfoldable pub read_optional_str : Value → String → Result (Option String)
  read_optional_str null name = e.normalize_optional_str none
  read_optional_str (str s) name = e.normalize_optional_str (some s)
  read_optional_str _ name = err (type_error name)

  unfoldable pub account_from_mapping : Value → Result Account
  unfolding require_mapping read_str read_optional_str to_side flag
  account_from_mapping payload = do
    fields ← require_mapping payload "account"
    code ← read_str (← require_key fields "code") "account.code"
    name ← read_str (← require_key fields "name") "account.name"
    side_text ← read_str (← require_key fields "normal_side") "account.normal_side"
    normal_side ← to_side side_text
    currency ← read_str (← require_key fields "currency") "account.currency"
    parent_code ← read_optional_str (get_key fields "parent_code") "account.parent_code"
    account_init e (record {
      code = code;
      name = name;
      normal_side = normal_side;
      currency = currency;
      parent_code = parent_code;
      allow_posting = flag fields "allow_posting";
      active = flag fields "active";
    })

module _ (e : Engine) (k : Codec) where
  unfoldable pub period_from_mapping : Value → String → Result FiscalPeriod
  unfolding require_mapping
  period_from_mapping payload name = do
    fields ← require_mapping payload name
    fiscal_year ← k.require_int (← require_key fields "fiscal_year")
    quarter ← k.require_int (← require_key fields "quarter")
    month ← k.require_int (← require_key fields "month")
    k.make_fiscal_period fiscal_year quarter month

  -- `None if period is None else _period_from_mapping(period)`
  unfoldable pub read_optional_period : Value → Result (Option FiscalPeriod)
  read_optional_period null = ok none
  read_optional_period v = do p ← period_from_mapping v "transaction.period"; ok (some p)

  unfoldable pub require_decimal : Value → String → Result Decimal
  unfolding require_text
  require_decimal v name = do text ← require_text v name; k.parse_decimal text

  unfoldable pub read_optional_decimal : Value → Result (Option Decimal)
  unfolding require_decimal
  read_optional_decimal null = ok none
  read_optional_decimal v = do d ← require_decimal v "entry.tax_rate"; ok (some d)

  unfoldable pub entry_from_mapping : Value → Result LedgerEntry
  unfolding require_mapping read_str read_optional_str to_side require_decimal read_optional_decimal
  entry_from_mapping payload = do
    fields ← require_mapping payload "entry"
    amount ← require_decimal (← require_key fields "amount") "entry.amount"
    account_code ← read_str e (← require_key fields "account_code") "entry.account_code"
    side_text ← read_str e (← require_key fields "side") "entry.side"
    side ← to_side side_text
    currency ← read_str e (← require_key fields "currency") "entry.currency"
    description ← read_optional_str e (get_key fields "description") "entry.description"
    tax_rate ← read_optional_decimal (get_key fields "tax_rate")
    entry_init e (record {
      account_code = account_code;
      side = side;
      amount = e.make_fluent_number amount;
      currency = currency;
      description = description;
      tax_rate = tax_rate;
    })

  unfoldable pub transaction_from_mapping : Value → Result JournalTransaction
  unfolding require_mapping require_sequence read_str read_optional_str to_transaction_state
      require_text read_optional_period
  transaction_from_mapping payload = do
    fields ← require_mapping payload "transaction"
    reference ← read_str e (← require_key fields "reference") "transaction.reference"
    posted_text ← require_text (← require_key fields "posted_at") "transaction.posted_at"
    posted_at ← k.datetime_fromisoformat posted_text
    description ← read_str e (← require_key fields "description") "transaction.description"
    items ← require_sequence (← require_key fields "entries") "transaction.entries"
    entries ← read_items entry_from_mapping items
    period ← read_optional_period (get_key fields "period")
    state_text ← read_str e (← require_key fields "state") "transaction.state"
    state ← to_transaction_state state_text
    reversal_of ← read_optional_str e (get_key fields "reversal_of") "transaction.reversal_of"
    transaction_init e (record {
      reference = reference;
      posted_at = posted_at;
      description = description;
      entries = entries;
      period = period;
      state = state;
      reversal_of = reversal_of;
    })
