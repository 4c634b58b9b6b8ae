-- ===== src/Core/Serialization/ReadBook.antt =====
-- core/serialization.py: `_book_period_from_mapping` and `book_from_mapping`.
use finest_vx.Prelude.{ℕ, String, ok, ◌>>=◌}
use finest_vx.Core.Books.{book_init}
use finest_vx.Core.Codec.{Codec}
use finest_vx.Core.Engine.{Engine}
use finest_vx.Core.Entities.{period_init}
use finest_vx.Core.Errors.{Result}
use finest_vx.Core.Types.{BookPeriod, Book}
use finest_vx.Core.Value.{Value, require_key, require_mapping, require_sequence}
use finest_vx.Core.Serialization.Read.{
  to_period_state, read_items, require_text, read_str, account_from_mapping, period_from_mapping,
  transaction_from_mapping,
}

module _ (e : Engine) (k : Codec) where
  -- `_require_date`
  unfoldable pub require_date : Value → String → Result ℕ
  unfolding require_text
  require_date v name = do text ← require_text v name; k.date_fromisoformat text

  unfoldable pub book_period_from_mapping : Value → Result BookPeriod
  unfolding require_mapping read_str to_period_state require_date
  book_period_from_mapping payload = do
    fields ← require_mapping payload "book_period"
    period ← period_from_mapping e k (← require_key fields "period") "book_period.period"
    start_date ← require_date (← require_key fields "start_date") "book_period.start_date"
    end_date ← require_date (← require_key fields "end_date") "book_period.end_date"
    state_text ← read_str e (← require_key fields "state") "book_period.state"
    state ← to_period_state state_text
    period_init
        (record { period = period; start_date = start_date; end_date = end_date; state = state })

  -- The arguments that `book_from_mapping` gives to `Book`.
  unfoldable pub book_arguments : Value → Result Book
  unfolding require_mapping require_sequence read_str
  book_arguments payload = do
    fields ← require_mapping payload "book"
    calendar ← require_mapping (← require_key fields "fiscal_calendar") "book.fiscal_calendar"
    code ← read_str e (← require_key fields "code") "book.code"
    name ← read_str e (← require_key fields "name") "book.name"
    base_currency ← read_str e (← require_key fields "base_currency") "book.base_currency"
    start_month ← k.require_int (← require_key calendar "start_month")
    fiscal_calendar ← k.make_fiscal_calendar start_month
    pack ← read_str e (← require_key fields "legislative_pack") "book.legislative_pack"
    account_items ← require_sequence (← require_key fields "accounts") "book.accounts"
    accounts ← read_items (account_from_mapping e) account_items
    period_items ← require_sequence (← require_key fields "periods") "book.periods"
    periods ← read_items book_period_from_mapping period_items
    transaction_items ← require_sequence (← require_key fields "transactions") "book.transactions"
    transactions ← read_items (transaction_from_mapping e k) transaction_items
    ok (record {
      code = code;
      name = name;
      base_currency = base_currency;
      fiscal_calendar = fiscal_calendar;
      legislative_pack = pack;
      accounts = accounts;
      periods = periods;
      transactions = transactions;
    })

  unfoldable pub book_from_mapping : Value → Result Book
  unfolding book_arguments
  book_from_mapping payload = do given ← book_arguments payload; book_init e given
