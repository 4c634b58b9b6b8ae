-- ===== src/Core/Serialization.antt =====
-- core/serialization.py. A payload is a `Value`; the writers stand here, the readers and the round
-- trips in the children.
pub mod Read
pub mod ReadBook
pub mod RoundTrip
pub mod BookRoundTrip
use finest_vx.Prelude.{String, Option, none, some, Bool}
use finest_vx.Core.Codec.{Codec}
use finest_vx.Core.Decimal.{Decimal}
use finest_vx.Core.Types.{
  PostingSide, debit, credit, FiscalPeriodState, open_state, closed, locked, TransactionState,
  draft, posted, reversed, FiscalPeriod, Account, BookPeriod, LedgerEntry, JournalTransaction, Book,
}
use finest_vx.Core.Value.{Value, null, bool, int, str, list, mapping, Fields, end, field, to_items}

-- The values of the enum members.
abbrev pub side_value : PostingSide → String
side_value debit = "Dr"
side_value credit = "Cr"

abbrev pub period_state_value : FiscalPeriodState → String
period_state_value open_state = "open"
period_state_value closed = "closed"
period_state_value locked = "locked"

abbrev pub transaction_state_value : TransactionState → String
transaction_state_value draft = "draft"
transaction_state_value posted = "posted"
transaction_state_value reversed = "reversed"

abbrev pub optional_str : Option String → Value
optional_str none = null
optional_str (some s) = str s

unfoldable pub period_to_mapping : FiscalPeriod → Value
period_to_mapping p = mapping (
    field "fiscal_year" (int p.fiscal_year)
      (field "quarter" (int p.quarter) (field "month" (int p.month) end)))

unfoldable pub account_to_mapping : Account → Value
account_to_mapping a = mapping (
    field "code" (str a.code) (
      field "name" (str a.name) (
        field "normal_side" (str (side_value a.normal_side)) (
          field "currency" (str a.currency) (
            field "parent_code" (optional_str a.parent_code) (
              field "allow_posting" (bool a.allow_posting)
                (field "active" (bool a.active) end)))))))

abbrev pub optional_period : Option FiscalPeriod → Value
unfolding period_to_mapping
optional_period none = null
optional_period (some p) = period_to_mapping p

module _ (k : Codec) where
  abbrev pub optional_decimal : Option Decimal → Value
  optional_decimal none = null
  optional_decimal (some d) = str (k.format_decimal d)

  unfoldable pub entry_to_mapping : LedgerEntry → Value
  entry_to_mapping x = mapping (
      field "account_code" (str x.account_code) (
        field "side" (str (side_value x.side)) (
          field "amount" (str (k.format_decimal x.amount.decimal_value)) (
            field "currency" (str x.currency) (
              field "description" (optional_str x.description)
                (field "tax_rate" (optional_decimal x.tax_rate) end))))))

  unfoldable pub transaction_to_mapping : JournalTransaction → Value
  transaction_to_mapping t = mapping (
      field "reference" (str t.reference) (
        field "posted_at" (str (k.datetime_isoformat t.posted_at)) (
          field "description" (str t.description) (
            field "entries" (list (to_items entry_to_mapping t.entries)) (
              field "period" (optional_period t.period) (
                field "state" (str (transaction_state_value t.state))
                  (field "reversal_of" (optional_str t.reversal_of) end)))))))

  unfoldable pub book_period_to_mapping : BookPeriod → Value
  book_period_to_mapping p = mapping (
      field "period" (period_to_mapping p.period) (
        field "start_date" (str (k.date_isoformat p.start_date)) (
          field "end_date" (str (k.date_isoformat p.end_date))
            (field "state" (str (period_state_value p.state)) end))))

  unfoldable pub book_to_mapping : Book → Value
  book_to_mapping b = mapping (
      field "code" (str b.code) (
        field "name" (str b.name) (
          field "base_currency" (str b.base_currency) (
            field "fiscal_calendar" (mapping (field "start_month" (int b.fiscal_calendar) end)) (
              field "legislative_pack" (str b.legislative_pack) (
                field "accounts" (list (to_items account_to_mapping b.accounts)) (
                  field "periods" (list (to_items book_period_to_mapping b.periods)) (
                    field "transactions" (list (to_items transaction_to_mapping b.transactions))
                      end))))))))
