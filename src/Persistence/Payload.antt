-- ===== src/Persistence/Payload.antt =====
-- persistence/store.py `_build_book_payload`: from rows to the payload that the core deserializers
-- read. `append_reversal` builds its transaction payload in the same way.
use finest_vx.Prelude.{String, not, Option, none, some, List, ◌&&◌, str_eq, leb, select, order_by}
use finest_vx.Prelude.Int.{ℤ, pos, eq_ℤ}
use finest_vx.Core.Value.{Value, null, bool, int, str, list, mapping, end, field, to_items}
use finest_vx.Persistence.Rows.{BookRow, AccountRow, PeriodRow, TransactionRow, EntryRow, Database}
use finest_vx.Persistence.Schema.{text_cell, int_cell}

-- `bool(row[5])` of an INTEGER column
abbrev pub int_flag : ℤ → Value
int_flag i = bool (not (eq_ℤ i (pos 0)))

unfoldable pub account_payload : AccountRow → Value
account_payload r = mapping (
    field "code" (str r.code) (
      field "name" (str r.name) (
        field "normal_side" (str r.normal_side) (
          field "currency" (str r.currency) (
            field "parent_code" (text_cell r.parent_code) (
              field "allow_posting" (int_flag r.allow_posting)
                (field "active" (int_flag r.active) end)))))))

unfoldable pub period_payload : PeriodRow → Value
period_payload r = mapping (
    field "period"
      (mapping (
        field "fiscal_year" (int r.fiscal_year)
          (field "quarter" (int r.quarter) (field "month" (int r.month) end))))
      (field "start_date" (str r.start_date)
        (field "end_date" (str r.end_date) (field "state" (str r.state) end))))

-- `None if tx_row[4] is None else {...}`
unfoldable pub transaction_period_payload : Option ℤ → Option ℤ → Option ℤ → Value
transaction_period_payload none quarter month = null
transaction_period_payload (some year) quarter month = mapping (
    field "fiscal_year" (int year)
      (field "quarter" (int_cell quarter) (field "month" (int_cell month) end)))

unfoldable pub entry_payload : EntryRow → Value
entry_payload r = mapping (
    field "account_code" (str r.account_code) (
      field "side" (str r.side) (
        field "amount" (str r.amount) (
          field "currency" (str r.currency) (
            field "description" (text_cell r.description)
              (field "tax_rate" (text_cell r.tax_rate) end))))))

unfoldable pub transaction_payload : TransactionRow → List EntryRow → Value
unfolding entry_payload transaction_period_payload
transaction_payload r entries = mapping (
    field "reference" (str r.reference) (
      field "posted_at" (str r.posted_at) (
        field "description" (str r.description) (
          field "state" (str r.state) (
            field "period"
              (transaction_period_payload r.period_fiscal_year r.period_quarter r.period_month)
              (field "reversal_of" (text_cell r.reversal_of)
                (field "entries" (list (to_items entry_payload entries)) end)))))))

-- The rows of one transaction, `ORDER BY line_no`.
unfoldable pub entry_rows : Database → String → String → List EntryRow
entry_rows db book reference =
    order_by (λ a b. leb a.line_no b.line_no)
      (select (λ r. str_eq r.book_code book && str_eq r.transaction_reference reference) db.entries)

unfoldable pub build_book_payload :
    Database → BookRow → List AccountRow → List PeriodRow → List TransactionRow → Value
unfolding account_payload period_payload transaction_payload entry_rows
build_book_payload db book accounts periods transactions = mapping (
    field "code" (str book.book_code) (
      field "name" (str book.name) (
        field "base_currency" (str book.base_currency) (
          field "fiscal_calendar" (mapping (field "start_month" (int book.fiscal_start_month) end))
            (field "legislative_pack" (str book.legislative_pack) (
              field "accounts" (list (to_items account_payload accounts)) (
                field "periods" (list (to_items period_payload periods)) (
                  field "transactions"
                    (list (
                      to_items
                        (λ r. transaction_payload r (entry_rows db book.book_code r.reference))
                        transactions))
                    end))))))))
