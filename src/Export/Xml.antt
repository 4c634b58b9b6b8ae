-- ===== src/Export/Xml.antt =====
-- export/service.py `to_xml`: the element of a book and its artifact.
use finest_vx.Prelude.{
  String, Bool, true, false, Option, none, some, List, [], ◌∷◌, ◌++◌, ok, err, if◌then◌else◌,
}
use finest_vx.Core.Codec.{Codec}
use finest_vx.Core.Decimal.{Decimal}
use finest_vx.Core.Errors.{Result, value_error, malformed, xml_error}
use finest_vx.Core.Serialization.{side_value, period_state_value, transaction_state_value}
use finest_vx.Core.Types.{FiscalPeriod, Account, BookPeriod, LedgerEntry, JournalTransaction, Book}
use finest_vx.Export.{
  Element, Elements, element, child, childless, Library, is_settable, ExportArtifact,
}

-- `str(flag).lower()`
abbrev pub flag_text : Bool → String
flag_text true = "true"
flag_text false = "false"

-- An attribute that is set when there is a value.
abbrev pub optional_attribute : String → Option String → List (String × String)
optional_attribute name none = []
optional_attribute name (some text) = (name, text) ∷ []

abbrev pub element_each : {A : Type 0} → (A → Element) → List A → Elements
element_each f [] = childless
element_each f (x ∷ rest) = child (f x) (element_each f rest)

unfoldable pub account_element : Account → Element
account_element a =
    element "account"
      (("code", a.code)
        ∷ ("name", a.name)
        ∷ ("normal-side", side_value a.normal_side)
        ∷ ("currency", a.currency)
        ∷ (optional_attribute "parent-code" a.parent_code
            ++ ("allow-posting", flag_text a.allow_posting) ∷ ("active", flag_text a.active) ∷ []))
      childless

module _ (lib : Library) (k : Codec) where
  unfoldable pub period_element : BookPeriod → Element
  period_element q =
      element "period"
        (("fiscal-year", lib.show_int q.period.fiscal_year)
          ∷ ("quarter", lib.show_int q.period.quarter)
          ∷ ("month", lib.show_int q.period.month)
          ∷ ("start-date", k.date_isoformat q.start_date)
          ∷ ("end-date", k.date_isoformat q.end_date)
          ∷ ("state", period_state_value q.state)
          ∷ [])
        childless

  abbrev pub rate_attribute : Option Decimal → List (String × String)
  rate_attribute none = []
  rate_attribute (some rate) = ("tax-rate", k.format_decimal rate) ∷ []

  unfoldable pub entry_element : LedgerEntry → Element
  entry_element x =
      element "entry"
        (("account-code", x.account_code)
          ∷ ("side", side_value x.side)
          ∷ ("amount", k.format_decimal x.amount.decimal_value)
          ∷ ("currency", x.currency)
          ∷ (optional_attribute "description" x.description ++ rate_attribute x.tax_rate))
        childless

  abbrev pub period_attributes : Option FiscalPeriod → List (String × String)
  period_attributes none = []
  period_attributes (some q) =
      ("period-fiscal-year", lib.show_int q.fiscal_year)
      ∷ ("period-quarter", lib.show_int q.quarter)
      ∷ ("period-month", lib.show_int q.month)
      ∷ []

  unfoldable pub transaction_element : JournalTransaction → Element
  transaction_element t =
      element "transaction"
        (("reference", t.reference)
          ∷ ("posted-at", k.datetime_isoformat t.posted_at)
          ∷ ("state", transaction_state_value t.state)
          ∷ ("description", t.description)
          ∷ (optional_attribute "reversal-of" t.reversal_of ++ period_attributes t.period))
        (element_each entry_element t.entries)

  unfoldable pub book_element : Book → Element
  book_element b =
      element "ledger-book"
        (("code", b.code)
          ∷ ("name", b.name)
          ∷ ("base-currency", b.base_currency)
          ∷ ("legislative-pack", b.legislative_pack)
          ∷ ("fiscal-start-month", lib.show_int b.fiscal_calendar)
          ∷ [])
        (child (element "accounts" [] (element_each account_element b.accounts)) (
          child (element "periods" [] (element_each period_element b.periods)) (
            child (element "transactions" [] (element_each transaction_element b.transactions))
              childless)))

  unfoldable pub to_xml : Book → Result ExportArtifact
  to_xml b =
      if is_settable lib (book_element b)
      then (if lib.conforms (book_element b)
          then ok (record {
            format_name = "xml";
            media_type = "application/xml";
            content = lib.tostring (book_element b);
          })
          else err (xml_error "ledger-book"))
      else err (value_error (malformed "attribute"))
