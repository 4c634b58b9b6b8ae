-- ===== src/Export/Saft.antt =====
-- export/service.py: `_parse_entry`, `_parse_transaction`, `_book_from_element` and `book_from_saft`.
use finest_vx.Prelude.{
  String, Bool, Option, none, some, List, [], ◌∷◌, str_eq, ok, err, ◌>>=◌, if◌then◌else◌,
}
use finest_vx.Prelude.Dict.{get}
use finest_vx.Core.Books.{transaction_init, book_init}
use finest_vx.Core.Codec.{Codec}
use finest_vx.Core.Decimal.{Decimal}
use finest_vx.Core.Engine.{Engine}
use finest_vx.Core.Entities.{account_init, entry_init, period_init}
use finest_vx.Core.Errors.{Error, xml_error, persistence_integrity, Result}
use finest_vx.Core.Serialization.Read.{to_side, to_period_state, to_transaction_state}
use finest_vx.Core.Types.{FiscalPeriod, Account, BookPeriod, LedgerEntry, JournalTransaction, Book}
use finest_vx.Persistence.Load.{catching}
use finest_vx.Export.{Element, Elements, element, child, childless, Library}

-- `element.get(name, default)`
abbrev pub or_default : String → Option String → String
or_default default none = default
or_default default (some text) = text

abbrev pub attribute : Element → String → String → String
attribute (element tag attributes children) name default = or_default default (get attributes name)

-- `element.get(name)`
abbrev pub optional_of : Element → String → Option String
optional_of (element tag attributes children) name = get attributes name

abbrev pub children_of : Element → Elements
children_of (element tag attributes children) = children

abbrev pub has_tag : Element → String → Bool
has_tag (element tag attributes children) name = str_eq tag name

-- `element.find(tag)`
abbrev pub find_child : Elements → String → Option Element
find_child childless tag = none
find_child (child x rest) tag = if has_tag x tag then some x else find_child rest tag

-- `[f(child) for child in element]`
abbrev pub read_each : {A : Type 0} → (Element → Result A) → Elements → Result (List A)
read_each f childless = ok []
read_each f (child x rest) = do y ← f x; ys ← read_each f rest; ok (y ∷ ys)

-- The same for a child that may be absent.
abbrev pub read_section : {A : Type 0} → (Element → Result A) → Option Element → Result (List A)
read_section f none = ok []
read_section f (some x) = read_each f (children_of x)

module _ (e : Engine) where
  unfoldable pub account_from_element : Element → Result Account
  unfolding to_side
  account_from_element x = do
    normal_side ← to_side (attribute x "normal-side" "")
    account_init e (record {
      code = attribute x "code" "";
      name = attribute x "name" "";
      normal_side = normal_side;
      currency = attribute x "currency" "";
      parent_code = optional_of x "parent-code";
      allow_posting = str_eq (attribute x "allow-posting" "true") "true";
      active = str_eq (attribute x "active" "true") "true";
    })

module _ (lib : Library) (e : Engine) (k : Codec) where
  -- `FiscalPeriod` of three integers that are attributes.
  unfoldable pub read_period : Element → String → String → String → Result FiscalPeriod
  read_period x year quarter month = do
    fiscal_year ← lib.read_int (attribute x year "0")
    q ← lib.read_int (attribute x quarter "0")
    m ← lib.read_int (attribute x month "0")
    k.make_fiscal_period fiscal_year q m

  unfoldable pub period_from_element : Element → Result BookPeriod
  unfolding read_period to_period_state
  period_from_element x = do
    period ← read_period x "fiscal-year" "quarter" "month"
    start_date ← k.date_fromisoformat (attribute x "start-date" "")
    end_date ← k.date_fromisoformat (attribute x "end-date" "")
    state ← to_period_state (attribute x "state" "")
    period_init
        (record { period = period; start_date = start_date; end_date = end_date; state = state })

  abbrev pub read_rate : Option String → Result (Option Decimal)
  read_rate none = ok none
  read_rate (some text) = do rate ← k.parse_decimal text; ok (some rate)

  unfoldable pub parse_entry : Element → Result LedgerEntry
  unfolding to_side
  parse_entry x = do
    side ← to_side (attribute x "side" "")
    amount ← k.parse_decimal (attribute x "amount" "0")
    tax_rate ← read_rate (optional_of x "tax-rate")
    entry_init e (record {
      account_code = attribute x "account-code" "";
      side = side;
      amount = e.make_fluent_number amount;
      currency = attribute x "currency" "";
      description = optional_of x "description";
      tax_rate = tax_rate;
    })

  abbrev pub read_period_of : Element → Option String → Result (Option FiscalPeriod)
  unfolding read_period
  read_period_of x none = ok none
  read_period_of x (some _) = do
    q ← read_period x "period-fiscal-year" "period-quarter" "period-month"
    ok (some q)

  unfoldable pub parse_transaction : Element → Result JournalTransaction
  unfolding parse_entry to_transaction_state
  parse_transaction x = do
    period ← read_period_of x (optional_of x "period-fiscal-year")
    posted_at ← k.datetime_fromisoformat (attribute x "posted-at" "")
    state ← to_transaction_state (attribute x "state" "")
    entries ← read_each parse_entry (children_of x)
    transaction_init e (record {
      reference = attribute x "reference" "";
      posted_at = posted_at;
      description = attribute x "description" "";
      entries = entries;
      period = period;
      state = state;
      reversal_of = optional_of x "reversal-of";
    })

  unfoldable pub book_from_element : Element → Result Book
  unfolding account_from_element period_from_element parse_transaction
  book_from_element root = do
    start_month ← lib.read_int (attribute root "fiscal-start-month" "1")
    fiscal_calendar ← k.make_fiscal_calendar start_month
    accounts ← read_section (account_from_element e) (find_child (children_of root) "accounts")
    periods ← read_section period_from_element (find_child (children_of root) "periods")
    transactions ← read_section parse_transaction (find_child (children_of root) "transactions")
    book_init e (record {
      code = attribute root "code" "";
      name = attribute root "name" "";
      base_currency = attribute root "base-currency" "";
      fiscal_calendar = fiscal_calendar;
      legislative_pack = attribute root "legislative-pack" "";
      accounts = accounts;
      periods = periods;
      transactions = transactions;
    })

  -- `except etree.XMLSyntaxError` and `except etree.DocumentInvalid`
  unfoldable pub catching_xml : {A : Type 0} → Error → Result A → Result A
  catching_xml replacement (ok a) = ok a
  catching_xml replacement (err (xml_error x)) = err replacement
  catching_xml replacement (err x) = err x

  -- The import of the file at the path, with its content.
  unfoldable pub book_from_saft : String → String → Result Book
  unfolding catching_xml catching book_from_element
  book_from_saft path content = do
    root ← catching_xml (persistence_integrity path) (lib.parse content)
    _ ←
        catching_xml (persistence_integrity path)
          (if lib.conforms root then ok tt else err (xml_error path))
    catching (persistence_integrity path) (book_from_element root)
