-- ===== src/Export/SaftRoundTrip.antt =====
-- A constructed book is read back from its XML.
use finest_vx.Prelude.{
  String, ◌≡◌, refl, Bool, true, false, Option, none, some, List, [], ◌∷◌, ◌++◌, All, str_eq, arith,
  ok, Bool-cases, inl, inr,
}
use finest_vx.Prelude.Dict.{get}
use finest_vx.Prelude.Int.{ℤ}
use finest_vx.Core.Codec.{Codec, CodecLaws, IsPlain}
use finest_vx.Core.Decimal.{Decimal}
use finest_vx.Core.Engine.{Engine, EngineLaws}
use finest_vx.Core.Entities.{account_init, entry_init}
use finest_vx.Core.Errors.{Result}
use finest_vx.Core.Serialization.RoundTrip.{
  to_side-side_value, to_transaction_state-value, IsPlainEntry, IsFiscalPeriod, IsTransaction,
}
use finest_vx.Core.Serialization.BookRoundTrip.{to_period_state-value, IsBookPeriod, IsConstructed}
use finest_vx.Core.Types.{FiscalPeriod, Account, BookPeriod, LedgerEntry, JournalTransaction, Book}
use finest_vx.Persistence.Load.{catching}
use finest_vx.Export.{Element, Library, is_settable, ExportArtifact}
use finest_vx.Export.Xml.{
  flag_text, element_each, account_element, period_element, entry_element, transaction_element,
  book_element, to_xml, optional_attribute, period_attributes, rate_attribute,
}
use finest_vx.Export.Saft.{
  optional_of, read_each, account_from_element, read_period, period_from_element, read_rate,
  parse_entry, read_period_of, parse_transaction, book_from_element, catching_xml, book_from_saft,
}

-- What can be built and is written is read back.
pub record LibraryLaws (lib : Library) : Type 0 where
  pub int_round : (i : ℤ) → lib.read_int (lib.show_int i) ≡ ok i
  pub xml_round : (x : Element) → is_settable lib x ≡ true → lib.parse (lib.tostring x) ≡ ok x

read_each-element_each :
    {A : Type 0} (f : Element → Result A) (g : A → Element) (xs : List A)
    → All (λ x. f (g x) ≡ ok x) xs
    → read_each f (element_each g xs) ≡ ok xs
read_each-element_each f g [] h = refl
read_each-element_each f g (x ∷ xs) (h, hs) = rw (h, read_each-element_each f g xs hs)

flag_read : (b : Bool) → str_eq (flag_text b) "true" ≡ b
flag_read true = refl
flag_read false = refl

each : {A : Type 0} {P Q : A → Type 0} → ((x : A) → P x → Q x) → (xs : List A) → All P xs → All Q xs
each f [] h = tt
each f (x ∷ xs) (h, hs) = (f x h, each f xs hs)

module _ (lib : Library) (e : Engine) (k : Codec) (lib_laws : LibraryLaws lib) (laws : EngineLaws e)
    (codec : CodecLaws e k) where
  account_read :
      (a : Account) → account_init e a ≡ ok a → account_from_element e (account_element a) ≡ ok a
  unfolding account_from_element account_element
  account_read a h = read a.parent_code refl
    where
      read :
          (o : Option String)
          → a.parent_code ≡ o
          → account_from_element e (account_element a) ≡ ok a
      read none is =
          rw
            (
              is,
              to_side-side_value a.normal_side,
              flag_read a.allow_posting,
              flag_read a.active,
              ← is,
            )
            h
      read (some c) is =
          rw
            (
              is,
              to_side-side_value a.normal_side,
              flag_read a.allow_posting,
              flag_read a.active,
              ← is,
            )
            h

  period_read :
      (q : BookPeriod)
      → IsBookPeriod e k laws codec q
      → period_from_element lib e k (period_element lib k q) ≡ ok q
  unfolding period_from_element period_element read_period
  period_read q (made, period) =
      rw
        (
          lib_laws.int_round q.period.fiscal_year,
          lib_laws.int_round q.period.quarter,
          lib_laws.int_round q.period.month,
          period,
          codec.date_round q.start_date,
          codec.date_round q.end_date,
          to_period_state-value q.state,
        )
        made

  -- The optional attributes of an entry and of a transaction, looked up.
  description_read :
      (o : Option String) (r : Option Decimal)
      → get (optional_attribute "description" o ++ rate_attribute lib k r) "description" ≡ o
  description_read none none = refl
  description_read none (some d) = refl
  description_read (some c) r = refl

  rate_read :
      (o : Option String) (r : Option Decimal)
      → ((d : Decimal) → r ≡ some d → IsPlain d)
      → read_rate lib e k
          (get (optional_attribute "description" o ++ rate_attribute lib k r) "tax-rate")
        ≡ ok r
  rate_read none none h = refl
  rate_read (some c) none h = refl
  rate_read none (some d) h = rw (codec.decimal_round d (h d refl)) refl
  rate_read (some c) (some d) h = rw (codec.decimal_round d (h d refl)) refl

  entry_read :
      (x : LedgerEntry)
      → (entry_init e x ≡ ok x) × IsPlainEntry e k laws codec x
      → parse_entry lib e k (entry_element lib k x) ≡ ok x
  unfolding parse_entry entry_element
  entry_read x (made, (plain, usual, plain_rate)) =
      rw
        (
          to_side-side_value x.side,
          codec.decimal_round x.amount.decimal_value plain,
          ← usual,
          rate_read x.description x.tax_rate plain_rate,
          description_read x.description x.tax_rate,
        )
        made

  reversal_read :
      (o : Option String) (q : Option FiscalPeriod)
      → get (optional_attribute "reversal-of" o ++ period_attributes lib k q) "reversal-of" ≡ o
  reversal_read none none = refl
  reversal_read none (some q) = refl
  reversal_read (some c) q = refl

  transaction_period_read :
      (t : JournalTransaction) (o : Option String) (q : Option FiscalPeriod)
      → t.reversal_of ≡ o
      → t.period ≡ q
      → ((p : FiscalPeriod) → q ≡ some p → IsFiscalPeriod e k laws codec p)
      → (let x = transaction_element lib k t in
          read_period_of lib e k x (optional_of x "period-fiscal-year"))
        ≡ ok q
  unfolding transaction_element read_period
  transaction_period_read t none none r p h = rw (r, p) refl
  transaction_period_read t (some c) none r p h = rw (r, p) refl
  transaction_period_read t none (some q) r p h =
      rw
        (
          r,
          p,
          lib_laws.int_round q.fiscal_year,
          lib_laws.int_round q.quarter,
          lib_laws.int_round q.month,
          h q refl,
        )
        refl
  transaction_period_read t (some c) (some q) r p h =
      rw
        (
          r,
          p,
          lib_laws.int_round q.fiscal_year,
          lib_laws.int_round q.quarter,
          lib_laws.int_round q.month,
          h q refl,
        )
        refl

  transaction_read :
      (t : JournalTransaction)
      → IsTransaction e k laws codec t
      → parse_transaction lib e k (transaction_element lib k t) ≡ ok t
  unfolding parse_transaction transaction_element
  transaction_read t h =
      rw
        (
          transaction_period_read t t.reversal_of t.period refl refl h.period,
          codec.datetime_round t.posted_at,
          to_transaction_state-value t.state,
          read_each-element_each (parse_entry lib e k) (entry_element lib k) t.entries
              (each entry_read t.entries h.entries),
          reversal_read t.reversal_of t.period,
        )
        h.made

  book_read :
      (b : Book)
      → IsConstructed e k laws codec b
      → book_from_element lib e k (book_element lib k b) ≡ ok b
  unfolding book_from_element book_element
  book_read b h =
      rw
        (
          lib_laws.int_round b.fiscal_calendar,
          h.calendar,
          read_each-element_each (account_from_element e) account_element b.accounts
              (each account_read b.accounts h.accounts),
          read_each-element_each (period_from_element lib e k) (period_element lib k) b.periods
              (each period_read b.periods h.periods),
          read_each-element_each (parse_transaction lib e k) (transaction_element lib k)
              b.transactions (each transaction_read b.transactions h.transactions),
        )
        h.made

  -- The XML that is written of a constructed book, its numbers written in full and its amounts formatted
  -- by default, is imported as that book, for an engine, a codec and libraries that keep the laws.
  pub book_from_saft-to_xml :
      (b : Book) (artifact : ExportArtifact) (path : String)
      → IsConstructed e k laws codec b
      → to_xml lib k b ≡ ok artifact
      → book_from_saft lib e k path artifact.content ≡ ok b
  unfolding book_from_saft to_xml catching_xml catching
  book_from_saft-to_xml b artifact path h written =
      elim (Bool-cases (lib.conforms (book_element lib k b))) [
        | inr bad ↦ absurd (ground arith)
        | inl good ↦
            let content : lib.tostring (book_element lib k b) ≡ artifact.content = ground arith in
            let built : is_settable lib (book_element lib k b) ≡ true = ground arith in
            rw (← content, lib_laws.xml_round (book_element lib k b) built, good, book_read b h)
              refl
      ]
