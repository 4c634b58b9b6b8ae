-- ===== src/Core/Serialization/RoundTrip.antt =====
-- Reading what was written gives the object back: entries, accounts and transactions.
use finest_vx.Prelude.{String, ◌≡◌, refl, Option, none, some, List, [], ◌∷◌, arith, All, ok}
use finest_vx.Core.Books.{transaction_init}
use finest_vx.Core.Codec.{Codec, CodecLaws, IsPlain}
use finest_vx.Core.Decimal.{Decimal}
use finest_vx.Core.Engine.{Engine, EngineLaws}
use finest_vx.Core.Entities.{normalize_currency, account_init, entry_init}
use finest_vx.Core.Errors.{Result}
use finest_vx.Core.Types.{
  PostingSide, debit, credit, TransactionState, draft, posted, reversed, FiscalPeriod, Account,
  LedgerEntry, JournalTransaction,
}
use finest_vx.Core.Value.{Value, to_items}
use finest_vx.Core.Serialization.{
  side_value, transaction_state_value, optional_str, optional_period, period_to_mapping,
  account_to_mapping, optional_decimal, entry_to_mapping, transaction_to_mapping,
}
use finest_vx.Core.Serialization.Read.{
  to_side, to_transaction_state, read_items, read_optional_str, account_from_mapping,
  period_from_mapping, read_optional_period, read_optional_decimal, entry_from_mapping,
  transaction_from_mapping,
}

-- Items that are read back one by one are read back together.
pub read_items-to_items :
    {A : Type 0} (f : Value → Result A) (g : A → Value) (xs : List A)
    → All (λ x. f (g x) ≡ ok x) xs
    → read_items f (to_items g xs) ≡ ok xs
read_items-to_items f g [] h = refl
read_items-to_items f g (x ∷ xs) (h, hs) = rw (h, read_items-to_items f g xs hs)

pub to_side-side_value : (s : PostingSide) → to_side (side_value s) ≡ ok s
unfolding to_side
to_side-side_value debit = refl
to_side-side_value credit = refl

pub to_transaction_state-value :
    (s : TransactionState) → to_transaction_state (transaction_state_value s) ≡ ok s
unfolding to_transaction_state
to_transaction_state-value draft = refl
to_transaction_state-value posted = refl
to_transaction_state-value reversed = refl

module _ (e : Engine) (k : Codec) (laws : EngineLaws e) (codec : CodecLaws e k) where
  side_text : (s : PostingSide) → e.require_non_empty_str (side_value s) ≡ ok (side_value s)
  side_text debit = codec.enum_round.0
  side_text credit = codec.enum_round.1.0

  pub state_text :
      (s : TransactionState)
      → e.require_non_empty_str (transaction_state_value s) ≡ ok (transaction_state_value s)
  state_text draft = codec.enum_round.1.1.1.1.1.0
  state_text posted = codec.enum_round.1.1.1.1.1.1.0
  state_text reversed = codec.enum_round.1.1.1.1.1.1.1.0

  pub read_optional_str-optional_str :
      (o : Option String) (name : String)
      → read_optional_str e (optional_str o) name ≡ e.normalize_optional_str o
  unfolding read_optional_str
  read_optional_str-optional_str none name = refl
  read_optional_str-optional_str (some s) name = refl

  account_fields :
      (a : Account)
      → account_init e a ≡ ok a
      → (e.require_non_empty_str a.code ≡ ok a.code)
        × (e.require_non_empty_str a.name ≡ ok a.name)
        × (normalize_currency e a.currency ≡ ok a.currency)
        × (e.normalize_optional_str a.parent_code ≡ ok a.parent_code)
  unfolding account_init
  account_fields a h = ground arith

  pub normalize_currency-require :
      (c : String) → normalize_currency e c ≡ ok c → e.require_non_empty_str c ≡ ok c
  unfolding normalize_currency
  normalize_currency-require c h = ground (arith, laws.currency_stripped c)

  -- An account that the constructor returned is read back from its payload.
  pub account_round_trip :
      (a : Account) → account_init e a ≡ ok a → account_from_mapping e (account_to_mapping a) ≡ ok a
  unfolding account_from_mapping account_to_mapping
  account_round_trip a h =
      let (code, name, currency, parent) = account_fields a h in
      rw
        (
          code,
          name,
          side_text a.normal_side,
          to_side-side_value a.normal_side,
          normalize_currency-require a.currency currency,
          read_optional_str-optional_str a.parent_code "account.parent_code",
          parent,
        )
        h

  entry_fields :
      (x : LedgerEntry)
      → entry_init e x ≡ ok x
      → (e.require_non_empty_str x.account_code ≡ ok x.account_code)
        × (normalize_currency e x.currency ≡ ok x.currency)
        × (e.normalize_optional_str x.description ≡ ok x.description)
  unfolding entry_init
  entry_fields x h = ground arith

  -- The numbers of the entry are written with their own exponents, and its amount has the formatting
  -- that `make_fluent_number` gives by itself: no other is written.
  abbrev pub IsPlainEntry : LedgerEntry → Type 0
  IsPlainEntry x =
      IsPlain x.amount.decimal_value
      × (x.amount ≡ e.make_fluent_number x.amount.decimal_value)
      × ((d : Decimal) → x.tax_rate ≡ some d → IsPlain d)

  read_optional_decimal-round :
      (o : Option Decimal)
      → ((d : Decimal) → o ≡ some d → IsPlain d)
      → read_optional_decimal e k (optional_decimal k o) ≡ ok o
  unfolding read_optional_decimal
  read_optional_decimal-round none h = refl
  read_optional_decimal-round (some d) h = rw (codec.decimal_round d (h d refl))

  -- So is a ledger entry.
  pub entry_round_trip :
      (x : LedgerEntry)
      → entry_init e x ≡ ok x
      → IsPlainEntry x
      → entry_from_mapping e k (entry_to_mapping k x) ≡ ok x
  unfolding entry_from_mapping entry_to_mapping
  entry_round_trip x h (plain, usual, plain_rate) =
      let (code, currency, description) = entry_fields x h in
      rw
        (
          codec.decimal_round x.amount.decimal_value plain,
          ← usual,
          code,
          side_text x.side,
          to_side-side_value x.side,
          normalize_currency-require x.currency currency,
          read_optional_str-optional_str x.description "entry.description",
          description,
          read_optional_decimal-round x.tax_rate plain_rate,
        )
        h

  abbrev pub IsFiscalPeriod : FiscalPeriod → Type 0
  IsFiscalPeriod p = k.make_fiscal_period p.fiscal_year p.quarter p.month ≡ ok p

  pub period_round_trip :
      (p : FiscalPeriod) (name : String)
      → IsFiscalPeriod p
      → period_from_mapping e k (period_to_mapping p) name ≡ ok p
  unfolding period_from_mapping period_to_mapping
  period_round_trip p name h =
      rw (codec.int_round p.fiscal_year, codec.int_round p.quarter, codec.int_round p.month) h

  pub read_optional_period-round :
      (o : Option FiscalPeriod)
      → ((p : FiscalPeriod) → o ≡ some p → IsFiscalPeriod p)
      → read_optional_period e k (optional_period o) ≡ ok o
  unfolding read_optional_period period_to_mapping
  read_optional_period-round none h = refl
  read_optional_period-round (some p) h =
      let back = period_round_trip p "transaction.period" (h p refl) in rw back

  pub transaction_fields :
      (t : JournalTransaction)
      → transaction_init e t ≡ ok t
      → (e.require_non_empty_str t.reference ≡ ok t.reference)
        × (e.require_non_empty_str t.description ≡ ok t.description)
        × (e.normalize_optional_str t.reversal_of ≡ ok t.reversal_of)
  unfolding transaction_init
  transaction_fields t h = ground arith

  -- The transaction and what it holds come from their constructors.
  pub record IsTransaction (t : JournalTransaction) : Type 0 where
    pub made : transaction_init e t ≡ ok t
    pub entries : All (λ x. (entry_init e x ≡ ok x) × IsPlainEntry x) t.entries
    pub period : (p : FiscalPeriod) → t.period ≡ some p → IsFiscalPeriod p

  pub entries_round :
      (xs : List LedgerEntry)
      → All (λ x. (entry_init e x ≡ ok x) × IsPlainEntry x) xs
      → All (λ x. entry_from_mapping e k (entry_to_mapping k x) ≡ ok x) xs
  entries_round [] h = tt
  entries_round (x ∷ xs) (h, hs) = (entry_round_trip x h.0 h.1, entries_round xs hs)

  -- A constructed transaction, its numbers written in full and its amounts formatted by default, is read
  -- back from its payload as it was, for an engine and a codec that keep the laws.
  pub transaction_round_trip :
      (t : JournalTransaction)
      → IsTransaction t
      → transaction_from_mapping e k (transaction_to_mapping k t) ≡ ok t
  unfolding transaction_from_mapping transaction_to_mapping
  transaction_round_trip t h =
      let (reference, description, reversal) = transaction_fields t h.made in
      rw
        (
          reference,
          codec.datetime_round t.posted_at,
          description,
          read_items-to_items (entry_from_mapping e k) (entry_to_mapping k) t.entries
              (entries_round t.entries h.entries),
          read_optional_period-round t.period h.period,
          state_text t.state,
          to_transaction_state-value t.state,
          read_optional_str-optional_str t.reversal_of "transaction.reversal_of",
          reversal,
        )
        h.made
