-- ===== src/Core/Serialization/BookRoundTrip.antt =====
-- A constructed book is read back from its payload.
use finest_vx.Prelude.{◌≡◌, refl, List, [], ◌∷◌, arith, All, ok}
use finest_vx.Core.Books.{book_init}
use finest_vx.Core.Codec.{Codec, CodecLaws}
use finest_vx.Core.Engine.{Engine, EngineLaws}
use finest_vx.Core.Entities.{normalize_currency, account_init, period_init}
use finest_vx.Core.Types.{
  FiscalPeriodState, open_state, closed, locked, Account, BookPeriod, JournalTransaction, Book,
}
use finest_vx.Core.Serialization.{
  period_state_value, account_to_mapping, book_period_to_mapping, transaction_to_mapping,
  book_to_mapping,
}
use finest_vx.Core.Serialization.Read.{
  to_period_state, account_from_mapping, transaction_from_mapping,
}
use finest_vx.Core.Serialization.ReadBook.{
  book_period_from_mapping, book_arguments, book_from_mapping,
}
use finest_vx.Core.Serialization.RoundTrip.{
  read_items-to_items, normalize_currency-require, account_round_trip, IsFiscalPeriod,
  period_round_trip, IsTransaction, transaction_round_trip,
}

pub to_period_state-value : (s : FiscalPeriodState) → to_period_state (period_state_value s) ≡ ok s
unfolding to_period_state
to_period_state-value open_state = refl
to_period_state-value closed = refl
to_period_state-value locked = refl

module _ (e : Engine) (k : Codec) (laws : EngineLaws e) (codec : CodecLaws e k) where
  period_state_text :
      (s : FiscalPeriodState)
      → e.require_non_empty_str (period_state_value s) ≡ ok (period_state_value s)
  period_state_text open_state = codec.enum_round.1.1.0
  period_state_text closed = codec.enum_round.1.1.1.0
  period_state_text locked = codec.enum_round.1.1.1.1.0

  abbrev pub IsBookPeriod : BookPeriod → Type 0
  IsBookPeriod p = (period_init p ≡ ok p) × IsFiscalPeriod e k laws codec p.period

  book_period_round_trip :
      (p : BookPeriod)
      → IsBookPeriod p
      → book_period_from_mapping e k (book_period_to_mapping k p) ≡ ok p
  unfolding book_period_from_mapping book_period_to_mapping
  book_period_round_trip p (made, period) =
      rw
        (
          period_round_trip e k laws codec p.period "book_period.period" period,
          codec.date_round p.start_date,
          codec.date_round p.end_date,
          period_state_text p.state,
          to_period_state-value p.state,
        )
        made

  -- The book and all that it holds come from their constructors.
  pub record IsConstructed (b : Book) : Type 0 where
    pub made : book_init e b ≡ ok b
    pub calendar : k.make_fiscal_calendar b.fiscal_calendar ≡ ok b.fiscal_calendar
    pub accounts : All (λ a. account_init e a ≡ ok a) b.accounts
    pub periods : All IsBookPeriod b.periods
    pub transactions : All (IsTransaction e k laws codec) b.transactions

  pub book_fields :
      (b : Book)
      → book_init e b ≡ ok b
      → (e.require_non_empty_str b.code ≡ ok b.code)
        × (e.require_non_empty_str b.name ≡ ok b.name)
        × (normalize_currency e b.base_currency ≡ ok b.base_currency)
        × (e.require_non_empty_str b.legislative_pack ≡ ok b.legislative_pack)
  unfolding book_init
  book_fields b h = ground arith

  pub accounts_round :
      (xs : List Account)
      → All (λ a. account_init e a ≡ ok a) xs
      → All (λ a. account_from_mapping e (account_to_mapping a) ≡ ok a) xs
  accounts_round [] h = tt
  accounts_round (x ∷ xs) (h, hs) = (account_round_trip e k laws codec x h, accounts_round xs hs)

  pub periods_round :
      (xs : List BookPeriod)
      → All IsBookPeriod xs
      → All (λ p. book_period_from_mapping e k (book_period_to_mapping k p) ≡ ok p) xs
  periods_round [] h = tt
  periods_round (x ∷ xs) (h, hs) = (book_period_round_trip x h, periods_round xs hs)

  transactions_round :
      (xs : List JournalTransaction)
      → All (IsTransaction e k laws codec) xs
      → All (λ t. transaction_from_mapping e k (transaction_to_mapping k t) ≡ ok t) xs
  transactions_round [] h = tt
  transactions_round (x ∷ xs) (h, hs) =
      (transaction_round_trip e k laws codec x h, transactions_round xs hs)

  -- A book whose parts come from their constructors, its numbers written in full and its amounts
  -- formatted by default, is read back from its payload as it was, for an engine and a codec that keep the laws.
  pub book_round_trip :
      (b : Book) → IsConstructed b → book_from_mapping e k (book_to_mapping k b) ≡ ok b
  unfolding book_from_mapping book_arguments book_to_mapping
  book_round_trip b h =
      let (code, name, currency, pack) = book_fields b h.made in
      rw
        (
          code,
          name,
          normalize_currency-require e k laws codec b.base_currency currency,
          codec.int_round b.fiscal_calendar,
          h.calendar,
          pack,
          read_items-to_items (account_from_mapping e) account_to_mapping b.accounts
              (accounts_round b.accounts h.accounts),
          read_items-to_items (book_period_from_mapping e k) (book_period_to_mapping k) b.periods
              (periods_round b.periods h.periods),
          read_items-to_items (transaction_from_mapping e k) (transaction_to_mapping k)
              b.transactions (transactions_round b.transactions h.transactions),
        )
        h.made
