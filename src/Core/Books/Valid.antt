-- ===== src/Core/Books/Valid.antt =====
-- Which transactions `Book.__post_init__` accepts, and that it accepts again what it returns.
use finest_vx.Prelude.{
  String, ◌≡◌, refl, ◌↔◌, Bool, true, false, Option, none, some, List, [], ◌∷◌, arith, contains,
  All, not, Bool-cases, inl, inr, ok, >>=-eq-ok, raise_if,
}
use finest_vx.Core.Engine.{Engine, EngineLaws}
use finest_vx.Core.Entities.Normal.{normalize_currency_idem}
use finest_vx.Core.Errors.{Error}
use finest_vx.Core.Chart.{codes, validate_account_collection}
use finest_vx.Core.Chart.Valid.{IsChart, validate_account_collection_iff}
use finest_vx.Core.Periods.{has_period, validate_period_collection}
use finest_vx.Core.Periods.Disjoint.{IsRange, PairwiseDisjoint}
use finest_vx.Core.Periods.Valid.{DistinctPeriods, validate_period_collection_iff}
use finest_vx.Core.Types.{FiscalPeriod, LedgerEntry, is_posted, JournalTransaction, Book}
use finest_vx.Core.Books.{
  check_entry_accounts, validate_transactions_against_accounts, check_transaction_period,
  check_transaction_periods, period_set, transaction_init, book_init,
}

-- The transaction is posted, and its entries name known accounts.
abbrev pub HasKnownAccounts : List String → JournalTransaction → Type 0
HasKnownAccounts known t =
    (is_posted t.state ≡ true) × All (λ x. contains known x.account_code ≡ true) t.entries

-- Its period, where it has one, is known.
abbrev pub HasKnownPeriod : List FiscalPeriod → JournalTransaction → Type 0
HasKnownPeriod known t = (p : FiscalPeriod) → t.period ≡ some p → has_period known p ≡ true

raise_if-ok : (b : Bool) (x : Error) → (raise_if (not b) x ≡ ok tt) ↔ (b ≡ true)
raise_if-ok true x = (λ h. refl, λ h. refl)
raise_if-ok false x = (λ h. absurd (cc), λ h. absurd (cc))

pub check_entry_accounts_iff :
    (known : List String) (reference : String) (entries : List LedgerEntry)
    → (check_entry_accounts known reference entries ≡ ok tt)
      ↔ All (λ x. contains known x.account_code ≡ true) entries
unfolding check_entry_accounts
check_entry_accounts_iff known reference [] = (λ h. tt, λ h. refl)
check_entry_accounts_iff known reference (x ∷ rest) =
    let onward = check_entry_accounts_iff known reference rest in
    elim (Bool-cases (contains known x.account_code)) [
      | inl yes_known ↦
          (λ h. (yes_known, onward.0 (rw yes_known at h)), λ h. rw yes_known (onward.1 h.1))
      | inr unknown ↦
          (λ h. absurd (let bad = (rw unknown at h) in cc), λ h. absurd (let bad = h.0 in cc))
    ]

pub validate_transactions_iff :
    (known : List String) (ts : List JournalTransaction)
    → (validate_transactions_against_accounts known ts ≡ ok tt) ↔ All (HasKnownAccounts known) ts
unfolding validate_transactions_against_accounts
validate_transactions_iff known [] = (λ h. tt, λ h. refl)
validate_transactions_iff known (t ∷ rest) =
    let accounts = check_entry_accounts_iff known t.reference t.entries in
    let onward = validate_transactions_iff known rest in
    elim (Bool-cases (is_posted t.state)) [
      | inl is ↦ (
        λ h.
            let (u, first, second) =
              >>=-eq-ok (check_entry_accounts known t.reference t.entries)
                (λ _. validate_transactions_against_accounts known rest) (rw is at h) in
            ((is, accounts.0 first), onward.0 second),
        λ h. rw (is, accounts.1 h.0.1) (onward.1 h.1),
      )
      | inr other ↦
          (λ h. absurd (let bad = (rw other at h) in cc), λ h. absurd (let bad = h.0.0 in cc))
    ]

check_transaction_period_iff :
    (known : List FiscalPeriod) (reference : String) (o : Option FiscalPeriod)
    → (check_transaction_period known reference o ≡ ok tt)
      ↔ ((p : FiscalPeriod) → o ≡ some p → has_period known p ≡ true)
unfolding check_transaction_period
check_transaction_period_iff known reference none = (λ h p x. absurd (cc), λ h. refl)
check_transaction_period_iff known reference (some q) =
    (λ h p x. ground arith, λ h. ground (arith, h q refl))

pub check_transaction_periods_iff :
    (known : List FiscalPeriod) (ts : List JournalTransaction)
    → (check_transaction_periods known ts ≡ ok tt) ↔ All (HasKnownPeriod known) ts
unfolding check_transaction_periods
check_transaction_periods_iff known [] = (λ h. tt, λ h. refl)
check_transaction_periods_iff known (t ∷ rest) =
    let here = check_transaction_period_iff known t.reference t.period in
    let onward = check_transaction_periods_iff known rest in
    (
      λ h.
          let (u, first, second) =
            >>=-eq-ok (check_transaction_period known t.reference t.period)
              (λ _. check_transaction_periods known rest) h in
          (here.0 first, onward.0 second),
      λ h. rw (here.1 h.0) (onward.1 h.1),
    )

module _ (e : Engine) (laws : EngineLaws e) where
  -- What the constructor of `JournalTransaction` returns it returns again, for an engine that keeps
  -- the laws.
  pub transaction_init_idem :
      (a b : JournalTransaction) → transaction_init e a ≡ ok b → transaction_init e b ≡ ok b
  unfolding transaction_init
  transaction_init_idem a b h = ground (
    arith,
    laws.require_idem a.reference b.reference,
    laws.require_idem a.description b.description,
    laws.optional_idem a.reversal_of b.reversal_of,
  )

  -- What the constructor of `Book` returns it returns again, for an engine that keeps the laws.
  pub book_init_idem : (a b : Book) → book_init e a ≡ ok b → book_init e b ≡ ok b
  unfolding book_init
  book_init_idem a b h = ground (
    arith,
    laws.require_idem a.code b.code,
    laws.require_idem a.name b.name,
    normalize_currency_idem e laws a.base_currency b.base_currency,
    laws.require_idem a.legislative_pack b.legislative_pack,
  )

  book_parts :
      (a b : Book)
      → book_init e a ≡ ok b
      → (validate_account_collection b.accounts ≡ ok tt)
        × (validate_period_collection b.periods ≡ ok tt)
        × (validate_transactions_against_accounts (codes b.accounts) b.transactions ≡ ok tt)
        × (check_transaction_periods (period_set b.periods) b.transactions ≡ ok tt)
  unfolding book_init
  book_parts a b h = ground arith

  -- A book that the constructor returns, of periods that end on or after their start, has a chart whose
  -- codes are distinct, whose parents are known and lead to roots, periods that are distinct and have no
  -- common day, and posted transactions of known accounts and periods; and the constructor returns it
  -- again, for an engine that keeps the laws.
  pub book_init-IsBook :
      (a b : Book)
      → All IsRange b.periods
      → book_init e a ≡ ok b
      → IsChart b.accounts
        × DistinctPeriods b.periods
        × PairwiseDisjoint b.periods
        × All (HasKnownAccounts (codes b.accounts)) b.transactions
        × All (HasKnownPeriod (period_set b.periods)) b.transactions
        × (book_init e b ≡ ok b)
  book_init-IsBook a b ranges h =
      let (chart, periods, accounts, months) = book_parts a b h in
      let (distinct, disjoint) = (validate_period_collection_iff b.periods ranges).0 periods in
      (
        (validate_account_collection_iff b.accounts).0 chart,
        distinct,
        disjoint,
        (validate_transactions_iff (codes b.accounts) b.transactions).0 accounts,
        (check_transaction_periods_iff (period_set b.periods) b.transactions).0 months,
        book_init_idem a b h,
      )
