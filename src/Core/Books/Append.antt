-- ===== src/Core/Books/Append.antt =====
-- `Book.append_transaction` and `Book.append_account`.
use finest_vx.Prelude.{◌≡◌, ◌↔◌, List, [], ◌∷◌, ◌++◌, arith, All-append, All-last, ok}
use finest_vx.Core.Chart.{codes}
use finest_vx.Core.Engine.{Engine}
use finest_vx.Core.Types.{JournalTransaction, Book}
use finest_vx.Core.Books.{
  book_init, append_transaction, period_set, validate_transactions_against_accounts,
  check_transaction_periods,
}
use finest_vx.Core.Books.Valid.{
  HasKnownAccounts, HasKnownPeriod, validate_transactions_iff, check_transaction_periods_iff,
}

module _ (e : Engine) where
  -- The book is one that the constructor has returned.
  abbrev pub IsBook : Book → Type 0
  IsBook b = book_init e b ≡ ok b

  abbrev pub with_transaction : Book → JournalTransaction → Book
  with_transaction b t = record b { transactions = b.transactions ++ t ∷ [] }

  IsBook-transactions :
      (a b : Book)
      → book_init e a ≡ ok b
      → (validate_transactions_against_accounts (codes a.accounts) a.transactions ≡ ok tt)
        × (check_transaction_periods (period_set a.periods) a.transactions ≡ ok tt)
  unfolding book_init
  IsBook-transactions a b h = ground arith

  replace_transactions :
      (b : Book) (ts : List JournalTransaction)
      → IsBook b
      → validate_transactions_against_accounts (codes b.accounts) ts ≡ ok tt
      → check_transaction_periods (period_set b.periods) ts ≡ ok tt
      → book_init e (record b { transactions = ts }) ≡ ok (record b { transactions = ts })
  unfolding book_init
  replace_transactions b ts h k l = ground arith

  replace_transactions_inv :
      (b c : Book) (ts : List JournalTransaction)
      → IsBook b
      → book_init e (record b { transactions = ts }) ≡ ok c
      → c ≡ record b { transactions = ts }
  unfolding book_init
  replace_transactions_inv b c ts h k = ground arith

  -- Appending to a constructed book succeeds exactly for a posted transaction with known accounts
  -- and a known period, if it has one; the result is the book with the transaction at the end.
  pub append_transaction_iff :
      (b c : Book) (t : JournalTransaction)
      → IsBook b
      → (append_transaction e b t ≡ ok c) ↔ (
          (c ≡ with_transaction b t)
          × HasKnownAccounts (codes b.accounts) t
          × HasKnownPeriod (period_set b.periods) t)
  unfolding append_transaction
  append_transaction_iff b c t h =
      let ts = b.transactions ++ t ∷ [] in
      let (old, old_periods) = IsBook-transactions b b h in
      let accounts = validate_transactions_iff (codes b.accounts) in
      let periods = check_transaction_periods_iff (period_set b.periods) in
      (
        λ k.
            let (new, new_periods) = IsBook-transactions (with_transaction b t) c k in
            (
              replace_transactions_inv b c ts h k,
              All-last (HasKnownAccounts (codes b.accounts)) b.transactions t ((accounts ts).0 new),
              All-last (HasKnownPeriod (period_set b.periods)) b.transactions t
                  ((periods ts).0 new_periods),
            ),
        λ k. rw k.0 (
            replace_transactions b ts h
              ((accounts ts).1 (
                All-append (HasKnownAccounts (codes b.accounts)) b.transactions (t ∷ [])
                  ((accounts b.transactions).0 old) (k.1, tt)))
              ((periods ts).1 (
                All-append (HasKnownPeriod (period_set b.periods)) b.transactions (t ∷ [])
                  ((periods b.transactions).0 old_periods) (k.2, tt)))),
      )
