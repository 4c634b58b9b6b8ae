-- ===== src/Persistence/Load/Loaded.antt =====
-- What a loaded book satisfies, and which errors loading raises.
use finest_vx.Prelude.{
  ◌≤◌, String, ◌≡◌, refl, sym, ◌∙◌, true, Option, none, some, List, [], ◌∷◌, arith, All, length, ok,
  err, ◌>>=◌, Yields, Yields-bind,
}
use finest_vx.Core.Balance.{validate_transaction_entries, validate_transaction_balance}
use finest_vx.Core.Balance.Totals.{IsBalanced, validate_transaction_entries_iff}
use finest_vx.Core.Books.{
  transaction_init, book_init, check_entries, validate_transactions_against_accounts,
}
use finest_vx.Core.Books.Valid.{book_init_idem, HasKnownAccounts, validate_transactions_iff}
use finest_vx.Core.Chart.{codes, validate_account_collection, validate_chart_of_accounts}
use finest_vx.Core.Chart.Valid.{IsChart, validate_account_collection_iff}
use finest_vx.Core.Codec.{Codec}
use finest_vx.Core.Engine.{Engine, EngineLaws}
use finest_vx.Core.Errors.{Error, Result, persistence_integrity}
use finest_vx.Core.Serialization.Read.{read_items, transaction_from_mapping}
use finest_vx.Core.Serialization.ReadBook.{book_arguments, book_from_mapping}
use finest_vx.Core.Types.{JournalTransaction, Book, is_posted}
use finest_vx.Core.Value.{Value, Items, nil, cons, require_key, require_mapping, require_sequence}
use finest_vx.Persistence.Platform.{Platform}
use finest_vx.Persistence.Rows.{BookRow, Database}
use finest_vx.Persistence.Load.{
  catching, check_balances, check_book, load_row, load_book, stored_payload,
}

-- A posted transaction passes the double-entry check.
abbrev IsChecked : JournalTransaction → Type 0
IsChecked t = is_posted t.state ≡ true → validate_transaction_entries t.entries ≡ ok tt

read_items-All :
    {A : Type 0} {P : A → Type 0} (f : Value → Result A)
    → ((v : Value) → Yields P (f v))
    → (items : Items) → Yields (All P) (read_items f items)
read_items-All {P = P} f h nil = λ xs e. let same : [] ≡ xs = cc in rw (← same) tt
read_items-All {P = P} f h (cons v rest) = Yields-bind (f v) _ (λ x e.
    Yields-bind (read_items f rest) _ (λ xs es ys same.
      let eq : x ∷ xs ≡ ys = cc in rw (← eq) (h v x e, read_items-All f h rest xs es)))

module _ (e : Engine) where
  transaction_init-IsChecked : (a : JournalTransaction) → Yields IsChecked (transaction_init e a)
  unfolding transaction_init check_entries
  transaction_init-IsChecked a b h posted = ground arith

  -- What a book's constructor has checked.
  abbrev Passed : List JournalTransaction → Book → Type 0
  Passed ts b =
      (validate_account_collection b.accounts ≡ ok tt)
      × (b.transactions ≡ ts)
      × (validate_transactions_against_accounts (codes b.accounts) b.transactions ≡ ok tt)

  book_init-Passed : (a : Book) → Yields (Passed a.transactions) (book_init e a)
  unfolding book_init
  book_init-Passed a b h = ground arith

module _ (e : Engine) (k : Codec) where
  transaction_from_mapping-IsChecked :
      (v : Value) → Yields IsChecked (transaction_from_mapping e k v)
  unfolding transaction_from_mapping transaction_init check_entries
  transaction_from_mapping-IsChecked v t h posted = ground arith

  -- The transactions of a book's payload.
  unfoldable transactions_of : Value → Result (List JournalTransaction)
  unfolding require_mapping require_sequence
  transactions_of v = do
    fields ← require_mapping v "book"
    items ← require_sequence (← require_key fields "transactions") "book.transactions"
    read_items (transaction_from_mapping e k) items

  transactions_of-IsChecked : (v : Value) → Yields (All IsChecked) (transactions_of v)
  unfolding transactions_of
  transactions_of-IsChecked v = Yields-bind (require_mapping v "book") _ λ fields h.
      Yields-bind (require_key fields "transactions") _ λ entry j.
        Yields-bind (require_sequence entry "book.transactions") _ λ items i.
          read_items-All (transaction_from_mapping e k) transaction_from_mapping-IsChecked items

  book_from_mapping-transactions :
      (v : Value) (b : Book)
      → book_from_mapping e k v ≡ ok b
      → transactions_of v ≡ ok b.transactions
  unfolding book_from_mapping book_arguments book_init transactions_of
  book_from_mapping-transactions v b h = ground arith

  book_from_mapping-validated :
      (v : Value) (b : Book)
      → book_from_mapping e k v ≡ ok b
      → (validate_account_collection b.accounts ≡ ok tt)
        × (validate_transactions_against_accounts (codes b.accounts) b.transactions ≡ ok tt)
  unfolding book_from_mapping book_arguments book_init
  book_from_mapping-validated v b h = ground arith

  book_from_mapping_idem :
      (laws : EngineLaws e) (v : Value)
      → Yields (λ b. book_init e b ≡ ok b) (book_from_mapping e k v)
  unfolding book_from_mapping
  book_from_mapping_idem laws v =
      Yields-bind (book_arguments e k v) (book_init e) λ a h b. book_init_idem e laws a b

check_balances-pass :
    (ts : List JournalTransaction)
    → All IsChecked ts
    → All (λ t. is_posted t.state ≡ true) ts
    → check_balances ts ≡ ok tt
unfolding check_balances catching validate_transaction_balance
check_balances-pass [] h posted = refl
check_balances-pass (t ∷ rest) (h, hs) (posted, others) =
    rw (h posted) (check_balances-pass rest hs others)

All-posted :
    (known : List String) (ts : List JournalTransaction)
    → All (HasKnownAccounts known) ts
    → All (λ t. is_posted t.state ≡ true) ts
All-posted known [] h = tt
All-posted known (t ∷ rest) (h, hs) = (h.0, All-posted known rest hs)

-- A posted transaction with balanced entries.
abbrev pub IsPostedAndBalanced : JournalTransaction → Type 0
IsPostedAndBalanced t = (is_posted t.state ≡ true) × (2 ≤ length t.entries) × IsBalanced t.entries

All-balanced :
    (ts : List JournalTransaction)
    → All IsChecked ts
    → All (λ t. is_posted t.state ≡ true) ts
    → All IsPostedAndBalanced ts
All-balanced [] h posted = tt
All-balanced (t ∷ rest) (h, hs) (posted, others) =
    let (two, balanced) = (validate_transaction_entries_iff t.entries).0 (h posted) in
    ((posted, two, balanced), All-balanced rest hs others)

module _ (e : Engine) (p : Platform) (k : Codec) where
  validated_transactions :
      (v : Value) (b : Book)
      → book_from_mapping e k v ≡ ok b
      → All IsChecked b.transactions × All (λ t. is_posted t.state ≡ true) b.transactions
  validated_transactions v b h = (
    transactions_of-IsChecked e k v b.transactions (book_from_mapping-transactions e k v b h),
    All-posted (codes b.accounts) b.transactions (
        (validate_transactions_iff (codes b.accounts) b.transactions).0
          (book_from_mapping-validated e k v b h).1),
  )

  check_book-pass :
      (code : String) (v : Value) (b : Book)
      → book_from_mapping e k v ≡ ok b
      → check_book code b ≡ ok b
  unfolding check_book catching validate_chart_of_accounts
  check_book-pass code v b h =
      let (checked, posted) = validated_transactions v b h in
      rw (
        (book_from_mapping-validated e k v b h).0,
        check_balances-pass b.transactions checked posted,
      )

  check_after :
      (code : String) (r : Result Book)
      → Yields (λ b. check_book code b ≡ ok b) r
      → (catching (persistence_integrity code) r >>= check_book code)
        ≡ catching (persistence_integrity code) r
  unfolding catching
  check_after code (ok b) h = h b refl
  check_after code (err x) h = ground arith

  -- The checks that loading a book makes after it has read the payload never refuse: what the
  -- constructors accept passes them.
  pub load_row_reads :
      (db : Database) (code : String) (row : BookRow)
      → load_row e p k db code (some row)
        ≡ catching (persistence_integrity code) (book_from_mapping e k (stored_payload p db row))
  unfolding load_row
  load_row_reads db code row =
      check_after code (book_from_mapping e k (stored_payload p db row))
        (check_book-pass code (stored_payload p db row))

  pub catching-ok : (x : Error) (r : Result Book) (b : Book) → catching x r ≡ ok b → r ≡ ok b
  unfolding catching
  catching-ok x r b h = ground arith

  abbrev pub IsLoaded : Book → Type 0
  IsLoaded b = (book_init e b ≡ ok b) × IsChart b.accounts × All IsPostedAndBalanced b.transactions

  load_row-IsLoaded :
      (laws : EngineLaws e) (db : Database) (code : String) (row : Option BookRow) (b : Book)
      → load_row e p k db code row ≡ ok b
      → IsLoaded b
  unfolding load_row
  load_row-IsLoaded laws db code none b h = absurd (cc)
  load_row-IsLoaded laws db code (some row) b h =
      let read =
        catching-ok (persistence_integrity code) (book_from_mapping e k (stored_payload p db row)) b
          (sym (load_row_reads db code row) ∙ h) in
      let (checked, posted) = validated_transactions (stored_payload p db row) b read in
      (
        book_from_mapping_idem e k laws (stored_payload p db row) b read,
        (validate_account_collection_iff b.accounts).0
            (book_from_mapping-validated e k (stored_payload p db row) b read).0,
        All-balanced b.transactions checked posted,
      )

  -- A loaded book is one that the constructor returns, for an engine that keeps the laws; its chart is
  -- well-formed and all of its transactions are posted and balanced.
  pub load_book-IsLoaded :
      (laws : EngineLaws e) (db : Database) (code : String) (b : Book)
      → load_book e p k db code ≡ ok b
      → IsLoaded b
  unfolding load_book
  load_book-IsLoaded laws db code b h = load_row-IsLoaded laws db code _ b h
