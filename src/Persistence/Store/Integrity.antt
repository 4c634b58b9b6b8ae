-- ===== src/Persistence/Store/Integrity.antt =====
-- The keys of schema.py as an invariant of the database, which every write keeps.
use finest_vx.Prelude.{
  String, ◌≡◌, Bool, true, false, ◌&&◌, List, [], ◌∷◌, ◌++◌, arith, subst, All, All-append, str_eq,
}
use finest_vx.Persistence.Platform.{Platform}
use finest_vx.Prelude.Int.{pos, eq_ℤ}
use finest_vx.Persistence.Rows.{
  BookRow, AccountRow, PeriodRow, EntryRow, TransactionRow, Database, AuditContext,
}
use finest_vx.Persistence.Schema.{audit, exists_in, has_book, has_account, has_transaction}
use finest_vx.Persistence.Schema.Inserts.{
  insert_book-ok, insert_account-ok, insert_period-ok, insert_transaction-ok, insert_entry-ok,
}
use finest_vx.Persistence.Store.Induction.{Commits, IsKept}
use finest_vx.Persistence.Store.Results.{
  LegislativeValidationResult, insert_result, insert_result-ok,
}

-- Two rows with one primary key.
abbrev pub same_book : BookRow → BookRow → Bool
same_book a b = str_eq a.book_code b.book_code

abbrev pub same_account : AccountRow → AccountRow → Bool
same_account a b = str_eq a.book_code b.book_code && str_eq a.code b.code

abbrev pub same_period : PeriodRow → PeriodRow → Bool
same_period a b =
    str_eq a.book_code b.book_code
    && (eq_ℤ a.fiscal_year b.fiscal_year && (eq_ℤ a.quarter b.quarter && eq_ℤ a.month b.month))

abbrev pub same_line : EntryRow → EntryRow → Bool
same_line a b =
    str_eq a.book_code b.book_code
    && (str_eq a.transaction_reference b.transaction_reference
        && eq_ℤ (pos a.line_no) (pos b.line_no))

abbrev pub same_reference : TransactionRow → TransactionRow → Bool
same_reference a b = str_eq a.book_code b.book_code && str_eq a.reference b.reference

abbrev pub AllDifferent : {A : Type 0} → (A → A → Bool) → List A → Type 0
AllDifferent same [] = Unit
AllDifferent same (x ∷ rest) = All (λ y. same x y ≡ false) rest × AllDifferent same rest

-- The keys that SQLite tests at each statement: the primary keys of the five tables, and the foreign
-- keys to books, transactions and accounts that are not deferred.
pub record HasKeys (db : Database) : Type 0 where
  pub accounts : All (λ r. has_book db r.book_code ≡ true) db.accounts
  pub periods : All (λ r. has_book db r.book_code ≡ true) db.periods
  pub transactions : All (λ r. has_book db r.book_code ≡ true) db.transactions
  pub entry_transactions :
      All (λ r. has_transaction db r.book_code r.transaction_reference ≡ true) db.entries
  pub entry_accounts : All (λ r. has_account db r.book_code r.account_code ≡ true) db.entries
  pub references : AllDifferent same_reference db.transactions
  pub book_keys : AllDifferent same_book db.books
  pub account_keys : AllDifferent same_account db.accounts
  pub period_keys : AllDifferent same_period db.periods
  pub entry_keys : AllDifferent same_line db.entries

abbrev pub KeepsKeys : Database → Database → Type 0
KeepsKeys a b = HasKeys a → HasKeys b

exists_in-append :
    {A : Type 0} (q : A → Bool) (xs : List A) (y : A)
    → exists_in q xs ≡ true
    → exists_in q (xs ++ y ∷ []) ≡ true
exists_in-append q [] y h = absurd (let bad = h in cc)
exists_in-append q (x ∷ xs) y h = ground (arith, exists_in-append q xs y)

-- A further row leaves found what was found.
All-exists :
    {A B : Type 0} (q : B → A → Bool) (rows : List A) (new : A) (xs : List B)
    → All (λ x. exists_in (q x) rows ≡ true) xs
    → All (λ x. exists_in (q x) (rows ++ new ∷ []) ≡ true) xs
All-exists q rows new [] h = tt
All-exists q rows new (x ∷ xs) (h, hs) =
    (exists_in-append (q x) rows new h, All-exists q rows new xs hs)

AllDifferent-last :
    {A : Type 0} (same : A → A → Bool) (xs : List A) (y : A)
    → exists_in (λ x. same x y) xs ≡ false
    → AllDifferent same xs
    → AllDifferent same (xs ++ y ∷ [])
AllDifferent-last same [] y new h = (tt, tt)
AllDifferent-last same (x ∷ xs) y new (h, hs) = (
  All-append (λ z. same x z ≡ false) xs (y ∷ []) h (ground arith, tt),
  AllDifferent-last same xs y (ground arith) hs,
)

module _ (p : Platform) (ctx : AuditContext) where
  pub KeepsKeys-IsKept : IsKept p ctx KeepsKeys
  unfolding audit
  KeepsKeys-IsKept = record {
    stays = λ a h. h;
    joins = λ a b c f g h. g (f h);
    book = λ r. record {
      at = λ a b h.
          let (same, new) = insert_book-ok p ctx a r b h in
          subst (KeepsKeys a) same (λ i. record {
            accounts =
                All-exists (λ x y. str_eq y.book_code x.book_code) a.books r a.accounts i.accounts;
            periods =
                All-exists (λ x y. str_eq y.book_code x.book_code) a.books r a.periods i.periods;
            transactions =
                All-exists (λ x y. str_eq y.book_code x.book_code) a.books r a.transactions
                  i.transactions;
            entry_transactions = i.entry_transactions;
            entry_accounts = i.entry_accounts;
            references = i.references;
            book_keys = AllDifferent-last same_book a.books r new i.book_keys;
            account_keys = i.account_keys;
            period_keys = i.period_keys;
            entry_keys = i.entry_keys;
          });
    };
    account = λ r. record {
      at = λ a b h.
          let (same, new, known) = insert_account-ok p ctx a r b h in
          subst (KeepsKeys a) same (λ i. record {
            accounts =
                All-append (λ x. has_book a x.book_code ≡ true) a.accounts (r ∷ []) i.accounts
                  (known, tt);
            periods = i.periods;
            transactions = i.transactions;
            entry_transactions = i.entry_transactions;
            entry_accounts =
                All-exists (λ x y. str_eq y.book_code x.book_code && str_eq y.code x.account_code)
                  a.accounts r a.entries i.entry_accounts;
            references = i.references;
            book_keys = i.book_keys;
            account_keys = AllDifferent-last same_account a.accounts r new i.account_keys;
            period_keys = i.period_keys;
            entry_keys = i.entry_keys;
          });
    };
    period = λ r. record {
      at = λ a b h.
          let (same, new, known) = insert_period-ok p ctx a r b h in
          subst (KeepsKeys a) same (λ i. record {
            accounts = i.accounts;
            periods =
                All-append (λ x. has_book a x.book_code ≡ true) a.periods (r ∷ []) i.periods
                  (known, tt);
            transactions = i.transactions;
            entry_transactions = i.entry_transactions;
            entry_accounts = i.entry_accounts;
            references = i.references;
            book_keys = i.book_keys;
            account_keys = i.account_keys;
            period_keys = AllDifferent-last same_period a.periods r new i.period_keys;
            entry_keys = i.entry_keys;
          });
    };
    transaction = λ r. record {
      at = λ a b h.
          let (same, new, known) = insert_transaction-ok p ctx a r b h in
          subst (KeepsKeys a) same (λ i. record {
            accounts = i.accounts;
            periods = i.periods;
            transactions =
                All-append (λ x. has_book a x.book_code ≡ true) a.transactions (r ∷ [])
                  i.transactions (known, tt);
            entry_transactions =
                All-exists
                  (λ x y.
                    str_eq y.book_code x.book_code && str_eq y.reference x.transaction_reference)
                  a.transactions r a.entries i.entry_transactions;
            entry_accounts = i.entry_accounts;
            references = AllDifferent-last same_reference a.transactions r new i.references;
            book_keys = i.book_keys;
            account_keys = i.account_keys;
            period_keys = i.period_keys;
            entry_keys = i.entry_keys;
          });
    };
    entry = λ r. record {
      at = λ a b h.
          let (same, new, known, account) = insert_entry-ok p ctx a r b h in
          subst (KeepsKeys a) same (λ i. record {
            accounts = i.accounts;
            periods = i.periods;
            transactions = i.transactions;
            entry_transactions =
                All-append (λ x. has_transaction a x.book_code x.transaction_reference ≡ true)
                  a.entries (r ∷ []) i.entry_transactions (known, tt);
            entry_accounts =
                All-append (λ x. has_account a x.book_code x.account_code ≡ true) a.entries (r ∷ [])
                  i.entry_accounts (account, tt);
            references = i.references;
            book_keys = i.book_keys;
            account_keys = i.account_keys;
            period_keys = i.period_keys;
            entry_keys = AllDifferent-last same_line a.entries r new i.entry_keys;
          });
    };
  }

pub KeepsKeys-insert_result :
    (p : Platform) (book reference : String) (r : LegislativeValidationResult) (ctx : AuditContext)
    → Commits KeepsKeys (insert_result p book reference r ctx)
KeepsKeys-insert_result p book reference r ctx = record {
  at = λ a b h. subst (KeepsKeys a) (insert_result-ok p book reference r ctx a b h) (λ i. record {
    accounts = i.accounts;
    periods = i.periods;
    transactions = i.transactions;
    entry_transactions = i.entry_transactions;
    entry_accounts = i.entry_accounts;
    references = i.references;
    book_keys = i.book_keys;
    account_keys = i.account_keys;
    period_keys = i.period_keys;
    entry_keys = i.entry_keys;
  });
}
