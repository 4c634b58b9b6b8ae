-- ===== src/Persistence/Store/Induction.antt =====
-- A relation between databases that the insertions keep is kept by every write that commits.
use finest_vx.Prelude.{ℕ, suc, String, ◌≡◌, List, [], ◌∷◌, subst, ok, ◌>>=◌, >>=-eq-ok}
use finest_vx.Core.Codec.{Codec}
use finest_vx.Core.Types.{Account, BookPeriod, LedgerEntry, JournalTransaction, Book}
use finest_vx.Core.Errors.{Result}
use finest_vx.Persistence.Platform.{Platform}
use finest_vx.Persistence.Rows.{
  BookRow, AccountRow, PeriodRow, TransactionRow, EntryRow, Database, AuditContext,
}
use finest_vx.Persistence.Schema.{
  insert_book, insert_account, insert_period, insert_transaction, insert_entry, check_deferred,
}
use finest_vx.Persistence.Store.{
  transact, insert_entries, insert_transaction_rows, transaction_row, entry_row,
}
use finest_vx.Persistence.Store.Writes.{
  insert_accounts, insert_periods, insert_transactions, create_operation, account_row, period_row,
}

-- When the operation commits, the relation holds between the databases before and after it.
pub record Commits (R : Database → Database → Type 0) (operation : Database → Result Database)
    : Type 0 where
  pub at : (db db' : Database) → operation db ≡ ok db' → R db db'

-- What a relation has to satisfy: it is a preorder, and each insertion keeps it.
pub record IsKept (p : Platform) (ctx : AuditContext) (R : Database → Database → Type 0)
    : Type 0 where
  pub stays : (db : Database) → R db db
  pub joins : (a b c : Database) → R a b → R b c → R a c
  pub book : (r : BookRow) → Commits R (insert_book p ctx r)
  pub account : (r : AccountRow) → Commits R (insert_account p ctx r)
  pub period : (r : PeriodRow) → Commits R (insert_period p ctx r)
  pub transaction : (r : TransactionRow) → Commits R (insert_transaction p ctx r)
  pub entry : (r : EntryRow) → Commits R (insert_entry p ctx r)

module _ {R : Database → Database → Type 0} (p : Platform) (k : Codec) (ctx : AuditContext)
    (kept : IsKept p ctx R) where
  Commits-bind :
      (f g : Database → Result Database) → Commits R f → Commits R g → Commits R (λ db. f db >>= g)
  Commits-bind f g cf cg = record {
    at = λ db db' h.
        let (mid, first, second) = >>=-eq-ok (f db) g h in
        kept.joins db mid db' (cf.at db mid first) (cg.at mid db' second);
  }

  Commits-ok : Commits R ok
  Commits-ok = record {
    at = λ db db' h. let same : db ≡ db' = cc in subst (R db) same (kept.stays db);
  }

  pub insert_entries-Commits :
      (book reference : String) (line : ℕ) (xs : List LedgerEntry)
      → Commits R (insert_entries p k ctx book reference line xs)
  unfolding insert_entries
  insert_entries-Commits book reference line [] = Commits-ok
  insert_entries-Commits book reference line (x ∷ rest) =
      Commits-bind (insert_entry p ctx (entry_row p k book reference line x))
        (insert_entries p k ctx book reference (suc line) rest) (kept.entry _)
        (insert_entries-Commits book reference (suc line) rest)

  pub insert_transaction_rows-Commits :
      (book : String) (t : JournalTransaction) → Commits R (insert_transaction_rows p k book t ctx)
  unfolding insert_transaction_rows
  insert_transaction_rows-Commits book t =
      Commits-bind (insert_transaction p ctx (transaction_row p k book t))
        (insert_entries p k ctx book t.reference 0 t.entries) (kept.transaction _)
        (insert_entries-Commits book t.reference 0 t.entries)

  insert_accounts-Commits :
      (book : String) (xs : List Account) → Commits R (insert_accounts p k ctx book xs)
  unfolding insert_accounts
  insert_accounts-Commits book [] = Commits-ok
  insert_accounts-Commits book (a ∷ rest) =
      Commits-bind (insert_account p ctx (account_row book a)) (insert_accounts p k ctx book rest)
        (kept.account _) (insert_accounts-Commits book rest)

  insert_periods-Commits :
      (book : String) (xs : List BookPeriod) → Commits R (insert_periods p k ctx book xs)
  unfolding insert_periods
  insert_periods-Commits book [] = Commits-ok
  insert_periods-Commits book (q ∷ rest) =
      Commits-bind (insert_period p ctx (period_row p k book q)) (insert_periods p k ctx book rest)
        (kept.period _) (insert_periods-Commits book rest)

  insert_transactions-Commits :
      (book : String) (ts : List JournalTransaction)
      → Commits R (insert_transactions p k ctx book ts)
  unfolding insert_transactions
  insert_transactions-Commits book [] = Commits-ok
  insert_transactions-Commits book (t ∷ rest) =
      Commits-bind (insert_transaction_rows p k book t ctx) (insert_transactions p k ctx book rest)
        (insert_transaction_rows-Commits book t) (insert_transactions-Commits book rest)

  pub create_operation-Commits : (b : Book) → Commits R (create_operation p k b ctx)
  unfolding create_operation
  create_operation-Commits b =
      Commits-bind (insert_book p ctx _)
        (λ db1. insert_accounts p k ctx b.code b.accounts db1 >>= λ db2.
          insert_periods p k ctx b.code b.periods db2
          >>= insert_transactions p k ctx b.code b.transactions)
        (kept.book _)
        (Commits-bind (insert_accounts p k ctx b.code b.accounts)
          (λ db2.
            insert_periods p k ctx b.code b.periods db2
            >>= insert_transactions p k ctx b.code b.transactions)
          (insert_accounts-Commits b.code b.accounts)
          (Commits-bind (insert_periods p k ctx b.code b.periods)
            (insert_transactions p k ctx b.code b.transactions)
            (insert_periods-Commits b.code b.periods)
            (insert_transactions-Commits b.code b.transactions)))

-- The check of the deferred keys changes nothing.
pub transact-Commits :
    {R : Database → Database → Type 0} (f : Database → Result Database)
    → Commits R f
    → Commits R (transact f)
unfolding transact
transact-Commits {R} f cf = record {
  at = λ db db' h.
      let (mid, first, second) = >>=-eq-ok (f db) (λ x. check_deferred x >>= λ _. ok x) h in
      let (u, passed, third) = >>=-eq-ok (check_deferred mid) (λ _. ok mid) second in
      let same : mid ≡ db' = cc in subst (R db) same (cf.at db mid first);
}
