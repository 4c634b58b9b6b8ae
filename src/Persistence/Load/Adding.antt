-- ===== src/Persistence/Load/Adding.antt =====
-- The row that a committed INSERT adds to its table.
use finest_vx.Prelude.{◌≡◌, refl, List, [], ◌∷◌, ◌++◌, ok, subst}
use mathlib.Core.List.{append_assoc, append-nil}
use finest_vx.Core.Codec.{Codec}
use finest_vx.Core.Errors.{Result}
use finest_vx.Persistence.Platform.{Platform}
use finest_vx.Persistence.Rows.{
  BookRow, AccountRow, PeriodRow, TransactionRow, EntryRow, Database, AuditContext, empty_database,
}
use finest_vx.Persistence.Schema.{
  audit, insert_book, insert_account, insert_period, insert_transaction, insert_entry,
}
use finest_vx.Persistence.Schema.Inserts.{
  insert_book-ok, insert_account-ok, insert_period-ok, insert_transaction-ok, insert_entry-ok,
}

-- The rows of `d` stand behind those of `a` in `b`.
pub record Adds (d a b : Database) : Type 0 where
  pub books : b.books ≡ a.books ++ d.books
  pub accounts : b.accounts ≡ a.accounts ++ d.accounts
  pub periods : b.periods ≡ a.periods ++ d.periods
  pub transactions : b.transactions ≡ a.transactions ++ d.transactions
  pub entries : b.entries ≡ a.entries ++ d.entries

-- Both rows, those of `c` first. The audit log is left out.
abbrev pub both : Database → Database → Database
both c d = record empty_database {
  books = c.books ++ d.books;
  accounts = c.accounts ++ d.accounts;
  periods = c.periods ++ d.periods;
  transactions = c.transactions ++ d.transactions;
  entries = c.entries ++ d.entries;
}

module _ {A : Type 0} where
  joined : (xs ys zs c d : List A) → ys ≡ xs ++ c → zs ≡ ys ++ d → zs ≡ xs ++ (c ++ d)
  joined xs ys zs c d h k = rw (k, h) (append_assoc xs c d)

  nothing_added : (xs : List A) → xs ≡ xs ++ []
  nothing_added xs = rw append-nil

pub Adds-join : {c d a b z : Database} → Adds c a b → Adds d b z → Adds (both c d) a z
Adds-join {c} {d} {a} {b} {z} h k = record {
  books = joined a.books b.books z.books c.books d.books h.books k.books;
  accounts = joined a.accounts b.accounts z.accounts c.accounts d.accounts h.accounts k.accounts;
  periods = joined a.periods b.periods z.periods c.periods d.periods h.periods k.periods;
  transactions =
      joined a.transactions b.transactions z.transactions c.transactions d.transactions
        h.transactions k.transactions;
  entries = joined a.entries b.entries z.entries c.entries d.entries h.entries k.entries;
}

pub Adds-nothing :
    (a b : Database) → ◌≡◌ {A = Result Database} (ok a) (ok b) → Adds empty_database a b
Adds-nothing a b h =
    let same : a ≡ b = cc in
    subst (Adds empty_database a) same (record {
      books = nothing_added a.books;
      accounts = nothing_added a.accounts;
      periods = nothing_added a.periods;
      transactions = nothing_added a.transactions;
      entries = nothing_added a.entries;
    })

module _ (p : Platform) (k : Codec) (ctx : AuditContext) where
  pub insert_book-Adds :
      (r : BookRow) (a b : Database)
      → insert_book p ctx r a ≡ ok b
      → Adds (record empty_database { books = r ∷ [] }) a b
  unfolding audit
  insert_book-Adds r a b h = subst (Adds _ a) (insert_book-ok p ctx a r b h).0 (record {
    books = refl;
    accounts = nothing_added a.accounts;
    periods = nothing_added a.periods;
    transactions = nothing_added a.transactions;
    entries = nothing_added a.entries;
  })

  pub insert_account-Adds :
      (r : AccountRow) (a b : Database)
      → insert_account p ctx r a ≡ ok b
      → Adds (record empty_database { accounts = r ∷ [] }) a b
  unfolding audit
  insert_account-Adds r a b h = subst (Adds _ a) (insert_account-ok p ctx a r b h).0 (record {
    books = nothing_added a.books;
    accounts = refl;
    periods = nothing_added a.periods;
    transactions = nothing_added a.transactions;
    entries = nothing_added a.entries;
  })

  pub insert_period-Adds :
      (r : PeriodRow) (a b : Database)
      → insert_period p ctx r a ≡ ok b
      → Adds (record empty_database { periods = r ∷ [] }) a b
  unfolding audit
  insert_period-Adds r a b h = subst (Adds _ a) (insert_period-ok p ctx a r b h).0 (record {
    books = nothing_added a.books;
    accounts = nothing_added a.accounts;
    periods = refl;
    transactions = nothing_added a.transactions;
    entries = nothing_added a.entries;
  })

  pub insert_transaction-Adds :
      (r : TransactionRow) (a b : Database)
      → insert_transaction p ctx r a ≡ ok b
      → Adds (record empty_database { transactions = r ∷ [] }) a b
  unfolding audit
  insert_transaction-Adds r a b h =
      subst (Adds _ a) (insert_transaction-ok p ctx a r b h).0 (record {
        books = nothing_added a.books;
        accounts = nothing_added a.accounts;
        periods = nothing_added a.periods;
        transactions = refl;
        entries = nothing_added a.entries;
      })

  pub insert_entry-Adds :
      (r : EntryRow) (a b : Database)
      → insert_entry p ctx r a ≡ ok b
      → Adds (record empty_database { entries = r ∷ [] }) a b
  unfolding audit
  insert_entry-Adds r a b h = subst (Adds _ a) (insert_entry-ok p ctx a r b h).0 (record {
    books = nothing_added a.books;
    accounts = nothing_added a.accounts;
    periods = nothing_added a.periods;
    transactions = nothing_added a.transactions;
    entries = refl;
  })
