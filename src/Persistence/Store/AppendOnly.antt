-- ===== src/Persistence/Store/AppendOnly.antt =====
-- The tables only grow: what the triggers of schema.py promise, of every write.
use finest_vx.Prelude.{String, ◌≡◌, refl, List, [], ◌∷◌, ◌++◌, subst}
use mathlib.Core.List.{append_assoc, append-nil}
use finest_vx.Persistence.Platform.{Platform}
use finest_vx.Persistence.Rows.{Database, AuditContext}
use finest_vx.Persistence.Schema.{audit}
use finest_vx.Persistence.Schema.Inserts.{
  insert_book-ok, insert_account-ok, insert_period-ok, insert_transaction-ok, insert_entry-ok,
}
use finest_vx.Persistence.Store.Induction.{Commits, IsKept}
use finest_vx.Persistence.Store.Results.{
  LegislativeValidationResult, insert_result, insert_result-ok,
}

-- The second list is the first with more behind it.
abbrev pub GrowsTo : {A : Type 0} → List A → List A → Type 0
GrowsTo {A} xs ys = (more : List A) × (ys ≡ xs ++ more)

pub record Extends (a b : Database) : Type 0 where
  pub books : GrowsTo a.books b.books
  pub accounts : GrowsTo a.accounts b.accounts
  pub periods : GrowsTo a.periods b.periods
  pub transactions : GrowsTo a.transactions b.transactions
  pub entries : GrowsTo a.entries b.entries
  pub audit_log : GrowsTo a.audit_log b.audit_log

module _ {A : Type 0} where
  GrowsTo-refl : (xs : List A) → GrowsTo xs xs
  GrowsTo-refl xs = ([], rw append-nil)

  GrowsTo-trans : (xs ys zs : List A) → GrowsTo xs ys → GrowsTo ys zs → GrowsTo xs zs
  GrowsTo-trans xs ys zs (m, h) (n, k) = (m ++ n, rw (k, h) (append_assoc xs m n))

  GrowsTo-last : (xs : List A) (x : A) → GrowsTo xs (xs ++ x ∷ [])
  GrowsTo-last xs x = (x ∷ [], refl)

pub Extends-refl : (a : Database) → Extends a a
Extends-refl a = record {
  books = GrowsTo-refl a.books;
  accounts = GrowsTo-refl a.accounts;
  periods = GrowsTo-refl a.periods;
  transactions = GrowsTo-refl a.transactions;
  entries = GrowsTo-refl a.entries;
  audit_log = GrowsTo-refl a.audit_log;
}

pub Extends-trans : (a b c : Database) → Extends a b → Extends b c → Extends a c
Extends-trans a b c h k = record {
  books = GrowsTo-trans a.books b.books c.books h.books k.books;
  accounts = GrowsTo-trans a.accounts b.accounts c.accounts h.accounts k.accounts;
  periods = GrowsTo-trans a.periods b.periods c.periods h.periods k.periods;
  transactions =
      GrowsTo-trans a.transactions b.transactions c.transactions h.transactions k.transactions;
  entries = GrowsTo-trans a.entries b.entries c.entries h.entries k.entries;
  audit_log = GrowsTo-trans a.audit_log b.audit_log c.audit_log h.audit_log k.audit_log;
}

module _ (p : Platform) (ctx : AuditContext) where
  pub Extends-IsKept : IsKept p ctx Extends
  unfolding audit
  Extends-IsKept = record {
    stays = Extends-refl;
    joins = Extends-trans;
    book = λ r. record {
      at = λ a b h. subst (Extends a) (insert_book-ok p ctx a r b h).0 (record {
        books = GrowsTo-last a.books _;
        accounts = GrowsTo-refl a.accounts;
        periods = GrowsTo-refl a.periods;
        transactions = GrowsTo-refl a.transactions;
        entries = GrowsTo-refl a.entries;
        audit_log = GrowsTo-last a.audit_log _;
      });
    };
    account = λ r. record {
      at = λ a b h. subst (Extends a) (insert_account-ok p ctx a r b h).0 (record {
        books = GrowsTo-refl a.books;
        accounts = GrowsTo-last a.accounts _;
        periods = GrowsTo-refl a.periods;
        transactions = GrowsTo-refl a.transactions;
        entries = GrowsTo-refl a.entries;
        audit_log = GrowsTo-last a.audit_log _;
      });
    };
    period = λ r. record {
      at = λ a b h. subst (Extends a) (insert_period-ok p ctx a r b h).0 (record {
        books = GrowsTo-refl a.books;
        accounts = GrowsTo-refl a.accounts;
        periods = GrowsTo-last a.periods _;
        transactions = GrowsTo-refl a.transactions;
        entries = GrowsTo-refl a.entries;
        audit_log = GrowsTo-last a.audit_log _;
      });
    };
    transaction = λ r. record {
      at = λ a b h. subst (Extends a) (insert_transaction-ok p ctx a r b h).0 (record {
        books = GrowsTo-refl a.books;
        accounts = GrowsTo-refl a.accounts;
        periods = GrowsTo-refl a.periods;
        transactions = GrowsTo-last a.transactions _;
        entries = GrowsTo-refl a.entries;
        audit_log = GrowsTo-last a.audit_log _;
      });
    };
    entry = λ r. record {
      at = λ a b h. subst (Extends a) (insert_entry-ok p ctx a r b h).0 (record {
        books = GrowsTo-refl a.books;
        accounts = GrowsTo-refl a.accounts;
        periods = GrowsTo-refl a.periods;
        transactions = GrowsTo-refl a.transactions;
        entries = GrowsTo-last a.entries _;
        audit_log = GrowsTo-last a.audit_log _;
      });
    };
  }

  pub Extends-insert_result :
      (book reference : String) (r : LegislativeValidationResult)
      → Commits Extends (insert_result p book reference r ctx)
  unfolding insert_result
  Extends-insert_result book reference r = record {
    at = λ a b h. subst (Extends a) (insert_result-ok p book reference r ctx a b h) (record {
      books = GrowsTo-refl a.books;
      accounts = GrowsTo-refl a.accounts;
      periods = GrowsTo-refl a.periods;
      transactions = GrowsTo-refl a.transactions;
      entries = GrowsTo-refl a.entries;
      audit_log = GrowsTo-last a.audit_log _;
    });
  }
