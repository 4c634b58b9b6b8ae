-- ===== src/Persistence/Store/Auditing.antt =====
-- The audit triggers of schema.py: one numbered audit row for each inserted row, in the name of the
-- write's context.
use finest_vx.Prelude.{
  ℕ, suc, ◌+◌, max, String, ◌≡◌, refl, List, [], ◌∷◌, ◌++◌, arith, subst, All, All-append, length,
  length-append,
}
use mathlib.Core.List.{append_assoc, append-nil}
use finest_vx.Persistence.Platform.{Platform}
use finest_vx.Persistence.Rows.{AuditLogRecord, Database, AuditContext}
use finest_vx.Persistence.Schema.{audit, max_seq}
use finest_vx.Persistence.Schema.Inserts.{
  insert_book-ok, insert_account-ok, insert_period-ok, insert_transaction-ok, insert_entry-ok,
}
use finest_vx.Persistence.Store.Induction.{Commits, IsKept}
use finest_vx.Persistence.Store.Results.{
  LegislativeValidationResult, insert_result, insert_result-ok,
}

-- How many rows the core tables have.
abbrev pub core_rows : Database → ℕ
core_rows db =
    length db.books
    + length db.accounts
    + length db.periods
    + length db.transactions
    + length db.entries

abbrev pub CarriesContext : AuditContext → AuditLogRecord → Type 0
CarriesContext ctx r =
    (r.operation ≡ "INSERT")
    × (r.actor ≡ ctx.actor)
    × (r.reason ≡ ctx.reason)
    × (r.session_id ≡ ctx.session_id)

-- The audit log has grown by one row in the context's name for each row of the core tables.
pub record Audited (ctx : AuditContext) (a b : Database) : Type 0 where
  pub added : List AuditLogRecord
  pub grown : b.audit_log ≡ a.audit_log ++ added
  pub context : All (CarriesContext ctx) added
  pub counted : core_rows b ≡ core_rows a + length added

module _ (ctx : AuditContext) where
  Audited-refl : (a : Database) → Audited ctx a a
  Audited-refl a = record { added = []; grown = rw append-nil; context = tt; counted = omega arith }

  Audited-trans : (a b c : Database) → Audited ctx a b → Audited ctx b c → Audited ctx a c
  Audited-trans a b c h k = record {
    added = h.added ++ k.added;
    grown = rw (k.grown, h.grown) (append_assoc a.audit_log h.added k.added);
    context = All-append (CarriesContext ctx) h.added k.added h.context k.context;
    counted = omega (arith, h.counted, k.counted, length-append h.added k.added);
  }

  pub Audited-IsKept : (p : Platform) → IsKept p ctx (Audited ctx)
  unfolding audit
  Audited-IsKept p = record {
    stays = Audited-refl;
    joins = Audited-trans;
    book = λ r. record {
      at = λ a b h. subst (Audited ctx a) (insert_book-ok p ctx a r b h).0 (record {
        added = _ ∷ [];
        grown = refl;
        context = ((refl, refl, refl, refl), tt);
        counted = omega (arith, length-append a.books (r ∷ []));
      });
    };
    account = λ r. record {
      at = λ a b h. subst (Audited ctx a) (insert_account-ok p ctx a r b h).0 (record {
        added = _ ∷ [];
        grown = refl;
        context = ((refl, refl, refl, refl), tt);
        counted = omega (arith, length-append a.accounts (r ∷ []));
      });
    };
    period = λ r. record {
      at = λ a b h. subst (Audited ctx a) (insert_period-ok p ctx a r b h).0 (record {
        added = _ ∷ [];
        grown = refl;
        context = ((refl, refl, refl, refl), tt);
        counted = omega (arith, length-append a.periods (r ∷ []));
      });
    };
    transaction = λ r. record {
      at = λ a b h. subst (Audited ctx a) (insert_transaction-ok p ctx a r b h).0 (record {
        added = _ ∷ [];
        grown = refl;
        context = ((refl, refl, refl, refl), tt);
        counted = omega (arith, length-append a.transactions (r ∷ []));
      });
    };
    entry = λ r. record {
      at = λ a b h. subst (Audited ctx a) (insert_entry-ok p ctx a r b h).0 (record {
        added = _ ∷ [];
        grown = refl;
        context = ((refl, refl, refl, refl), tt);
        counted = omega (arith, length-append a.entries (r ∷ []));
      });
    };
  }

-- The rows are numbered on from n, with no gap.
abbrev pub NumberedFrom : ℕ → List AuditLogRecord → Type 0
NumberedFrom n [] = Unit
NumberedFrom n (r ∷ rest) = (r.seq ≡ suc n) × NumberedFrom (suc n) rest

max_seq-NumberedFrom :
    (n : ℕ) (log : List AuditLogRecord) → NumberedFrom n log → max n (max_seq log) ≡ n + length log
max_seq-NumberedFrom n [] h = omega arith
max_seq-NumberedFrom n (r ∷ rest) (h, hs) = omega (arith, h, max_seq-NumberedFrom (suc n) rest hs)

NumberedFrom-last :
    (n : ℕ) (log : List AuditLogRecord) (r : AuditLogRecord)
    → NumberedFrom n log
    → r.seq ≡ suc (n + length log)
    → NumberedFrom n (log ++ r ∷ [])
NumberedFrom-last n [] r h e = (omega (arith, e), tt)
NumberedFrom-last n (x ∷ rest) r (h, hs) e =
    (h, NumberedFrom-last (suc n) rest r hs (omega (arith, e)))

-- The sequence numbers are 1, 2, 3 and so on.
abbrev pub IsNumbered : Database → Type 0
IsNumbered db = NumberedFrom 0 db.audit_log

abbrev pub KeepsNumbers : Database → Database → Type 0
KeepsNumbers a b = IsNumbered a → IsNumbered b

next_seq :
    (log : List AuditLogRecord) (r : AuditLogRecord)
    → r.seq ≡ suc (max_seq log)
    → NumberedFrom 0 log
    → NumberedFrom 0 (log ++ r ∷ [])
next_seq log r e h = NumberedFrom-last 0 log r h (omega (arith, e, max_seq-NumberedFrom 0 log h))

pub KeepsNumbers-IsKept : (p : Platform) (ctx : AuditContext) → IsKept p ctx KeepsNumbers
unfolding audit
KeepsNumbers-IsKept p ctx = record {
  stays = λ a h. h;
  joins = λ a b c f g h. g (f h);
  book = λ r. record {
    at = λ a b h.
        subst (KeepsNumbers a) (insert_book-ok p ctx a r b h).0 (next_seq a.audit_log _ refl);
  };
  account = λ r. record {
    at = λ a b h.
        subst (KeepsNumbers a) (insert_account-ok p ctx a r b h).0 (next_seq a.audit_log _ refl);
  };
  period = λ r. record {
    at = λ a b h.
        subst (KeepsNumbers a) (insert_period-ok p ctx a r b h).0 (next_seq a.audit_log _ refl);
  };
  transaction = λ r. record {
    at = λ a b h.
        subst (KeepsNumbers a) (insert_transaction-ok p ctx a r b h).0
          (next_seq a.audit_log _ refl);
  };
  entry = λ r. record {
    at = λ a b h.
        subst (KeepsNumbers a) (insert_entry-ok p ctx a r b h).0 (next_seq a.audit_log _ refl);
  };
}

pub KeepsNumbers-insert_result :
    (p : Platform) (book reference : String) (r : LegislativeValidationResult) (ctx : AuditContext)
    → Commits KeepsNumbers (insert_result p book reference r ctx)
KeepsNumbers-insert_result p book reference r ctx = record {
  at = λ a b h.
      subst (KeepsNumbers a) (insert_result-ok p book reference r ctx a b h)
        (next_seq a.audit_log _ refl);
}
