-- ===== src/Persistence/Store/Atomic.antt =====
-- How one write ends: committed, or refused with the store as it was.
use finest_vx.Prelude.{String, ◌≡◌, refl, ok, err, inl, inr, Bool-cases}
use finest_vx.Core.Errors.{Result}
use finest_vx.Persistence.Platform.{Platform}
use finest_vx.Persistence.Rows.{Database, AuditContext}
use finest_vx.Persistence.Store.{
  Store, Write, Receipt, transact, finish, execute_write, insert_transaction_rows,
}
use finest_vx.Persistence.Store.Writes.{after, append_transaction, check_accounts}
use finest_vx.Core.Balance.{validate_transaction_balance}
use finest_vx.Core.Codec.{Codec}
use finest_vx.Core.Types.{JournalTransaction, is_posted}
use finest_vx.Persistence.Store.Induction.{Commits}

-- A relation of a write's result to the states around it: refused and unchanged, or committed with
-- the databases related and the audit state as before.
abbrev pub Ends : (Database → Database → Type 0) → Store → Result Receipt × Store → Type 0
Ends R s (ok _, s') = R s.db s'.db × (s'.audit_state ≡ s.audit_state)
Ends R s (err _, s') = s' ≡ s

module _ (R : Database → Database → Type 0) where
  finish-Ends :
      (p : Platform) (ctx : AuditContext) (s : Store) (r : Result Database)
      → ((db : Database) → r ≡ ok db → R s.db db)
      → Ends R s (finish p s.audit_state (record s { audit_state = ctx }) r)
  unfolding finish
  finish-Ends p ctx s (ok db) h = (h db refl, refl)
  finish-Ends p ctx s (err x) h = refl

  pub execute_write-Ends :
      (p : Platform) (operation : AuditContext → Database → Result Database) (ctx : AuditContext)
      (s : Store)
      → Commits R (transact (operation ctx))
      → Ends R s (execute_write p operation ctx s)
  unfolding execute_write
  execute_write-Ends p operation ctx s c =
      finish-Ends p ctx s (transact (operation ctx) s.db) (λ db h. c.at s.db db h)

  pub after-Ends :
      {A : Type 0} (r : Result A) (f : A → Write) (s : Store)
      → ((a : A) → r ≡ ok a → Ends R s (f a s))
      → Ends R s (after r f s)
  after-Ends (ok a) f s h = h a refl
  after-Ends (err x) f s h = refl

  -- An append does what its rows do, or is refused before them.
  pub append_transaction-Commits :
      (p : Platform) (k : Codec) (book : String) (t : JournalTransaction) (ctx : AuditContext)
      (s : Store)
      → Commits R (transact (insert_transaction_rows p k book t ctx))
      → Ends R s (append_transaction p k book t ctx s)
  unfolding append_transaction
  append_transaction-Commits p k book t ctx s c = elim (Bool-cases (is_posted t.state)) [
    | inl is ↦ rw is (
        after-Ends (validate_transaction_balance t) _ s (λ u h.
          after-Ends (check_accounts p k s.db book t) _ s
            (λ v h'. execute_write-Ends p (insert_transaction_rows p k book t) ctx s c)))
    | inr other ↦ rw other refl
  ]
