-- ===== src/Runtime/Ledger.antt =====
-- What the write thread guarantees for every command that it can be sent.
use finest_vx.Prelude.{Bool, String, ◌≡◌, sym, subst, ok, err}
use finest_vx.Core.Codec.{Codec}
use finest_vx.Core.Engine.{Engine}
use finest_vx.Core.Errors.{Error, Result}
use finest_vx.Core.Types.{JournalTransaction}
use finest_vx.Persistence.Platform.{Platform}
use finest_vx.Persistence.Rows.{Database, AuditContext}
use finest_vx.Persistence.Store.{Store}
use finest_vx.Persistence.Store.Atomic.{Ends}
use finest_vx.Persistence.Store.AppendOnly.{
  Extends, Extends-refl, Extends-IsKept, Extends-insert_result,
}
use finest_vx.Persistence.Store.Auditing.{
  Audited, Audited-IsKept, IsNumbered, KeepsNumbers, KeepsNumbers-IsKept,
  KeepsNumbers-insert_result,
}
use finest_vx.Persistence.Store.Integrity.{
  HasKeys, KeepsKeys, KeepsKeys-IsKept, KeepsKeys-insert_result,
}
use finest_vx.Persistence.Store.Parents.{IsIntegral, KeepsParents, transact-KeepsParents}
use finest_vx.Persistence.Store.Writes
use finest_vx.Runtime.Commands.{Command, Reply, dispatch}
use finest_vx.Runtime.Writes.{
  Settles, dispatch-Settles, dispatch-Transacts, append_transaction-Ends,
}

module _ (R : Database → Database → Type 0) (s : Store) where
  -- A relation that no change satisfies holds after a refused command too.
  settled : (w : Result Reply × Store) → ((db : Database) → R db db) → Settles R s w → R s.db w.1.db
  settled (ok r, s') stays h = h.0
  settled (err x, s') stays h = subst (λ (z : Store). R s.db z.db) (sym h) (stays s.db)

module _ (e : Engine) (p : Platform) (k : Codec)
    (save : String → Bool → Database → Result (Unit {0})) where
  abbrev after_command : Command → Store → Store
  after_command c s = (dispatch e p k save c s).1

  -- No command removes or changes a row of any table: the rows before it are a prefix of the rows
  -- after it.
  pub dispatch-Extends : (c : Command) (s : Store) → Extends s.db (dispatch e p k save c s).1.db
  dispatch-Extends c s = settled Extends s (dispatch e p k save c s) Extends-refl (
      dispatch-Settles Extends e p k s save c (Extends-IsKept p)
        (λ book reference r ctx. Extends-insert_result p ctx book reference r) Extends-refl)

  -- A command that is refused leaves database and audit state as they were.
  pub dispatch_atomic :
      (c : Command) (s : Store) (x : Error)
      → (dispatch e p k save c s).0 ≡ err x
      → (dispatch e p k save c s).1 ≡ s
  dispatch_atomic c s x h =
      refused (dispatch e p k save c s)
        (dispatch-Settles Extends e p k s save c (Extends-IsKept p)
          (λ book reference r ctx. Extends-insert_result p ctx book reference r) Extends-refl)
        h
    where
      refused : (w : Result Reply × Store) → Settles Extends s w → w.0 ≡ err x → w.1 ≡ s
      refused (ok r, s') h k = absurd (cc)
      refused (err y, s') h k = h

  dispatch-HasKeys :
      (c : Command) (s : Store) → HasKeys s.db → HasKeys (dispatch e p k save c s).1.db
  dispatch-HasKeys c s =
      settled KeepsKeys s (dispatch e p k save c s) (λ db h. h)
        (dispatch-Settles KeepsKeys e p k s save c (KeepsKeys-IsKept p) (KeepsKeys-insert_result p)
          (λ db h. h))

  -- Every command keeps it that the primary keys of books, accounts, periods, transactions and entries
  -- are unique, and that their references, that of an account to its parent included, are to rows that
  -- exist.
  pub dispatch-IsIntegral :
      (c : Command) (s : Store) → IsIntegral s.db → IsIntegral (dispatch e p k save c s).1.db
  dispatch-IsIntegral c s (keys, parents) = (
    dispatch-HasKeys c s keys,
    settled KeepsParents s (dispatch e p k save c s) (λ db h. h)
        (dispatch-Transacts KeepsParents e p k s save c
          (
            λ b ctx. transact-KeepsParents _,
            λ book t ctx. transact-KeepsParents _,
            λ book reference r ctx. transact-KeepsParents _,
          )
          (λ db h. h))
        parents,
  )

  -- Every command keeps it that the audit log is numbered 1, 2, 3 and so on.
  pub dispatch-IsNumbered :
      (c : Command) (s : Store) → IsNumbered s.db → IsNumbered (dispatch e p k save c s).1.db
  dispatch-IsNumbered c s =
      settled KeepsNumbers s (dispatch e p k save c s) (λ db h. h)
        (dispatch-Settles KeepsNumbers e p k s save c (KeepsNumbers-IsKept p)
          (KeepsNumbers-insert_result p) (λ db h. h))

  -- A committed append has one audit row in the name of its context for each row that it wrote, and
  -- a refused one has changed nothing.
  pub append_transaction-Audited :
      (book : String) (t : JournalTransaction) (ctx : AuditContext) (s : Store)
      → Ends (Audited ctx) s (Writes.append_transaction p k book t ctx s)
  append_transaction-Audited book t ctx s =
      append_transaction-Ends (Audited ctx) e p k s ctx book t (Audited-IsKept ctx p)
