-- ===== src/Runtime/Writes.antt =====
-- What every command of the write thread does to the store, for any relation that the insertions
-- keep.
use finest_vx.Prelude.{Bool, String, ◌≡◌, refl, ok, err}
use finest_vx.Core.Chart.{validate_chart_of_accounts}
use finest_vx.Core.Codec.{Codec}
use finest_vx.Core.Engine.{Engine}
use finest_vx.Core.Errors.{Result}
use finest_vx.Core.Types.{Book, JournalTransaction}
use finest_vx.Persistence.Platform.{Platform}
use finest_vx.Persistence.Rows.{Database, AuditContext}
use finest_vx.Persistence.Store.{Store, Receipt, transact, insert_transaction_rows}
use finest_vx.Persistence.Store.Writes
use finest_vx.Persistence.Store.Writes.{after, create_operation, check_accounts}
use finest_vx.Persistence.Store.Reversals.{append_reversal, prepare_reversal, find_transaction}
use finest_vx.Persistence.Store.Results
use finest_vx.Persistence.Store.Results.{LegislativeValidationResult, insert_result}
use finest_vx.Persistence.Store.Induction.{
  Commits, IsKept, insert_transaction_rows-Commits, create_operation-Commits, transact-Commits,
}
use finest_vx.Persistence.Store.Atomic.{
  append_transaction-Commits, Ends, execute_write-Ends, after-Ends,
}
use finest_vx.Runtime.Commands.{
  Command, create_book, append_transaction, append_legislative_result, create_reversal,
  create_snapshot, Reply, as_snapshot, reply_of, dispatch,
}

-- The same for the reply of a command. A snapshot leaves the store alone.
abbrev pub Settles : (Database → Database → Type 0) → Store → Result Reply × Store → Type 0
Settles R s (ok _, s') = R s.db s'.db × (s'.audit_state ≡ s.audit_state)
Settles R s (err _, s') = s' ≡ s

module _ (R : Database → Database → Type 0) (e : Engine) (p : Platform) (k : Codec)
    (s : Store) where
  reply_of-Settles : (w : Result Receipt × Store) → Ends R s w → Settles R s (reply_of w)
  reply_of-Settles (ok r, s') h = h
  reply_of-Settles (err x, s') h = h

  module _ (ctx : AuditContext) where
    create_book-Ends :
        (b : Book)
        → Commits R (transact (create_operation p k b ctx))
        → Ends R s (Writes.create_book p k b ctx s)
    unfolding Writes.create_book
    create_book-Ends b c =
        after-Ends R (validate_chart_of_accounts b.accounts) _ s
          (λ u h. execute_write-Ends R p (create_operation p k b) ctx s c)

    pub append_transaction-Ends :
        (book : String) (t : JournalTransaction)
        → IsKept p ctx R
        → Ends R s (Writes.append_transaction p k book t ctx s)
    append_transaction-Ends book t kept =
        append_transaction-Commits R p k book t ctx s
          (transact-Commits _ (insert_transaction_rows-Commits p k ctx kept book t))

    append_reversal-Ends :
        (book original_ref reversal_ref : String)
        → ((t : JournalTransaction) → Commits R (transact (insert_transaction_rows p k book t ctx)))
        → Ends R s (append_reversal e p k book original_ref reversal_ref ctx s)
    unfolding append_reversal
    append_reversal-Ends book original_ref reversal_ref c =
        after-Ends R
          (prepare_reversal e p k s.db book original_ref reversal_ref
            (find_transaction s.db book original_ref))
          _ s (λ t h. execute_write-Ends R p (insert_transaction_rows p k book t) ctx s (c t))

  append_legislative_result-Ends :
      (book reference : String) (r : LegislativeValidationResult) (ctx : AuditContext)
      → Commits R (transact (insert_result p book reference r ctx))
      → Ends R s (Results.append_legislative_result p book reference r ctx s)
  unfolding Results.append_legislative_result
  append_legislative_result-Ends book reference r ctx c =
      execute_write-Ends R p (λ _. insert_result p book reference r ctx) ctx s c

  -- What a command writes, in a transaction that keeps the relation.
  abbrev pub Transacts : Type 0
  Transacts =
      ((b : Book) (ctx : AuditContext) → Commits R (transact (create_operation p k b ctx)))
      × ((book : String) (t : JournalTransaction) (ctx : AuditContext)
          → Commits R (transact (insert_transaction_rows p k book t ctx)))
      × ((book reference : String) (r : LegislativeValidationResult) (ctx : AuditContext)
          → Commits R (transact (insert_result p book reference r ctx)))

  -- Every command leaves the store as it was and replies with the error, or commits databases in
  -- the relation and replies with a receipt; the audit state is as before either way.
  pub dispatch-Transacts :
      (save : String → Bool → Database → Result (Unit {0})) (c : Command)
      → Transacts
      → ((db : Database) → R db db)
      → Settles R s (dispatch e p k save c s)
  unfolding dispatch
  dispatch-Transacts save (create_book b ctx) (created, appended, recorded) stays =
      reply_of-Settles _ (create_book-Ends ctx b (created b ctx))
  dispatch-Transacts save (append_transaction book t ctx) (created, appended, recorded) stays =
      reply_of-Settles _ (append_transaction-Commits R p k book t ctx s (appended book t ctx))
  dispatch-Transacts save (append_legislative_result book reference r ctx)
        (created, appended, recorded) stays =
      reply_of-Settles _
        (append_legislative_result-Ends book reference r ctx (recorded book reference r ctx))
  dispatch-Transacts save (create_reversal book original_ref reversal_ref ctx)
        (created, appended, recorded) stays =
      reply_of-Settles _
        (append_reversal-Ends ctx book original_ref reversal_ref (λ t. appended book t ctx))
  dispatch-Transacts save (create_snapshot path compress) h stays = settle (save path compress s.db)
    where
      settle : (r : Result (Unit {0})) → Settles R s (as_snapshot r, s)
      settle (ok u) = (stays s.db, refl)
      settle (err x) = refl

  -- So it does for a relation that every insertion keeps.
  pub dispatch-Settles :
      (save : String → Bool → Database → Result (Unit {0})) (c : Command)
      → ((ctx : AuditContext) → IsKept p ctx R)
      → ((book reference : String) (r : LegislativeValidationResult) (ctx : AuditContext)
          → Commits R (insert_result p book reference r ctx))
      → ((db : Database) → R db db)
      → Settles R s (dispatch e p k save c s)
  dispatch-Settles save c kept result stays =
      dispatch-Transacts save c
        (
          λ b ctx. transact-Commits _ (create_operation-Commits p k ctx (kept ctx) b),
          λ book t ctx.
              transact-Commits _ (insert_transaction_rows-Commits p k ctx (kept ctx) book t),
          λ book reference r ctx. transact-Commits _ (result book reference r ctx),
        )
        stays
