-- ===== src/Gateway/Posting.antt =====
-- What a posting leaves: the ledger write and its legislative row, the ledger write alone, or nothing.
use finest_vx.Prelude.{String, ◌≡◌, refl, ok, err, Outcome-cases, inl, inr, sym}
use finest_vx.Core.Codec.{Codec}
use finest_vx.Core.Engine.{Engine}
use finest_vx.Core.Errors.{Error, Result}
use finest_vx.Core.Types.{Book, JournalTransaction}
use finest_vx.Legislation.Subinterpreters.{validate}
use finest_vx.Persistence.Load.{load_book}
use finest_vx.Persistence.Platform.{Platform}
use finest_vx.Persistence.Rows.{AuditContext}
use finest_vx.Persistence.Store.{Store, Receipt}
use finest_vx.Persistence.Store.Induction.{transact-Commits}
use finest_vx.Persistence.Store.Atomic.{Ends, execute_write-Ends}
use finest_vx.Persistence.Store.Reversals.{append_reversal}
use finest_vx.Persistence.Store.Results
use finest_vx.Persistence.Store.Results.{
  LegislativeValidationResult, with_result, insert_result, insert_result-ok,
}
use finest_vx.Persistence.Store.Writes
use finest_vx.Gateway.{
  PostedTransactionResult, Operation, continue, pure, legislative_reason, audit_context_init,
  find_posted, get_book, record_result, post_transaction, post_reversal,
}

module _ (e : Engine) (p : Platform) (k : Codec) (remote_error : Error → Error) (code : String)
    (ctx : AuditContext) where
  -- An error leaves the committed ledger write; a result carries its receipt, and its row of the audit
  -- log, under the context of the validation, is all that was added.
  abbrev pub Records : String → Receipt → Store → Result PostedTransactionResult × Store → Type 0
  Records reference ledger_write s (err x, s') = s' ≡ s
  Records reference ledger_write s (ok posted, s') =
      (posted.ledger_write ≡ ledger_write)
      × (context : AuditContext) × (audit_context_init e
            (record ctx { reason = legislative_reason ctx })
          ≡ ok context)
      × (s'.db ≡ with_result p code reference posted.legislative_result context s.db)

  -- A refused ledger write is all that happened.
  abbrev pub Posts :
      String → Result Receipt × Store → Result PostedTransactionResult × Store → Type 0
  Posts reference (err x, s') w = w ≡ (err x, s')
  Posts reference (ok receipt, s') w = Records reference receipt s' w

  module _ (reference : String) (ledger_write : Receipt) (s : Store) where
    written-Records :
        (r : LegislativeValidationResult) (context : AuditContext) (w : Result Receipt × Store)
        → audit_context_init e (record ctx { reason = legislative_reason ctx }) ≡ ok context
        → Ends (λ a b. b ≡ with_result p code reference r context a) s w
        → Records reference ledger_write s (
            continue
              (λ receipt. pure (
                ok (record {
                  ledger_write = ledger_write;
                  legislative_result = r;
                  legislative_write = receipt;
                })))
              w)
    written-Records r context (ok receipt, s') valid (written, same) =
        (refl, context, valid, written)
    written-Records r context (err x, s') valid h = h

    result-Ends :
        (r : LegislativeValidationResult) (context : AuditContext)
        → Ends
            (λ a b. b ≡ with_result p code reference r context a)
            s
            (Results.append_legislative_result p code reference r context s)
    unfolding Results.append_legislative_result
    result-Ends r context =
        execute_write-Ends _ p (λ _. insert_result p code reference r context) context s
          (transact-Commits _ (record {
            at = λ db db' h. sym (insert_result-ok p code reference r context db db' h);
          }))

    record_result-Records :
        (t : JournalTransaction) (b : Book)
        → Records reference ledger_write s
            (record_result e p k remote_error code reference t ctx ledger_write b s)
    unfolding record_result
    record_result-Records t b =
        elim (Outcome-cases (validate e remote_error b.legislative_pack b t)) [
          | inr (x, refused) ↦ rw refused refl
          | inl (r, validated) ↦
              elim (Outcome-cases
                (audit_context_init e (record ctx { reason = legislative_reason ctx }))) [
                  | inr (x, refused) ↦ rw (validated, refused) refl
                  | inl (context, valid) ↦
                      rw (validated, valid)
                        (written-Records r context _ valid (result-Ends r context))
                ]
        ]

  -- A refused ledger write is the whole outcome. After a committed one the transaction stays: the
  -- posting adds the row of the result that it returns, or raises an error and adds nothing.
  pub post_transaction-Posts :
      (t : JournalTransaction) (s : Store)
      → Posts t.reference
          (Writes.append_transaction p k code t ctx s)
          (post_transaction e p k remote_error code t ctx s)
  unfolding post_transaction get_book
  post_transaction-Posts t s = posted (Writes.append_transaction p k code t ctx s)
    where
      posted :
          (w : Result Receipt × Store)
          → Posts t.reference w (
              continue
                (λ receipt s'.
                  continue
                    (record_result e p k remote_error code t.reference t ctx receipt)
                    (load_book e p k s'.db code, s'))
                w)
      posted (err x, s') = refl
      posted (ok receipt, s') = elim (Outcome-cases (load_book e p k s'.db code)) [
        | inr (x, refused) ↦ rw refused refl
        | inl (b, loaded) ↦ rw loaded (record_result-Records t.reference receipt s' t b)
      ]

  -- The same of a reversal, which is looked up in the stored book.
  pub post_reversal-Posts :
      (original_ref reversal_ref : String) (s : Store)
      → Posts reversal_ref
          (append_reversal e p k code original_ref reversal_ref ctx s)
          (post_reversal e p k remote_error code original_ref reversal_ref ctx s)
  unfolding post_reversal get_book
  post_reversal-Posts original_ref reversal_ref s =
      posted (append_reversal e p k code original_ref reversal_ref ctx s)
    where
      onward : Receipt → Book → Operation PostedTransactionResult
      onward receipt b s' =
          continue (λ t. record_result e p k remote_error code reversal_ref t ctx receipt b)
            (find_posted e b.transactions reversal_ref, s')

      posted :
          (w : Result Receipt × Store)
          → Posts reversal_ref w (
              continue (λ receipt s'. continue (onward receipt) (load_book e p k s'.db code, s')) w)
      posted (err x, s') = refl
      posted (ok receipt, s') = elim (Outcome-cases (load_book e p k s'.db code)) [
        | inr (x, refused) ↦ rw refused refl
        | inl (b, loaded) ↦ elim (Outcome-cases (find_posted e b.transactions reversal_ref)) [
          | inr (x, absent) ↦ rw (loaded, absent) refl
          | inl (t, found) ↦ rw (loaded, found) (record_result-Records reversal_ref receipt s' t b)
        ]
      ]
