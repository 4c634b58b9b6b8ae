-- ===== src/Gateway.antt =====
-- gateway/service.py `FinestVXService`: posting, reversing and validating over one ledger store. An
-- operation maps the store to its result and the store that it leaves. Localization, caches, read
-- replicas and debug snapshots are calls of other libraries and are not modelled.
pub mod Posting
pub mod Reports
use finest_vx.Prelude.{
  String, List, [], ◌∷◌, ◌++◌, str_eq, Option, none, some, first, ok, err, ◌>>=◌ as ◌>>>=◌,
  if◌then◌else◌,
}
use Prim.Native.String.{◌++◌ as str_append}
use finest_vx.Core.Codec.{Codec}
use finest_vx.Core.Engine.{Engine}
use finest_vx.Core.Errors.{Error, Result, stop_iteration}
use finest_vx.Core.Types.{Book, JournalTransaction}
use finest_vx.Legislation.Registry.{resolve}
use finest_vx.Legislation.Subinterpreters.{Packs, validate}
use finest_vx.Persistence.Load.{load_book}
use finest_vx.Persistence.Platform.{Platform}
use finest_vx.Persistence.Rows.{AuditContext}
use finest_vx.Persistence.Store.{Store, Receipt, Write}
use finest_vx.Persistence.Store.Writes
use finest_vx.Persistence.Store.Reversals.{append_reversal}
use finest_vx.Persistence.Store.Results
use finest_vx.Persistence.Store.Results.{LegislativeValidationResult}
use finest_vx.Validation
use finest_vx.Validation.{ValidationReport, report_from_legislative_result}

pub record PostedTransactionResult : Type 0 where
  pub ledger_write : Receipt
  pub legislative_result : LegislativeValidationResult
  pub legislative_write : Receipt

abbrev pub Operation : Type 0 → Type 0
Operation A = Store → Result A × Store

-- The next step runs in the store that the first one left; an exception ends the operation there.
infixl 5 ◌>>=◌
abbrev pub continue : {A B : Type 0} → (A → Operation B) → Result A × Store → Result B × Store
continue next (ok a, s) = next a s
continue next (err x, s) = (err x, s)

abbrev pub ◌>>=◌ : {A B : Type 0} → Operation A → (A → Operation B) → Operation B
step >>= next = λ s. continue next (step s)

-- A step that leaves the store alone.
abbrev pub pure : {A : Type 0} → Result A → Operation A
pure r s = (r, s)

-- `f"{audit_context.reason}:legislative-validation"`
abbrev pub legislative_reason : AuditContext → String
legislative_reason ctx = str_append ctx.reason ":legislative-validation"

module _ (e : Engine) where
  -- AuditContext
  unfoldable pub audit_context_init : AuditContext → Result AuditContext
  audit_context_init ctx = e.require_non_empty_str ctx.actor >>>= λ actor.
      e.require_non_empty_str ctx.reason >>>= λ reason.
      ok (record ctx { actor = actor; reason = reason })

  -- `next(tx for tx in book.transactions if tx.reference == reversal_ref)`
  unfoldable pub find_posted : List JournalTransaction → String → Result JournalTransaction
  find_posted [] reference = err stop_iteration
  find_posted (t ∷ rest) reference =
      if str_eq t.reference reference then ok t else find_posted rest reference

module _ (e : Engine) (p : Platform) (k : Codec) (remote_error : Error → Error) where
  unfoldable pub get_book : String → Operation Book
  get_book code s = (load_book e p k s.db code, s)

  -- The legislative half of posting: the transaction is validated in the stored book and its result
  -- written under a context of its own.
  unfoldable pub record_result :
      String
      → String
      → JournalTransaction
      → AuditContext
      → Receipt
      → Book
      → Operation PostedTransactionResult
  unfolding audit_context_init
  record_result code reference t ctx ledger_write b = do
    result ← pure (validate e remote_error b.legislative_pack b t)
    context ← pure (audit_context_init e (record ctx { reason = legislative_reason ctx }))
    receipt ← Results.append_legislative_result p code reference result context
    pure (
        ok (record {
          ledger_write = ledger_write;
          legislative_result = result;
          legislative_write = receipt;
        }))

  unfoldable pub post_transaction :
      String → JournalTransaction → AuditContext → Operation PostedTransactionResult
  unfolding record_result
  post_transaction code t ctx = do
    ledger_write ← Writes.append_transaction p k code t ctx
    b ← get_book code
    record_result code t.reference t ctx ledger_write b

  unfoldable pub post_reversal :
      String → String → String → AuditContext → Operation PostedTransactionResult
  unfolding record_result find_posted
  post_reversal code original_ref reversal_ref ctx = do
    ledger_write ← append_reversal e p k code original_ref reversal_ref ctx
    b ← get_book code
    t ← pure (find_posted e b.transactions reversal_ref)
    record_result code reversal_ref t ctx ledger_write b

  -- `validate_legislative_transaction` of validation/service.py
  unfoldable pub validate_legislative_transaction :
      Packs → Book → JournalTransaction → Result ValidationReport
  validate_legislative_transaction packs b t =
      resolve e packs b.legislative_pack >>>= λ pack. ok (report_from_legislative_result (pack b t))

  unfoldable pub validate_transaction :
      Packs → String → JournalTransaction → Store → Result ValidationReport
  unfolding validate_legislative_transaction
  validate_transaction packs code t s = load_book e p k s.db code >>>= λ b.
      validate_legislative_transaction packs b t >>>= λ legislative.
      ok (Validation.validate_transaction b t ++ legislative)

  unfoldable pub validate_transaction_isolated :
      String → JournalTransaction → Store → Result ValidationReport
  validate_transaction_isolated code t s = load_book e p k s.db code >>>= λ b.
      validate e remote_error b.legislative_pack b t >>>= λ r.
      ok (Validation.validate_transaction b t ++ report_from_legislative_result r)
