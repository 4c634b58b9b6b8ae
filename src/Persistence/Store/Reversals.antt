-- ===== src/Persistence/Store/Reversals.antt =====
-- persistence/store.py: `append_reversal`.
use Prim.Native.String.{◌++◌ as str_append}
use finest_vx.Prelude.{
  String, Bool, false, ◌&&◌, Option, none, some, List, [], ◌∷◌, str_eq, select, first, ok, err,
  ◌>>=◌, if◌then◌else◌,
}
use finest_vx.Core.Balance.Reversal.{invert}
use finest_vx.Core.Books.{transaction_init}
use finest_vx.Core.Codec.{Codec}
use finest_vx.Core.Engine.{Engine}
use finest_vx.Core.Entities.{entry_init}
use finest_vx.Core.Errors.{
  value_error, key_error, Result, not_found, already_reversed, reference_in_use,
}
use finest_vx.Core.Serialization.Read.{transaction_from_mapping}
use finest_vx.Core.Types.{LedgerEntry, JournalTransaction, posted}
use finest_vx.Persistence.Payload.{transaction_payload, entry_rows}
use finest_vx.Persistence.Platform.{Platform}
use finest_vx.Persistence.Rows.{TransactionRow, Database, AuditContext}
use finest_vx.Persistence.Schema.{has_book, has_transaction, exists_in}
use finest_vx.Persistence.Store.{Write, execute_write, insert_transaction_rows}
use finest_vx.Persistence.Store.Writes.{after}

-- Is there a transaction of the book that reverses this reference?
abbrev pub has_reversal : Database → String → String → Bool
has_reversal db book reference =
    exists_in
      (λ r.
        str_eq r.book_code book
        && elim r.reversal_of [ none ↦ false | some o ↦ str_eq o reference ])
      db.transactions

-- `SELECT ... FROM transactions WHERE book_code = ? AND reference = ?`, the first row
abbrev pub find_transaction : Database → String → String → Option TransactionRow
find_transaction db book reference =
    first (select (λ r. str_eq r.book_code book && str_eq r.reference reference) db.transactions)

module _ (e : Engine) where
  -- `tuple(replace(entry, side=...) for entry in original_tx.entries)`: `replace` validates again.
  unfoldable pub inverted_entries : List LedgerEntry → Result (List LedgerEntry)
  inverted_entries [] = ok []
  inverted_entries (x ∷ rest) = do
    y ← entry_init e (invert x)
    ys ← inverted_entries rest
    ok (y ∷ ys)

  unfoldable pub reversal_of_transaction :
      String → String → JournalTransaction → Result JournalTransaction
  reversal_of_transaction original_ref reversal_ref t = do
    entries ← inverted_entries t.entries
    transaction_init e (record {
      reference = reversal_ref;
      posted_at = t.posted_at;
      description = str_append "Reversal of " original_ref;
      entries = entries;
      period = t.period;
      state = posted;
      reversal_of = some original_ref;
    })

module _ (e : Engine) (p : Platform) (k : Codec) where
  -- The reads of `append_reversal` and the transaction that it writes.
  unfoldable pub prepare_reversal :
      Database → String → String → String → Option TransactionRow → Result JournalTransaction
  prepare_reversal db book original_ref reversal_ref none =
      if has_book db book
      then err (value_error (not_found original_ref book))
      else err (key_error book)
  prepare_reversal db book original_ref reversal_ref (some row) =
      if has_reversal db book original_ref
      then err (value_error (already_reversed original_ref book))
      else if has_transaction db book reversal_ref
      then err (value_error (reference_in_use reversal_ref book))
      else do
        original ← transaction_from_mapping e k (
            transaction_payload (record row { reference = original_ref })
              (entry_rows db book original_ref))
        reversal_of_transaction e original_ref reversal_ref original

  unfoldable pub append_reversal : String → String → String → AuditContext → Write
  append_reversal book original_ref reversal_ref ctx s =
      after
        (prepare_reversal s.db book original_ref reversal_ref
          (find_transaction s.db book original_ref))
        (λ t. execute_write p (insert_transaction_rows p k book t) ctx) s
