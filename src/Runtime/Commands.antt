-- ===== src/Runtime/Commands.antt =====
-- runtime/service.py: the queued commands and what `_dispatch_command` does with one. A raised
-- exception becomes the result of the command's future, so it is a value here.
use finest_vx.Prelude.{Bool, String, ok, err}
use finest_vx.Core.Codec.{Codec}
use finest_vx.Core.Engine.{Engine}
use finest_vx.Core.Errors.{Result}
use finest_vx.Core.Types.{Book, JournalTransaction}
use finest_vx.Persistence.Platform.{Platform}
use finest_vx.Persistence.Rows.{Database, AuditContext}
use finest_vx.Persistence.Store.{Store, Receipt}
use finest_vx.Persistence.Store.Writes
use finest_vx.Persistence.Store.Reversals
use finest_vx.Persistence.Store.Results
use finest_vx.Persistence.Store.Results.{LegislativeValidationResult}

pub data Command : Type 0 where
  create_book : Book → AuditContext → Command
  append_transaction : String → JournalTransaction → AuditContext → Command
  append_legislative_result : String → String → LegislativeValidationResult → AuditContext → Command
  create_reversal : String → String → String → AuditContext → Command
  create_snapshot : String → Bool → Command

-- What a future is resolved with.
pub data Reply : Type 0 where
  receipt : Receipt → Reply
  snapshot : Reply

abbrev pub as_receipt : Result Receipt → Result Reply
as_receipt (ok r) = ok (receipt r)
as_receipt (err x) = err x

abbrev pub as_snapshot : Result (Unit {0}) → Result Reply
as_snapshot (ok _) = ok snapshot
as_snapshot (err x) = err x

abbrev pub reply_of : Result Receipt × Store → Result Reply × Store
reply_of (r, s) = (as_receipt r, s)

-- A snapshot writes its destination and, when it compresses, replaces and removes the destination with
-- the suffix `.sqlite3` before. Both are files beside the database, whose own file the model takes to be
-- neither of them; `save` says how writing them ends.
module _ (e : Engine) (p : Platform) (k : Codec)
    (save : String → Bool → Database → Result (Unit {0})) where
  unfoldable pub dispatch : Command → Store → Result Reply × Store
  dispatch (create_book b ctx) s = reply_of (Writes.create_book p k b ctx s)
  dispatch (append_transaction book t ctx) s = reply_of (Writes.append_transaction p k book t ctx s)
  dispatch (append_legislative_result book reference r ctx) s =
      reply_of (Results.append_legislative_result p book reference r ctx s)
  dispatch (create_reversal book original_ref reversal_ref ctx) s =
      reply_of (Reversals.append_reversal e p k book original_ref reversal_ref ctx s)
  dispatch (create_snapshot path compress) s = (as_snapshot (save path compress s.db), s)
