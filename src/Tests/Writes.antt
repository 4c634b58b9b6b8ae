-- ===== src/Tests/Writes.antt =====
-- Commands on a store: the small book is created, a sale appended and reversed, and a command
-- refused.
use finest_vx.Prelude.{Bool, String, ◌≡◌, refl, arith, [], ◌∷◌, ok, err}
use finest_vx.Core.Errors.{Result, value_error, not_posted}
use finest_vx.Core.Types.{JournalTransaction, draft, is_posted}
use finest_vx.Persistence.Rows.{Database}
use finest_vx.Persistence.Store.{Store}
use finest_vx.Persistence.Store.Atomic.{Ends}
use finest_vx.Persistence.Store.AppendOnly.{Extends}
use finest_vx.Persistence.Store.Auditing.{Audited, IsNumbered}
use finest_vx.Persistence.Store.Parents.{IsIntegral}
use finest_vx.Persistence.Store.Writes
use finest_vx.Runtime.Commands.{Command, create_book, append_transaction, dispatch}
use finest_vx.Runtime.Ledger.{
  dispatch-Extends, dispatch_atomic, dispatch-IsIntegral, dispatch-IsNumbered,
  append_transaction-Audited,
}
use finest_vx.Runtime.WriteThread.{
  Request, Reach, start, submitted, stopped, worked, IsSequential, Reach-IsSequential, writer_loop,
  futures, writer_loop_resolves, submit, stop, started, writer_turn,
}
use finest_vx.Tests.Codecs.{codec}
use finest_vx.Tests.Fixtures.{engine, platform, book, sale, context, empty_store}

abbrev save : String → Bool → Database → Result (Unit {0})
save path compress db = ok tt

-- The store once the book is in it.
abbrev with_book : Store
with_book = (dispatch engine platform codec save (create_book book context) empty_store).1

abbrev unposted : JournalTransaction
unposted = record sale { state = draft }

abbrev append_sale : Command
append_sale = append_transaction "B1" sale context

dispatch-Extends_example :
    Extends with_book.db (dispatch engine platform codec save append_sale with_book).1.db
dispatch-Extends_example = dispatch-Extends engine platform codec save append_sale with_book

unposted-refused :
    (dispatch engine platform codec save (append_transaction "B1" unposted context) empty_store).0
    ≡ err (value_error not_posted)
unfolding dispatch Writes.append_transaction is_posted
unposted-refused = refl

dispatch_atomic_example :
    (dispatch engine platform codec save (append_transaction "B1" unposted context) empty_store).1
    ≡ empty_store
dispatch_atomic_example =
    dispatch_atomic engine platform codec save (append_transaction "B1" unposted context)
      empty_store (value_error not_posted) unposted-refused

pub empty-IsIntegral : IsIntegral empty_store.db
empty-IsIntegral = (
  record {
    accounts = tt;
    periods = tt;
    transactions = tt;
    entry_transactions = tt;
    entry_accounts = tt;
    references = tt;
    book_keys = tt;
    account_keys = tt;
    period_keys = tt;
    entry_keys = tt;
  },
  tt,
)

dispatch-IsIntegral_example : IsIntegral with_book.db
dispatch-IsIntegral_example =
    dispatch-IsIntegral engine platform codec save (create_book book context) empty_store
      empty-IsIntegral

dispatch-IsNumbered_example : IsNumbered with_book.db
dispatch-IsNumbered_example =
    dispatch-IsNumbered engine platform codec save (create_book book context) empty_store tt

append_transaction-Audited_example :
    Ends
      (Audited context)
      with_book
      (Writes.append_transaction platform codec "B1" sale context with_book)
append_transaction-Audited_example =
    append_transaction-Audited engine platform codec save "B1" sale context with_book

abbrev creation : Request
creation = record { future = 1; command = create_book book context }

abbrev append : Request
append = record { future = 2; command = append_sale }

-- Two clients submit while the thread takes the first command, then the runtime is closed.
abbrev run : Reach engine platform codec save empty_store (creation ∷ append ∷ []) (
    stop (
      submit append
        (writer_turn engine platform codec save (submit creation (started empty_store)))))
run = stopped (submitted append (worked (submitted creation start)))

Reach-IsSequential_example :
    IsSequential engine platform codec save empty_store (creation ∷ append ∷ []) (
      stop (
        submit append
          (writer_turn engine platform codec save (submit creation (started empty_store)))))
Reach-IsSequential_example = Reach-IsSequential engine platform codec save run

abbrev waiting :
    Reach engine platform codec save empty_store
      (creation ∷ append ∷ [])
      (stop (submit append (submit creation (started empty_store))))
waiting = stopped (submitted append (submitted creation start))

writer_loop_resolves_example :
    futures (
      (writer_loop engine platform codec save 3
        (stop (submit append (submit creation (started empty_store))))).resolved)
    ≡ creation ∷ append ∷ []
unfolding submit stop
writer_loop_resolves_example =
    writer_loop_resolves engine platform codec save 3 waiting refl (omega arith)
