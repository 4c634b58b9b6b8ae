-- ===== src/Tests/Pools.antt =====
-- The pool with the small book: another book beside it, a refused creation, and closing and opening.
use finest_vx.Prelude.{
  Bool, ℕ, List, inl, inr, arith, str_eq_iff, String, ◌≡◌, refl, none, [], ◌∷◌, ok, err,
}
use finest_vx.Core.Errors.{Result, value_error, already_open}
use finest_vx.Persistence.Rows.{Database, initial_audit_state}
use finest_vx.Prelude.Int.{pos}
use finest_vx.Runtime.Config.{RuntimeConfig, runtime_config_for}
use finest_vx.Tests.Settings.{limits, settings, file_of, template}
use finest_vx.Runtime.MultiBook.{
  Pool, Call, append_transaction, create, open_call, close_call, write, perform, create_book,
  open_book, close_book, get_book, iter_audit_log,
}
use finest_vx.Runtime.MultiBook.Isolation.{Untouched, perform-Untouched}
use finest_vx.Runtime.MultiBook.Noninterference.{Agrees, observed, own_calls, observed_alone}
use finest_vx.Runtime.MultiBook.Refusals.{IsUnchanged, perform-IsUnchanged}
use finest_vx.Runtime.MultiBook.Reopening.{reopened_reads}
use finest_vx.Runtime.MultiBook.Sound.{IsSound, perform-IsSound}
use finest_vx.Tests.Codecs.{codec}
use finest_vx.Tests.Fixtures.{engine, platform, sale, book, context}
use finest_vx.Tests.Loads.{stored, stored-runs, stored-IsIntegral}

abbrev save : String → Bool → Database → Result (Unit {0})
save path compress db = ok tt

abbrev config_for : String → Result (RuntimeConfig ℕ)
config_for = runtime_config_for engine limits file_of settings

abbrev config : RuntimeConfig ℕ
config = record {
  persistence = record template { database_path = "booksB1" };
  queue_timeout = 5;
  poll_interval = 1;
  legislative_interpreter_pool_min_size = pos 2;
  legislative_interpreter_pool_max_size = pos 8;
}

configured : config_for "B1" ≡ ok config
unfolding runtime_config_for finest_vx.Persistence.Config.persistence_config_init
configured = refl

abbrev path_of : String → String
path_of code = code

abbrev no_books : Pool
no_books = record { files = []; runtimes = []; unregistered = [] }

-- The small book is open; another one has a file and is closed.
abbrev two_books : Pool
two_books = record {
  files = ("B1", stored.db) ∷ ("B2", stored.db) ∷ [];
  runtimes = ("B1", initial_audit_state) ∷ [];
  unregistered = [];
}

perform-Untouched_example :
    Untouched engine platform codec save config_for path_of "B2" two_books
      (perform engine platform codec save config_for path_of
        (write "B1" (append_transaction sale context))
        two_books).1
perform-Untouched_example =
    perform-Untouched engine platform codec save config_for path_of "B2" two_books
      (write "B1" (append_transaction sale context)) refl

creation-refused :
    (perform engine platform codec save config_for path_of (create book context) two_books).0
    ≡ err (value_error (already_open "B1"))
unfolding perform create_book
creation-refused = refl

perform-IsUnchanged_example :
    IsUnchanged
      (create book context)
      two_books
      (perform engine platform codec save config_for path_of (create book context) two_books).1
perform-IsUnchanged_example =
    perform-IsUnchanged engine platform codec save config_for path_of two_books
      (create book context) (value_error (already_open "B1")) creation-refused

no_books-IsSound : IsSound path_of no_books
no_books-IsSound = record { distinct = tt; has_file = λ code h. absurd (cc); good_files = tt }

perform-IsSound_example :
    IsSound path_of
      (perform engine platform codec save config_for path_of (create book context) no_books).1
perform-IsSound_example =
    perform-IsSound engine platform codec save config_for path_of no_books no_books-IsSound
      (create book context)

abbrev reopened : Pool
reopened =
    (open_book engine platform codec save config_for path_of "B1"
      (close_book engine platform codec save config_for path_of "B1" two_books).1).1

reopened_reads_example :
    (get_book engine platform codec save config_for path_of "B1" reopened
      ≡ get_book engine platform codec save config_for path_of "B1" two_books)
    × (iter_audit_log engine platform codec save config_for path_of "B1" none reopened
        ≡ iter_audit_log engine platform codec save config_for path_of "B1" none two_books)
reopened_reads_example =
    reopened_reads engine platform codec save config_for path_of "B1" "B1" config two_books
      stored.db initial_audit_state none refl configured (refl, tt) refl refl

two_books-IsSound : IsSound path_of two_books
two_books-IsSound = record {
  distinct = (refl, tt);
  has_file = λ code h. ground (arith, str_eq_iff "B1" code);
  good_files = ((stored-IsIntegral, stored-runs.2), ((stored-IsIntegral, stored-runs.2), tt));
}

-- The other book is opened and closed around a sale.
abbrev calls : List Call
calls = open_call "B2" ∷ write "B1" (append_transaction sale context) ∷ close_call "B2" ∷ []

observed_alone_example :
    Agrees engine platform codec save config_for path_of "B1"
      (observed engine platform codec save config_for path_of "B1" calls two_books)
      (observed engine platform codec save config_for path_of "B1"
        (own_calls engine platform codec save config_for path_of "B1" calls)
        two_books)
observed_alone_example =
    observed_alone engine platform codec save config_for path_of "B1" calls two_books
      two_books-IsSound (inr refl, (inl refl, (inr refl, tt)))
