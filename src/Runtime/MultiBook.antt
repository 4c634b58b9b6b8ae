-- ===== src/Runtime/MultiBook.antt =====
-- runtime/multi_book.py `MultiBookRuntime`: a pool of runtimes, each with the SQLite file of its book.
-- A file is its committed database under its path; a runtime is the audit state of its store. The
-- clients of one book are serialised by its write thread, so a command is dispatched at once. Lock
-- timeouts, snapshots of the counters and the listing of the data directory are not modelled; nor is
-- `create_snapshot` of the pool, which may overwrite and remove any file.
pub mod Isolation
pub mod Refusals
pub mod Sound
pub mod Reopening
pub mod Noninterference
use finest_vx.Prelude.{
  ℕ, String, Bool, true, false, Option, none, some, List, [], ◌∷◌, ◌++◌, contains, ok, err, ◌>>=◌,
  order_by, if◌then◌else◌,
}
use finest_vx.Prelude.Dict.{keys, get, put, pop}
use finest_vx.Core.Codec.{Codec}
use finest_vx.Core.Engine.{Engine}
use finest_vx.Core.Errors.{Error, value_error, key_error, Result, already_open}
use finest_vx.Core.Types.{Book, JournalTransaction}
use finest_vx.Persistence.AuditLog.{iter_audit_log as read_audit_log, pages}
use finest_vx.Persistence.Load.{load_book}
use finest_vx.Persistence.Platform.{Platform}
use finest_vx.Persistence.Rows.{
  Database, AuditContext, AuditLogRecord, empty_database, initial_audit_state,
}
use finest_vx.Persistence.Store.{Store}
use finest_vx.Persistence.Store.Results.{LegislativeValidationResult}
use finest_vx.Runtime.Commands
use finest_vx.Runtime.Commands.{Command, Reply, dispatch}
use finest_vx.Runtime.Config.{RuntimeConfig}

pub record Pool : Type 0 where
  pub files : List (String × Database)
  pub runtimes : List (String × AuditContext)
  -- with_config, but neither registered nor closed: their threads and connections stay
  pub unregistered : List String

-- The file as SQLite opens it: an absent one is created with the schema and no rows.
abbrev pub installed : Option Database → Database
installed none = empty_database
installed (some db) = db

-- append_transaction, create_reversal and append_legislative_result, without the book
pub data BookWrite : Type 0 where
  append_transaction : JournalTransaction → AuditContext → BookWrite
  create_reversal : String → String → AuditContext → BookWrite
  append_legislative_result : String → LegislativeValidationResult → AuditContext → BookWrite

-- The command that the runtime of the book is given: the code is passed on to it.
abbrev pub command_of : String → BookWrite → Command
command_of code (append_transaction t ctx) = Commands.append_transaction code t ctx
command_of code (create_reversal original_ref reversal_ref ctx) =
    Commands.create_reversal code original_ref reversal_ref ctx
command_of code (append_legislative_result reference r ctx) =
    Commands.append_legislative_result code reference r ctx

-- What a client may call.
pub data Call : Type 0 where
  create : Book → AuditContext → Call
  open_call close_call : String → Call
  write : String → BookWrite → Call

-- What a call returns: a reply of the write thread, or None.
pub data Answer : Type 0 where
  replied : Reply → Answer
  done : Answer

abbrev pub answered : Result Reply → Result Answer
answered (ok r) = ok (replied r)
answered (err x) = err x

-- `sorted(self._runtimes)`
unfoldable pub list_book_codes : Platform → Pool → List String
list_book_codes p pool = order_by p.text_le (keys pool.runtimes)

-- `close`
unfoldable pub close : Pool → Pool
close pool = record pool { runtimes = [] }

-- The path of a book's file is `data_directory / f"{book_code}.sqlite3"`, as the file system takes it.
-- `config_for` is `_runtime_config_for`, the function of Runtime/Config at the pool's configuration.
module _ {Seconds : Type 0} (e : Engine) (p : Platform) (k : Codec)
    (save : String → Bool → Database → Result (Unit {0}))
    (config_for : String → Result (RuntimeConfig Seconds)) (db_path : String → String) where
  -- The store of a runtime on the book's file.
  abbrev pub runtime_store : Pool → String → AuditContext → Store
  runtime_store pool code state = record {
    db = installed (get pool.files (db_path code));
    audit_state = state;
  }

  abbrev pub found_runtime : Pool → String → Option AuditContext → Result Store
  found_runtime pool code none = err (key_error code)
  found_runtime pool code (some state) = ok (runtime_store pool code state)

  unfoldable pub require_runtime : String → Pool → Result Store
  require_runtime code pool = found_runtime pool code (get pool.runtimes code)

  abbrev pub with_file : String → Database → Pool → Pool
  with_file code db pool = record pool { files = put (db_path code) db pool.files }

  abbrev pub with_runtime : String → AuditContext → Pool → Pool
  with_runtime code state pool = record pool { runtimes = put code state pool.runtimes }

  -- The pool after a runtime that is in it has worked.
  abbrev pub settled_pool : String → Pool → Result Reply × Store → Result Answer × Pool
  settled_pool code pool (r, s) =
      (answered r, with_runtime code s.audit_state (with_file code s.db pool))

  abbrev pub routed : String → Command → Pool → Result Store → Result Answer × Pool
  routed code c pool (err x) = (err x, pool)
  routed code c pool (ok s) = settled_pool code pool (dispatch e p k save c s)

  -- append_transaction, create_reversal and append_legislative_result
  unfoldable pub route : String → Command → Pool → Result Answer × Pool
  unfolding require_runtime
  route code c pool = routed code c pool (require_runtime code pool)

  -- `self._runtimes[book_code] = runtime`, which an exception of the write skips.
  abbrev pub registered : String → Pool → Result Reply × Store → Result Answer × Pool
  registered code pool (ok r, s) =
      (ok (replied r), with_runtime code s.audit_state (with_file code s.db pool))
  registered code pool (err x, s) =
      (err x, record (with_file code s.db pool) { unregistered = code ∷ pool.unregistered })

  -- A runtime is started with its configuration, or refused before it has a file.
  abbrev pub with_config :
      Result (RuntimeConfig Seconds) → Pool → Result Answer × Pool → Result Answer × Pool
  with_config (err x) pool running = (err x, pool)
  with_config (ok config) pool running = running

  unfoldable pub create_book : Book → AuditContext → Pool → Result Answer × Pool
  create_book b ctx pool =
      if contains (keys pool.runtimes) b.code
      then (err (value_error (already_open b.code)), pool)
      else with_config (config_for b.code) pool (
          registered b.code pool (
            dispatch e p k save (Commands.create_book b ctx)
              (runtime_store pool b.code initial_audit_state)))

  abbrev pub opened : String → Pool → Option Database → Result Answer × Pool
  opened code pool none = (err (key_error code), pool)
  opened code pool (some db) =
      with_config (config_for code) pool (ok done, with_runtime code initial_audit_state pool)

  -- The text that `require_non_empty_str` returns is not used.
  abbrev pub unless_blank : Result String → Pool → Result Answer × Pool → Result Answer × Pool
  unless_blank (err x) pool otherwise = (err x, pool)
  unless_blank (ok _) pool otherwise = otherwise

  unfoldable pub open_book : String → Pool → Result Answer × Pool
  open_book code pool = unless_blank (e.require_non_empty_str code) pool (
      if contains (keys pool.runtimes) code
      then (ok done, pool)
      else opened code pool (get pool.files (db_path code)))

  unfoldable pub close_book : String → Pool → Result Answer × Pool
  close_book code pool =
      unless_blank (e.require_non_empty_str code) pool
        (ok done, record pool { runtimes = pop code pool.runtimes })

  unfoldable pub perform : Call → Pool → Result Answer × Pool
  unfolding create_book open_book close_book route
  perform (create b ctx) = create_book b ctx
  perform (open_call code) = open_book code
  perform (close_call code) = close_book code
  perform (write code w) = route code (command_of code w)

  unfoldable pub get_book : String → Pool → Result Book
  unfolding require_runtime
  get_book code pool = do s ← require_runtime code pool; load_book e p k s.db code

  unfoldable pub iter_audit_log : String → Option ℕ → Pool → Result (List AuditLogRecord)
  unfolding require_runtime
  iter_audit_log code limit pool = do
    s ← require_runtime code pool
    ok (read_audit_log s.db.audit_log limit)

  -- The pages, with the fuel of the loop.
  unfoldable pub iter_audit_log_pages :
      ℕ → String → ℕ → ℕ → Pool → Result (List (List AuditLogRecord))
  unfolding require_runtime
  iter_audit_log_pages fuel code page_size start_seq pool = do
    s ← require_runtime code pool
    ok (pages fuel s.db.audit_log page_size start_seq)
