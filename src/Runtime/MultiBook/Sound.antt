-- ===== src/Runtime/MultiBook/Sound.antt =====
-- The invariant of the pool.
use finest_vx.Prelude.{
  Bool, String, ◌≡◌, refl, true, Option, none, some, inl, inr, arith, ok, err, contains, Bool-cases,
  Distinct, str_eq_iff,
}
use finest_vx.Prelude.Dict.{
  keys, get, put, pop, keys-put, keys-pop, Distinct-put, Distinct-pop, get-keys, Values, Values-put,
  get-Values,
}
use finest_vx.Core.Codec.{Codec}
use finest_vx.Core.Engine.{Engine}
use finest_vx.Core.Errors.{Result}
use finest_vx.Persistence.Platform.{Platform}
use finest_vx.Persistence.Rows.{Database, AuditContext, empty_database, initial_audit_state}
use finest_vx.Persistence.Store.{Store}
use finest_vx.Persistence.Store.Auditing.{IsNumbered}
use finest_vx.Persistence.Store.Parents.{IsIntegral}
use finest_vx.Runtime.Commands
use finest_vx.Runtime.Commands.{Command, Reply, dispatch}
use finest_vx.Runtime.Ledger.{dispatch-IsIntegral, dispatch-IsNumbered}
use finest_vx.Runtime.Config.{RuntimeConfig}
use finest_vx.Runtime.MultiBook.{
  Pool, Call, create, open_call, close_call, write, Answer, installed, runtime_store, found_runtime,
  settled_pool, command_of, routed, route, with_config, registered, create_book, opened,
  unless_blank, open_book, close_book, perform, require_runtime,
}

-- Keys and numbering of the audit log.
abbrev pub IsGood : Database → Type 0
IsGood db = IsIntegral db × IsNumbered db

empty-IsGood : IsGood empty_database
empty-IsGood = (
  (
    record {
      accounts = tt;
      periods = tt;
      transactions = tt;
      entry_transactions = tt;
      entry_accounts = tt;
      references = tt;
      book_keys = tt;
      account_keys = tt;
      period_keys = tt;
      entry_keys = tt;
    },
    tt,
  ),
  tt,
)

-- No book is open twice, every open one has its file, and every file is in order.
pub record IsSound (db_path : String → String) (pool : Pool) : Type 0 where
  pub distinct : Distinct (keys pool.runtimes)
  pub has_file :
      (code : String)
      → contains (keys pool.runtimes) code ≡ true
      → contains (keys pool.files) (db_path code) ≡ true
  pub good_files : Values IsGood pool.files

module _ {Seconds : Type 0} (e : Engine) (p : Platform) (k : Codec)
    (save : String → Bool → Database → Result (Unit {0}))
    (config_for : String → Result (RuntimeConfig Seconds)) (db_path : String → String) (pool : Pool)
    (sound : IsSound db_path pool) where
  installed-IsGood : (path : String) → IsGood (installed (get pool.files path))
  installed-IsGood path = held (get pool.files path) refl
    where
      held : (o : Option Database) → get pool.files path ≡ o → IsGood (installed o)
      held none h = empty-IsGood
      held (some db) h = get-Values IsGood pool.files path db h sound.good_files

  dispatched-IsGood :
      (c : Command) (code : String) (state : AuditContext)
      → IsGood
          (dispatch e p k save c (runtime_store e p k save config_for db_path pool code state)).1.db
  dispatched-IsGood c code state =
      let s = runtime_store e p k save config_for db_path pool code state in
      let (whole, numbered) = installed-IsGood (db_path code) in
      (dispatch-IsIntegral e p k save c s whole, dispatch-IsNumbered e p k save c s numbered)

  module _ (code : String) where
    with_file-IsSound :
        (db : Database)
        → IsGood db
        → IsSound db_path (record pool { files = put (db_path code) db pool.files })
    with_file-IsSound db good = record {
      distinct = sound.distinct;
      has_file = λ other h.
          ground
            (arith, keys-put (db_path code) db pool.files (db_path other), sound.has_file other h);
      good_files = Values-put IsGood (db_path code) db pool.files good sound.good_files;
    }

    settled-IsSound :
        (w : Result Reply × Store)
        → IsGood w.1.db
        → IsSound db_path (settled_pool e p k save config_for db_path code pool w).1
    settled-IsSound (r, s) good = record {
      distinct = Distinct-put code s.audit_state pool.runtimes sound.distinct;
      has_file = λ other h. ground (
        arith,
        keys-put (db_path code) s.db pool.files (db_path other),
        keys-put code s.audit_state pool.runtimes other,
        sound.has_file other,
        str_eq_iff code other,
        str_eq_iff (db_path code) (db_path other),
      );
      good_files = Values-put IsGood (db_path code) s.db pool.files good sound.good_files;
    }

    routed-IsSound :
        (c : Command) (o : Option AuditContext)
        → IsSound db_path
            (routed e p k save config_for db_path code c pool
              (found_runtime e p k save config_for db_path pool code o)).1
    routed-IsSound c none = sound
    routed-IsSound c (some state) =
        settled-IsSound
          (dispatch e p k save c (runtime_store e p k save config_for db_path pool code state))
          (dispatched-IsGood c code state)

    registered-IsSound :
        (w : Result Reply × Store)
        → IsGood w.1.db
        → IsSound db_path (registered e p k save config_for db_path code pool w).1
    registered-IsSound (ok r, s) good = settled-IsSound (ok r, s) good
    registered-IsSound (err x, s) good =
        let kept = with_file-IsSound s.db good in
        record { distinct = kept.distinct; has_file = kept.has_file; good_files = kept.good_files }

    with_config-IsSound :
        (r : Result (RuntimeConfig Seconds)) (w : Result Answer × Pool)
        → IsSound db_path w.1
        → IsSound db_path (with_config e p k save config_for db_path r pool w).1
    with_config-IsSound (err x) w h = sound
    with_config-IsSound (ok _) w h = h

    opened-IsSound :
        (o : Option Database)
        → get pool.files (db_path code) ≡ o
        → IsSound db_path (opened e p k save config_for db_path code pool o).1
    opened-IsSound none h = sound
    opened-IsSound (some db) h = with_config-IsSound (config_for code) _ (record {
      distinct = Distinct-put code initial_audit_state pool.runtimes sound.distinct;
      has_file = λ other known. ground (
        arith,
        keys-put code initial_audit_state pool.runtimes other,
        sound.has_file other,
        get-keys pool.files (db_path code) db h,
        str_eq_iff code other,
      );
      good_files = sound.good_files;
    })

    closed-IsSound : IsSound db_path (record pool { runtimes = pop code pool.runtimes })
    closed-IsSound = record {
      distinct = Distinct-pop code pool.runtimes sound.distinct;
      has_file =
          λ other h. sound.has_file other (ground (arith, keys-pop code pool.runtimes other));
      good_files = sound.good_files;
    }

    unless_blank-IsSound :
        (r : Result String) (w : Result Answer × Pool)
        → IsSound db_path w.1
        → IsSound db_path (unless_blank e p k save config_for db_path r pool w).1
    unless_blank-IsSound (err x) w h = sound
    unless_blank-IsSound (ok _) w h = h

  -- Creating, opening, closing and writing a book keep it that no book is open twice, that every open
  -- book has its file, and that the primary and foreign keys and the audit numbers of every file are in
  -- order.
  pub perform-IsSound :
      (c : Call) → IsSound db_path (perform e p k save config_for db_path c pool).1
  unfolding perform create_book open_book close_book route require_runtime
  perform-IsSound (create b ctx) = elim (Bool-cases (contains (keys pool.runtimes) b.code)) [
    | inl is ↦ rw is sound
    | inr new ↦ rw new (
        with_config-IsSound b.code (config_for b.code) _ (
          registered-IsSound b.code
            (dispatch e p k save (Commands.create_book b ctx)
              (runtime_store e p k save config_for db_path pool b.code initial_audit_state))
            (dispatched-IsGood (Commands.create_book b ctx) b.code initial_audit_state)))
  ]
  perform-IsSound (open_call code) =
      unless_blank-IsSound code (e.require_non_empty_str code) _
        (elim (Bool-cases (contains (keys pool.runtimes) code)) [
          | inl is ↦ rw is sound
          | inr new ↦ rw new (opened-IsSound code (get pool.files (db_path code)) refl)
        ])
  perform-IsSound (close_call code) =
      unless_blank-IsSound code (e.require_non_empty_str code) _ (closed-IsSound code)
  perform-IsSound (write code c) = routed-IsSound code (command_of code c) (get pool.runtimes code)
