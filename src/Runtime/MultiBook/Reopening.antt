-- ===== src/Runtime/MultiBook/Reopening.antt =====
-- A book that is closed and opened again.
use finest_vx.Prelude.{
  Bool, ℕ, String, List, [], ◌∷◌, ◌≡◌, refl, false, Option, none, some, arith, ok, contains,
  str_eq_refl, Distinct,
}
use finest_vx.Prelude.Dict.{keys, get, pop, get-put, get-pop}
use finest_vx.Core.Codec.{Codec}
use finest_vx.Core.Engine.{Engine}
use finest_vx.Core.Errors.{Result}
use finest_vx.Persistence.Platform.{Platform}
use finest_vx.Persistence.Rows.{Database, AuditContext, initial_audit_state}
use finest_vx.Runtime.Config.{RuntimeConfig}
use finest_vx.Runtime.MultiBook.{
  Pool, open_book, close_book, require_runtime, get_book, iter_audit_log,
}

module _ {Seconds : Type 0} (e : Engine) (p : Platform) (k : Codec)
    (save : String → Bool → Database → Result (Unit {0}))
    (config_for : String → Result (RuntimeConfig Seconds)) (db_path : String → String) where
  -- A book whose file is there can be opened, and is then read from that file.
  open_book-reads :
      (code named : String) (config : RuntimeConfig Seconds) (pool : Pool) (db : Database)
      → e.require_non_empty_str code ≡ ok named
      → config_for code ≡ ok config
      → contains (keys pool.runtimes) code ≡ false
      → get pool.files (db_path code) ≡ some db
      → require_runtime e p k save config_for db_path code
          (open_book e p k save config_for db_path code pool).1
        ≡ ok (record { db = db; audit_state = initial_audit_state })
  unfolding open_book require_runtime
  open_book-reads code named config pool db valid configured new file =
      rw
        (
          valid,
          new,
          file,
          configured,
          get-put code initial_audit_state pool.runtimes code,
          str_eq_refl code,
          file,
        )
        refl

  open_store :
      (code : String) (pool : Pool) (db : Database) (state : AuditContext)
      → get pool.runtimes code ≡ some state
      → get pool.files (db_path code) ≡ some db
      → require_runtime e p k save config_for db_path code pool
        ≡ ok (record { db = db; audit_state = state })
  unfolding require_runtime
  open_store code pool db state found file = rw (found, file) refl

  after_closing :
      (code named : String) (pool : Pool)
      → e.require_non_empty_str code ≡ ok named
      → (close_book e p k save config_for db_path code pool).1
        ≡ record pool { runtimes = pop code pool.runtimes }
  unfolding close_book
  after_closing code named pool valid = rw valid refl

  get-none :
      (items : List (String × AuditContext)) (code : String)
      → get items code ≡ none
      → contains (keys items) code ≡ false
  get-none [] code h = refl
  get-none ((c, a) ∷ rest) code h = ground (arith, get-none rest code)

  -- An open book, with a configuration that is accepted, that is closed and opened again reads as before: the same book or the same error, and
  -- the same audit log.
  pub reopened_reads :
      (code named : String) (config : RuntimeConfig Seconds) (pool : Pool) (db : Database)
      (state : AuditContext) (limit : Option ℕ)
      → e.require_non_empty_str code ≡ ok named
      → config_for code ≡ ok config
      → Distinct (keys pool.runtimes)
      → get pool.runtimes code ≡ some state
      → get pool.files (db_path code) ≡ some db
      → (let reopened =
            (open_book e p k save config_for db_path code
              (close_book e p k save config_for db_path code pool).1).1 in
          (get_book e p k save config_for db_path code reopened
            ≡ get_book e p k save config_for db_path code pool)
          × (iter_audit_log e p k save config_for db_path code limit reopened
              ≡ iter_audit_log e p k save config_for db_path code limit pool))
  unfolding get_book iter_audit_log
  reopened_reads code named config pool db state limit valid configured distinct found file =
      let gone : contains (keys (pop code pool.runtimes)) code ≡ false =
        get-none (pop code pool.runtimes) code
          (rw (get-pop code pool.runtimes code distinct, str_eq_refl code) refl) in
      let again =
        open_book-reads code named config (record pool { runtimes = pop code pool.runtimes }) db
          valid configured gone file in
      let before = open_store code pool db state found file in
      (
        rw (after_closing code named pool valid, again, before) refl,
        rw (after_closing code named pool valid, again, before) refl,
      )
