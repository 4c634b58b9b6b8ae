-- ===== src/Runtime/MultiBook/Isolation.antt =====
-- A call on one book and the files and runtimes of the others.
use finest_vx.Prelude.{
  Bool, String, ◌≡◌, refl, false, Option, none, some, arith, ok, err, str_eq, str_eq_iff, contains,
  ap, Bool-cases, inl, inr,
}
use finest_vx.Prelude.Dict.{keys, get, get-put_other, get-pop_other}
use finest_vx.Core.Codec.{Codec}
use finest_vx.Core.Engine.{Engine}
use finest_vx.Core.Errors.{Result}
use finest_vx.Persistence.Platform.{Platform}
use finest_vx.Persistence.Rows.{Database, initial_audit_state}
use finest_vx.Persistence.Store.{Store}
use finest_vx.Runtime.Commands
use finest_vx.Runtime.Commands.{Command, Reply, dispatch}
use finest_vx.Runtime.Config.{RuntimeConfig}
use finest_vx.Runtime.MultiBook.{
  Pool, Call, create, open_call, close_call, write, Answer, runtime_store, settled_pool, command_of,
  routed, route, with_config, registered, create_book, opened, unless_blank, open_book, close_book,
  perform, require_runtime,
}

abbrev pub target : Call → String
target (create b ctx) = b.code
target (open_call code) = code
target (close_call code) = code
target (write code c) = code

module _ {Seconds : Type 0} (e : Engine) (p : Platform) (k : Codec)
    (save : String → Bool → Database → Result (Unit {0}))
    (config_for : String → Result (RuntimeConfig Seconds)) (db_path : String → String) where
  -- The file and the runtime of a book are the same in both pools.
  abbrev pub Untouched : String → Pool → Pool → Type 0
  Untouched code a b =
      (get b.files (db_path code) ≡ get a.files (db_path code))
      × (get b.runtimes code ≡ get a.runtimes code)

  module _ (other : String) (pool : Pool) where
    module _ (code : String) (apart : str_eq (db_path code) (db_path other) ≡ false) where
      other_code : str_eq code other ≡ false
      other_code = elim (Bool-cases (str_eq code other)) [
        | inl same ↦ absurd (
            ground (
              arith,
              str_eq_iff code other,
              str_eq_iff (db_path code) (db_path other),
              ap db_path ((str_eq_iff code other).0 same),
            ))
        | inr h ↦ h
      ]

      settled_pool-Untouched :
          (w : Result Reply × Store)
          → Untouched other pool (settled_pool e p k save config_for db_path code pool w).1
      settled_pool-Untouched (r, s) = (
        get-put_other (db_path code) s.db pool.files (db_path other) apart,
        get-put_other code s.audit_state pool.runtimes other other_code,
      )

      routed-Untouched :
          (c : Command) (r : Result Store)
          → Untouched other pool (routed e p k save config_for db_path code c pool r).1
      routed-Untouched c (err x) = (refl, refl)
      routed-Untouched c (ok s) = settled_pool-Untouched (dispatch e p k save c s)

      registered-Untouched :
          (w : Result Reply × Store)
          → Untouched other pool (registered e p k save config_for db_path code pool w).1
      registered-Untouched (ok r, s) = settled_pool-Untouched (ok r, s)
      registered-Untouched (err x, s) =
          (get-put_other (db_path code) s.db pool.files (db_path other) apart, refl)

      with_config-Untouched :
          (r : Result (RuntimeConfig Seconds)) (w : Result Answer × Pool)
          → Untouched other pool w.1
          → Untouched other pool (with_config e p k save config_for db_path r pool w).1
      with_config-Untouched (err x) w h = (refl, refl)
      with_config-Untouched (ok _) w h = h

      opened-Untouched :
          (o : Option Database)
          → Untouched other pool (opened e p k save config_for db_path code pool o).1
      opened-Untouched none = (refl, refl)
      opened-Untouched (some db) =
          with_config-Untouched (config_for code) _
            (refl, get-put_other code initial_audit_state pool.runtimes other other_code)

      unless_blank-Untouched :
          (r : Result String) (w : Result Answer × Pool)
          → Untouched other pool w.1
          → Untouched other pool (unless_blank e p k save config_for db_path r pool w).1
      unless_blank-Untouched (err x) w h = (refl, refl)
      unless_blank-Untouched (ok _) w h = h

    -- Creating, opening, closing or writing a book leaves the file and the runtime of every book with another file as they are.
    pub perform-Untouched :
        (c : Call)
        → str_eq (db_path (target c)) (db_path other) ≡ false
        → Untouched other pool (perform e p k save config_for db_path c pool).1
    unfolding perform create_book open_book close_book route
    perform-Untouched (create b ctx) apart =
        elim (Bool-cases (contains (keys pool.runtimes) b.code)) [
          | inl is ↦ rw is (refl, refl)
          | inr new ↦ rw new (
              with_config-Untouched b.code apart (config_for b.code) _ (
                registered-Untouched b.code apart (
                  dispatch e p k save (Commands.create_book b ctx)
                    (runtime_store e p k save config_for db_path pool b.code initial_audit_state))))
        ]
    perform-Untouched (open_call code) apart =
        unless_blank-Untouched code apart (e.require_non_empty_str code) _
          (elim (Bool-cases (contains (keys pool.runtimes) code)) [
            | inl is ↦ rw is (refl, refl)
            | inr new ↦ rw new (opened-Untouched code apart (get pool.files (db_path code)))
          ])
    perform-Untouched (close_call code) apart =
        unless_blank-Untouched code apart (e.require_non_empty_str code) _
          (refl, get-pop_other code pool.runtimes other (other_code code apart))
    perform-Untouched (write code c) apart =
        routed-Untouched code apart (command_of code c)
          (require_runtime e p k save config_for db_path code pool)
