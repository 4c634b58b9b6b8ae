-- ===== src/Runtime/MultiBook/Refusals.antt =====
-- What a refused call of the pool leaves.
use finest_vx.Prelude.{
  Bool, String, ◌≡◌, refl, Option, none, some, ◌⊎◌, inl, inr, arith, ok, err, str_eq, str_eq_iff,
  ◌∷◌, contains, Bool-cases, subst,
}
use finest_vx.Prelude.Dict.{keys, get, put, get-put, put-get}
use finest_vx.Core.Codec.{Codec}
use finest_vx.Core.Engine.{Engine}
use finest_vx.Core.Errors.{Error, Result}
use finest_vx.Core.Types.{Book}
use finest_vx.Persistence.Platform.{Platform}
use finest_vx.Persistence.Rows.{Database, AuditContext, empty_database, initial_audit_state}
use finest_vx.Persistence.Store.{Store}
use finest_vx.Runtime.Commands
use finest_vx.Runtime.Commands.{Command, Reply, dispatch}
use finest_vx.Runtime.Ledger.{dispatch_atomic}
use finest_vx.Runtime.Config.{RuntimeConfig}
use finest_vx.Runtime.MultiBook.{
  Pool, Call, create, open_call, close_call, write, Answer, answered, installed, runtime_store,
  found_runtime, settled_pool, command_of, routed, route, with_config, registered, create_book,
  opened, unless_blank, open_book, close_book, perform, require_runtime,
}

-- The file is as it was, or it was absent and is now without rows.
abbrev pub SameOrNew : Option Database → Option Database → Type 0
SameOrNew before now = (now ≡ before) ⊎ ((before ≡ none) × (now ≡ some empty_database))

-- The runtimes that a refused call can leave behind: only a creation leaves one, that of its book.
abbrev pub IsLeft : Call → Pool → Pool → Type 0
IsLeft (create x ctx) a b =
    (b.unregistered ≡ a.unregistered) ⊎ (b.unregistered ≡ x.code ∷ a.unregistered)
IsLeft c a b = b.unregistered ≡ a.unregistered

-- The registered runtimes are the same, and no row was written.
abbrev pub IsUnchanged : Call → Pool → Pool → Type 0
IsUnchanged c a b =
    (b.runtimes ≡ a.runtimes)
    × ((path : String) → SameOrNew (get a.files path) (get b.files path))
    × IsLeft c a b

abbrev pub WhenRefused : Call → Pool → Result Answer × Pool → Type 0
WhenRefused c pool w = (x : Error) → w.0 ≡ err x → IsUnchanged c pool w.1

IsLeft-same : (c : Call) (a b : Pool) → b.unregistered ≡ a.unregistered → IsLeft c a b
IsLeft-same (create x ctx) a b h = inl h
IsLeft-same (open_call code) a b h = h
IsLeft-same (close_call code) a b h = h
IsLeft-same (write code w) a b h = h

IsUnchanged-refl : (c : Call) (pool : Pool) → IsUnchanged c pool pool
IsUnchanged-refl c pool = (refl, λ path. inl refl, IsLeft-same c pool pool refl)

reinstalled : (o : Option Database) → SameOrNew o (some (installed o))
reinstalled none = inr (refl, refl)
reinstalled (some db) = inl refl

module _ {Seconds : Type 0} (e : Engine) (p : Platform) (k : Codec)
    (save : String → Bool → Database → Result (Unit {0}))
    (config_for : String → Result (RuntimeConfig Seconds)) (db_path : String → String)
    (pool : Pool) where
  file-SameOrNew :
      (code path : String)
      → SameOrNew
          (get pool.files path)
          (get (put (db_path code) (installed (get pool.files (db_path code))) pool.files) path)
  file-SameOrNew code path =
      rw (get-put (db_path code) (installed (get pool.files (db_path code))) pool.files path)
        (elim (Bool-cases (str_eq (db_path code) path)) [
          | inl same ↦ rw same (
              subst
                (λ (q : String).
                  SameOrNew (get pool.files q) (some (installed (get pool.files (db_path code)))))
                ((str_eq_iff (db_path code) path).0 same)
                (reinstalled (get pool.files (db_path code))))
          | inr other ↦ rw other (inl refl)
        ])

  refused_reply : (r : Result Reply) (x : Error) → answered r ≡ err x → r ≡ err x
  refused_reply (ok r) x h = ground arith
  refused_reply (err y) x h = ground arith

  module _ (call : Call) (code : String) where
    settled-WhenRefused :
        (c : Command) (state : AuditContext)
        → get pool.runtimes code ≡ some state
        → WhenRefused call pool (
            settled_pool e p k save config_for db_path code pool
              (dispatch e p k save c (runtime_store e p k save config_for db_path pool code state)))
    settled-WhenRefused c state found x h =
        let s = runtime_store e p k save config_for db_path pool code state in
        let same =
          dispatch_atomic e p k save c s x (refused_reply (dispatch e p k save c s).0 x h) in
        rw same (
          put-get code state pool.runtimes found,
          file-SameOrNew code,
          IsLeft-same call pool _ refl,
        )

    routed-WhenRefused :
        (c : Command) (o : Option AuditContext)
        → get pool.runtimes code ≡ o
        → WhenRefused call pool (
            routed e p k save config_for db_path code c pool
              (found_runtime e p k save config_for db_path pool code o))
    routed-WhenRefused c none h x refused = IsUnchanged-refl call pool
    routed-WhenRefused c (some state) h x refused = settled-WhenRefused c state h x refused

    with_config-WhenRefused :
        (r : Result (RuntimeConfig Seconds)) (w : Result Answer × Pool)
        → WhenRefused call pool w
        → WhenRefused call pool (with_config e p k save config_for db_path r pool w)
    with_config-WhenRefused (err y) w h x bad = IsUnchanged-refl call pool
    with_config-WhenRefused (ok _) w h x bad = h x bad

    opened-WhenRefused :
        (o : Option Database)
        → WhenRefused call pool (opened e p k save config_for db_path code pool o)
    opened-WhenRefused none x h = IsUnchanged-refl call pool
    opened-WhenRefused (some db) x h =
        with_config-WhenRefused (config_for code) _ (λ y bad. absurd (ground arith)) x h

    unless_blank-WhenRefused :
        (r : Result String) (w : Result Answer × Pool)
        → WhenRefused call pool w
        → WhenRefused call pool (unless_blank e p k save config_for db_path r pool w)
    unless_blank-WhenRefused (err y) w h x bad = IsUnchanged-refl call pool
    unless_blank-WhenRefused (ok _) w h x bad = h x bad

  registered-WhenRefused :
      (b : Book) (ctx : AuditContext) (w : Result Reply × Store)
      → ((x : Error)
          → w.0 ≡ err x
          → w.1 ≡ runtime_store e p k save config_for db_path pool b.code initial_audit_state)
      → WhenRefused (create b ctx) pool (registered e p k save config_for db_path b.code pool w)
  registered-WhenRefused b ctx (ok r, s) h x bad = absurd (ground arith)
  registered-WhenRefused b ctx (err y, s) h x bad =
      rw (h y refl) (refl, file-SameOrNew b.code, inr refl)

  -- A refused call registers and removes no runtime and writes no row; a refused creation may leave a
  -- new file without rows, and the runtime of its book, which it has with_config, unregistered.
  pub perform-IsUnchanged :
      (c : Call) (x : Error)
      → (perform e p k save config_for db_path c pool).0 ≡ err x
      → IsUnchanged c pool (perform e p k save config_for db_path c pool).1
  unfolding perform create_book open_book close_book route require_runtime
  perform-IsUnchanged (create b ctx) = elim (Bool-cases (contains (keys pool.runtimes) b.code)) [
    | inl is ↦ rw is (λ x h. IsUnchanged-refl (create b ctx) pool)
    | inr new ↦ rw new (
        with_config-WhenRefused (create b ctx) b.code (config_for b.code) _ (
          registered-WhenRefused b ctx _ (
            dispatch_atomic e p k save (Commands.create_book b ctx)
              (runtime_store e p k save config_for db_path pool b.code initial_audit_state))))
  ]
  perform-IsUnchanged (open_call code) =
      unless_blank-WhenRefused (open_call code) code (e.require_non_empty_str code) _
        (elim (Bool-cases (contains (keys pool.runtimes) code)) [
          | inl is ↦ rw is (λ x h. IsUnchanged-refl (open_call code) pool)
          | inr new ↦
              rw new (opened-WhenRefused (open_call code) code (get pool.files (db_path code)))
        ])
  perform-IsUnchanged (close_call code) =
      unless_blank-WhenRefused (close_call code) code (e.require_non_empty_str code) _
        (λ x h. absurd (ground arith))
  perform-IsUnchanged (write code w) =
      routed-WhenRefused (write code w) code (command_of code w) (get pool.runtimes code) refl
