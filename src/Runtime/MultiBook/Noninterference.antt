-- ===== src/Runtime/MultiBook/Noninterference.antt =====
-- What the clients of one book see of the pool is what they would see if they were alone.
use finest_vx.Prelude.{
  Bool, String, ◌≡◌, refl, ap, sym, ◌∙◌, subst, true, false, Option, none, some, List, [], ◌∷◌, All,
  arith, ok, err, str_eq, str_eq_iff, str_eq_refl, contains, select, Bool-cases, inl, inr, ◌⊎◌,
  Distinct, if◌then◌else◌,
}
use finest_vx.Prelude.Dict.{keys, get, put, pop, get-put, get-pop, contains-keys}
use finest_vx.Core.Codec.{Codec}
use finest_vx.Core.Engine.{Engine}
use finest_vx.Core.Errors.{Result}
use finest_vx.Persistence.Platform.{Platform}
use finest_vx.Persistence.Rows.{Database, AuditContext, initial_audit_state}
use finest_vx.Persistence.Store.{Store}
use finest_vx.Runtime.Commands
use finest_vx.Runtime.Commands.{Command, Reply, dispatch}
use finest_vx.Runtime.Config.{RuntimeConfig}
use finest_vx.Runtime.MultiBook.{
  Pool, Call, create, open_call, close_call, write, Answer, installed, runtime_store, found_runtime,
  settled_pool, command_of, routed, route, with_config, registered, create_book, opened,
  unless_blank, open_book, close_book, perform, require_runtime,
}
use finest_vx.Runtime.MultiBook.Isolation.{target, Untouched, perform-Untouched}
use finest_vx.Runtime.MultiBook.Sound.{IsSound, perform-IsSound}

module _ {Seconds : Type 0} (e : Engine) (p : Platform) (k : Codec)
    (save : String → Bool → Database → Result (Unit {0}))
    (config_for : String → Result (RuntimeConfig Seconds)) (db_path : String → String) where
  -- The same answer, and pools with the same file and the same runtime of the book.
  abbrev pub Alike : String → Result Answer × Pool → Result Answer × Pool → Type 0
  Alike code v w = (w.0 ≡ v.0) × Untouched e p k save config_for db_path code v.1 w.1

  module _ (code : String) (a b : Pool)
      (same : Untouched e p k save config_for db_path code a b) where
    same_store :
        (state : AuditContext)
        → runtime_store e p k save config_for db_path b code state
          ≡ runtime_store e p k save config_for db_path a code state
    same_store state =
        ap (λ (o : Option Database). record { db = installed o; audit_state = state }) same.0

    put_alike :
        {A : Type 0} (key : String) (v : A) (xs ys : List (String × A))
        → get (put key v ys) key ≡ get (put key v xs) key
    put_alike key v xs ys = rw (get-put key v ys key, get-put key v xs key, str_eq_refl key) refl

    settled-Alike :
        (w : Result Reply × Store)
        → Alike code
            (settled_pool e p k save config_for db_path code a w)
            (settled_pool e p k save config_for db_path code b w)
    settled-Alike (r, s) = (
      refl,
      (
        put_alike (db_path code) s.db a.files b.files,
        put_alike code s.audit_state a.runtimes b.runtimes,
      ),
    )

    routed-Alike :
        (c : Command) (o : Option AuditContext)
        → Alike code
            (routed e p k save config_for db_path code c a
              (found_runtime e p k save config_for db_path a code o))
            (routed e p k save config_for db_path code c b
              (found_runtime e p k save config_for db_path b code o))
    routed-Alike c none = (refl, same)
    routed-Alike c (some state) =
        subst
          (λ (s : Store).
            Alike code
              (settled_pool e p k save config_for db_path code a
                (dispatch e p k save c (runtime_store e p k save config_for db_path a code state)))
              (settled_pool e p k save config_for db_path code b (dispatch e p k save c s)))
          (sym (same_store state))
          (settled-Alike
            (dispatch e p k save c (runtime_store e p k save config_for db_path a code state)))

    registered-Alike :
        (w : Result Reply × Store)
        → Alike code
            (registered e p k save config_for db_path code a w)
            (registered e p k save config_for db_path code b w)
    registered-Alike (ok r, s) = (refl, (settled-Alike (ok r, s)).1)
    registered-Alike (err x, s) = (refl, (put_alike (db_path code) s.db a.files b.files, same.1))

    with_config-Alike :
        (r : Result (RuntimeConfig Seconds)) (v w : Result Answer × Pool)
        → Alike code v w
        → Alike code
            (with_config e p k save config_for db_path r a v)
            (with_config e p k save config_for db_path r b w)
    with_config-Alike (err x) v w h = (refl, same)
    with_config-Alike (ok _) v w h = h

    opened-Alike :
        (o : Option Database)
        → Alike code
            (opened e p k save config_for db_path code a o)
            (opened e p k save config_for db_path code b o)
    opened-Alike none = (refl, same)
    opened-Alike (some db) =
        with_config-Alike (config_for code) _ _
          (refl, (same.0, put_alike code initial_audit_state a.runtimes b.runtimes))

    unless_blank-Alike :
        (r : Result String) (v w : Result Answer × Pool)
        → Alike code v w
        → Alike code
            (unless_blank e p k save config_for db_path r a v)
            (unless_blank e p k save config_for db_path r b w)
    unless_blank-Alike (err x) v w h = (refl, same)
    unless_blank-Alike (ok _) v w h = h

    same_open : contains (keys b.runtimes) code ≡ contains (keys a.runtimes) code
    same_open = rw (contains-keys b.runtimes code, contains-keys a.runtimes code, same.1) refl

    popped_alike :
        Distinct (keys a.runtimes)
        → Distinct (keys b.runtimes)
        → get (pop code b.runtimes) code ≡ get (pop code a.runtimes) code
    popped_alike h k' =
        rw (get-pop code b.runtimes code k', get-pop code a.runtimes code h, str_eq_refl code) refl

  -- A call looks at nothing but the file and the runtime of its book.
  perform-Alike :
      (c : Call) (a b : Pool)
      → Untouched e p k save config_for db_path (target c) a b
      → Distinct (keys a.runtimes)
      → Distinct (keys b.runtimes)
      → Alike
          (target c)
          (perform e p k save config_for db_path c a)
          (perform e p k save config_for db_path c b)
  unfolding perform create_book open_book close_book route require_runtime
  perform-Alike (create x ctx) a b same h h' =
      elim (Bool-cases (contains (keys a.runtimes) x.code)) [
        | inl is ↦ rw (same_open x.code a b same, is) (refl, same)
        | inr new ↦
            rw (same_open x.code a b same, new)
              (with_config-Alike x.code a b same (config_for x.code) _ _ (
                subst
                  (λ (s : Store).
                    Alike x.code
                      (registered e p k save config_for db_path x.code a (
                        dispatch e p k save (Commands.create_book x ctx) (
                          runtime_store e p k save config_for db_path a x.code
                            initial_audit_state)))
                      (registered e p k save config_for db_path x.code b
                        (dispatch e p k save (Commands.create_book x ctx) s)))
                  (sym (same_store x.code a b same initial_audit_state))
                  (registered-Alike x.code a b same (
                    dispatch e p k save (Commands.create_book x ctx)
                      (runtime_store e p k save config_for db_path a x.code initial_audit_state)))))
      ]
  perform-Alike (open_call code) a b same h h' =
      unless_blank-Alike code a b same (e.require_non_empty_str code) _ _
        (elim (Bool-cases (contains (keys a.runtimes) code)) [
          | inl is ↦ rw (same_open code a b same, is) (refl, same)
          | inr new ↦
              rw (same_open code a b same, new, same.0)
                (opened-Alike code a b same (get a.files (db_path code)))
        ])
  perform-Alike (close_call code) a b same h h' =
      unless_blank-Alike code a b same (e.require_non_empty_str code) _ _
        (refl, (same.0, popped_alike code a b same h h'))
  perform-Alike (write code c) a b same h h' =
      rw same.1 (routed-Alike code a b same (command_of code c) (get a.runtimes code))

  -- All calls are made; the answers are those to the calls for the book.
  abbrev pub observed : String → List Call → Pool → List (Result Answer) × Pool
  observed code [] pool = ([], pool)
  observed code (c ∷ rest) pool =
      let (answer, next) = perform e p k save config_for db_path c pool in
      let (answers, last) = observed code rest next in
      (if str_eq (target c) code then answer ∷ answers else answers, last)

  abbrev pub own_calls : String → List Call → List Call
  own_calls code = select (λ c. str_eq (target c) code)

  -- The call is for the book, or for one with another file.
  abbrev pub IsSeparate : String → Call → Type 0
  IsSeparate code c =
      (str_eq (target c) code ≡ true) ⊎ (str_eq (db_path (target c)) (db_path code) ≡ false)

  -- Two runs that are alike: the answers, and the book's file and runtime.
  abbrev pub Agrees : String → List (Result Answer) × Pool → List (Result Answer) × Pool → Type 0
  Agrees code v w = (w.0 ≡ v.0) × Untouched e p k save config_for db_path code v.1 w.1

  Untouched-join :
      (code : String) (a b c : Pool)
      → Untouched e p k save config_for db_path code a b
      → Untouched e p k save config_for db_path code a c
      → Untouched e p k save config_for db_path code c b
  Untouched-join code a b c h h' = (h.0 ∙ sym h'.0, h.1 ∙ sym h'.1)

  own_step :
      (c : Call) (code : String) (a b : Pool)
      → str_eq (target c) code ≡ true
      → Untouched e p k save config_for db_path code a b
      → IsSound db_path a
      → IsSound db_path b
      → Alike code
          (perform e p k save config_for db_path c a)
          (perform e p k save config_for db_path c b)
  own_step c code a b own same sound sound' =
      let name : target c ≡ code = (str_eq_iff (target c) code).0 own in
      subst
        (λ q.
          Alike q (perform e p k save config_for db_path c a)
            (perform e p k save config_for db_path c b))
        name
        (perform-Alike c a b
          (subst (λ q. Untouched e p k save config_for db_path q a b) (sym name) same)
          sound.distinct sound'.distinct)

  other_apart :
      (code : String) (c : Call)
      → IsSeparate code c
      → str_eq (target c) code ≡ false
      → str_eq (db_path (target c)) (db_path code) ≡ false
  other_apart code c (inl own) other = absurd (ground arith)
  other_apart code c (inr apart) other = apart

  own_first :
      (code : String) (c : Call) (rest : List Call)
      → str_eq (target c) code ≡ true
      → own_calls code (c ∷ rest) ≡ c ∷ own_calls code rest
  own_first code c rest h = ground arith

  own_later :
      (code : String) (c : Call) (rest : List Call)
      → str_eq (target c) code ≡ false
      → own_calls code (c ∷ rest) ≡ own_calls code rest
  own_later code c rest h = ground arith

  observed-own_calls :
      (code : String) (calls : List Call) (a b : Pool)
      → Untouched e p k save config_for db_path code a b
      → IsSound db_path a
      → IsSound db_path b
      → All (IsSeparate code) calls
      → Agrees code (observed code calls a) (observed code (own_calls code calls) b)
  observed-own_calls code [] a b same sound sound' separate = (refl, same)
  observed-own_calls code (c ∷ rest) a b same sound sound' (apart, others) =
      let sound_a = perform-IsSound e p k save config_for db_path a sound c in
      elim (Bool-cases (str_eq (target c) code)) [
        | inl own ↦
            let (answer, agree) = own_step c code a b own same sound sound' in
            let (answers, last) =
              observed-own_calls code rest (perform e p k save config_for db_path c a).1
                (perform e p k save config_for db_path c b).1 agree sound_a
                (perform-IsSound e p k save config_for db_path b sound' c) others in
            rw (own_first code c rest own) (rw (own, answer, answers) refl, last)
        | inr other ↦
            let kept =
              perform-Untouched e p k save config_for db_path code a c
                (other_apart code c apart other) in
            let (answers, last) =
              observed-own_calls code rest (perform e p k save config_for db_path c a).1 b
                (Untouched-join code a b (perform e p k save config_for db_path c a).1 same kept)
                sound_a sound' others in
            rw (own_later code c rest other) (rw (other, answers) refl, last)
      ]

  -- In any sequence of calls, each of them for the book or for one with another file, the calls for the
  -- book get the answers that they get alone, and leave the file and the runtime that they leave alone.
  pub observed_alone :
      (code : String) (calls : List Call) (pool : Pool)
      → IsSound db_path pool
      → All (IsSeparate code) calls
      → Agrees code (observed code calls pool) (observed code (own_calls code calls) pool)
  observed_alone code calls pool sound separate =
      observed-own_calls code calls pool pool (refl, refl) sound sound separate
