-- ===== src/Runtime/Config.antt =====
-- The configurations of runtime/service.py and runtime/multi_book.py, and `_runtime_config_for`. Lock
-- timeouts are not checked and are left out.
use finest_vx.Prelude.{
  String, ◌≡◌, ◌↔◌, true, not, arith, ok, ◌>>=◌, ◌>>◌, raise_if, is_ok, Outcome-cases, inl, inr, ap,
  sym, ◌∙◌,
}
use finest_vx.Prelude.Int.{ℤ, pos, ◌≤ℤ◌, ltb_ℤ}
use finest_vx.Core.Engine.{Engine}
use finest_vx.Core.Errors.{value_error, invalid_field, Result}
use finest_vx.Persistence.Config.{
  Limits, LimitsLaws, PersistenceConfig, persistence_config_init, persistence_config_init-path,
}

pub record RuntimeConfig (Seconds : Type 0) : Type 0 where
  pub persistence : PersistenceConfig Seconds
  pub queue_timeout : Seconds
  pub poll_interval : Seconds
  pub legislative_interpreter_pool_min_size : ℤ
  pub legislative_interpreter_pool_max_size : ℤ

pub record MultiBookRuntimeConfig (Seconds : Type 0) : Type 0 where
  pub data_directory : String
  pub persistence_template : PersistenceConfig Seconds
  pub queue_timeout : Seconds
  pub poll_interval : Seconds
  pub legislative_interpreter_pool_min_size : ℤ
  pub legislative_interpreter_pool_max_size : ℤ

module _ {Seconds : Type 0} (e : Engine) (l : Limits Seconds) where
  unfoldable pub check_timings : Seconds → Seconds → Result (Unit {0})
  check_timings queue_timeout poll_interval = do
    raise_if (not (l.is_positive queue_timeout)) (value_error (invalid_field "queue_timeout"))
    raise_if (not (l.is_positive poll_interval)) (value_error (invalid_field "poll_interval"))
    ok tt

  unfoldable pub runtime_config_init : RuntimeConfig Seconds → Result (RuntimeConfig Seconds)
  unfolding check_timings
  runtime_config_init c = do
    check_timings c.queue_timeout c.poll_interval
    _ ← l.require_positive_int c.legislative_interpreter_pool_min_size
    raise_if (ltb_ℤ c.legislative_interpreter_pool_max_size c.legislative_interpreter_pool_min_size)
        (value_error (invalid_field "legislative_interpreter_pool_max_size"))
    ok c

  unfoldable pub multi_book_config_init :
      MultiBookRuntimeConfig Seconds → Result (MultiBookRuntimeConfig Seconds)
  unfolding check_timings
  multi_book_config_init c = do check_timings c.queue_timeout c.poll_interval; ok c

  -- `dataclasses.replace` constructs the template again, with the path of the book's file.
  unfoldable pub runtime_config_for :
      (String → String → String)
      → MultiBookRuntimeConfig Seconds
      → String
      → Result (RuntimeConfig Seconds)
  unfolding runtime_config_init
  runtime_config_for db_path c code = do
    persistence ←
        persistence_config_init e l
          (record c.persistence_template { database_path = db_path c.data_directory code })
    runtime_config_init (record {
      persistence = persistence;
      queue_timeout = c.queue_timeout;
      poll_interval = c.poll_interval;
      legislative_interpreter_pool_min_size = c.legislative_interpreter_pool_min_size;
      legislative_interpreter_pool_max_size = c.legislative_interpreter_pool_max_size;
    })

  -- A constructed configuration of the pool gives a book a runtime configuration exactly when the bounds
  -- of the interpreter pool, which its own constructor does not check, are 1 at least and in order.
  pub runtime_config_for_iff :
      (laws : LimitsLaws l) (db_path : String → String → String)
      (c : MultiBookRuntimeConfig Seconds) (code : String)
      → multi_book_config_init c ≡ ok c
      → persistence_config_init e l c.persistence_template ≡ ok c.persistence_template
      → (is_ok (runtime_config_for db_path c code) ≡ true) ↔ (
          (pos 1 ≤ℤ c.legislative_interpreter_pool_min_size)
          × (c.legislative_interpreter_pool_min_size ≤ℤ c.legislative_interpreter_pool_max_size))
  unfolding runtime_config_for runtime_config_init multi_book_config_init check_timings
  runtime_config_for_iff laws db_path c code made template =
      let replaced =
        persistence_config_init-path e l c.persistence_template (db_path c.data_directory code)
          template in
      let size = c.legislative_interpreter_pool_min_size in
      let least = laws.positive size in
      elim (Outcome-cases (l.require_positive_int size)) [
        | inl (j, passed) ↦
            let same : size ≡ j = laws.positive_same size j passed in
            let kept : l.require_positive_int size ≡ ok size = passed ∙ ap ok (sym same) in
            (λ h. (least.0 kept, ground arith), λ h. ground arith)
        | inr (x, refused) ↦
            (λ h. absurd (ground arith), λ h. absurd (let kept = least.1 h.0 in ground arith))
      ]
