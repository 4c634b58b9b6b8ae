-- ===== src/Persistence/Config.antt =====
-- persistence/config.py `PersistenceConfig`: what its constructor checks. A duration is a number of
-- floating point, of which only the sign is looked at. The cache configuration is not checked.
use finest_vx.Prelude.{
  String, ◌≡◌, ◌↔◌, Bool, not, Option, none, some, List, [], ◌∷◌, contains, arith, ok, ◌>>=◌, ◌>>◌,
  raise_if,
}
use finest_vx.Prelude.Int.{ℤ, pos, ◌≤ℤ◌}
use finest_vx.Core.Engine.{Engine}
use finest_vx.Core.Errors.{value_error, invalid_field, Result}

-- The integer validators of ftllexengine, and the sign of a duration.
pub record Limits (Seconds : Type 0) : Type 0 where
  pub require_positive_int : ℤ → Result ℤ
  pub require_non_negative_int : ℤ → Result ℤ
  pub require_int_in_range : ℤ → ℤ → ℤ → Result ℤ
  pub is_positive : Seconds → Bool

-- A number passes exactly when it is in range, and it passes as it is.
pub record LimitsLaws {Seconds : Type 0} (l : Limits Seconds) : Type 0 where
  pub positive : (i : ℤ) → (l.require_positive_int i ≡ ok i) ↔ (pos 1 ≤ℤ i)
  pub positive_same : (i j : ℤ) → l.require_positive_int i ≡ ok j → i ≡ j
  pub non_negative : (i : ℤ) → (l.require_non_negative_int i ≡ ok i) ↔ (pos 0 ≤ℤ i)
  pub non_negative_same : (i j : ℤ) → l.require_non_negative_int i ≡ ok j → i ≡ j
  pub in_range :
      (low high i : ℤ) → (l.require_int_in_range low high i ≡ ok i) ↔ ((low ≤ℤ i) × (i ≤ℤ high))
  pub in_range_same : (low high i j : ℤ) → l.require_int_in_range low high i ≡ ok j → i ≡ j

pub record PersistenceConfig (Seconds : Type 0) : Type 0 where
  pub database_path : String
  pub busy_timeout_ms : ℤ
  pub transaction_mode : String
  pub wal_auto_checkpoint : ℤ
  pub reader_connection_count : ℤ
  pub reader_checkout_timeout : Seconds
  pub writer_statement_cache_size : ℤ
  pub reader_statement_cache_size : ℤ
  pub reserve_bytes : ℤ
  pub telemetry_buffer_size : ℤ
  pub vfs_name : Option String

module _ {Seconds : Type 0} (e : Engine) (l : Limits Seconds) where
  abbrev pub normalize_vfs : Option String → Result (Option String)
  normalize_vfs none = ok none
  normalize_vfs (some name) = do valid ← e.require_non_empty_str name; ok (some valid)

  unfoldable pub validate_numeric_fields : PersistenceConfig Seconds → Result (Unit {0})
  validate_numeric_fields c = do
    _ ← l.require_positive_int c.busy_timeout_ms
    _ ← l.require_positive_int c.wal_auto_checkpoint
    _ ← l.require_positive_int c.reader_connection_count
    raise_if (not (l.is_positive c.reader_checkout_timeout))
        (value_error (invalid_field "reader_checkout_timeout"))
    _ ← l.require_non_negative_int c.writer_statement_cache_size
    _ ← l.require_non_negative_int c.reader_statement_cache_size
    _ ← l.require_int_in_range (pos 0) (pos 255) c.reserve_bytes
    _ ← l.require_non_negative_int c.telemetry_buffer_size
    ok tt

  abbrev pub transaction_modes : List String
  transaction_modes = "DEFERRED" ∷ "IMMEDIATE" ∷ "EXCLUSIVE" ∷ []

  unfoldable pub persistence_config_init :
      PersistenceConfig Seconds → Result (PersistenceConfig Seconds)
  unfolding validate_numeric_fields
  persistence_config_init c = do
    vfs_name ← normalize_vfs c.vfs_name
    validate_numeric_fields c
    raise_if (not (contains transaction_modes c.transaction_mode))
        (value_error (invalid_field c.transaction_mode))
    ok (record c { vfs_name = vfs_name })

  -- The path of the database is not looked at.
  pub persistence_config_init-path :
      (c : PersistenceConfig Seconds) (path : String)
      → persistence_config_init c ≡ ok c
      → persistence_config_init (record c { database_path = path })
        ≡ ok (record c { database_path = path })
  unfolding persistence_config_init validate_numeric_fields
  persistence_config_init-path c path h = ground arith
