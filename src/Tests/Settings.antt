-- ===== src/Tests/Settings.antt =====
-- A pool's configuration with its limits, and a quoted text.
use Prim.Native.String.{◌++◌ as str_append}
use finest_vx.Prelude.{
  ℕ, String, ◌≡◌, refl, ◌↔◌, true, none, some, ok, err, arith, is_ok, inl, ltb, if◌then◌else◌, ◌&&◌,
}
use finest_vx.Prelude.Int.{ℤ, pos, leb_ℤ, ◌≤ℤ◌}
use finest_vx.Core.Errors.{Result, value_error, invalid_field}
use finest_vx.Persistence.Config.{Limits, LimitsLaws, PersistenceConfig}
use finest_vx.Persistence.Sql.{quote_literal, escape}
use finest_vx.Persistence.Sql.Tokens.{quoted_token, quoted_token-IsQuoted}
use finest_vx.Runtime.Config.{MultiBookRuntimeConfig, runtime_config_for, runtime_config_for_iff}
use finest_vx.Tests.Fixtures.{engine, platform}

abbrev in_range : ℤ → ℤ → ℤ → Result ℤ
in_range low high i =
    if leb_ℤ low i && leb_ℤ i high then ok i else err (value_error (invalid_field "int"))

abbrev at_least : ℤ → ℤ → Result ℤ
at_least low i = if leb_ℤ low i then ok i else err (value_error (invalid_field "int"))

-- Durations are whole seconds.
abbrev pub limits : Limits ℕ
limits = record {
  require_positive_int = at_least (pos 1);
  require_non_negative_int = at_least (pos 0);
  require_int_in_range = in_range;
  is_positive = λ n. ltb 0 n;
}

limits_laws : LimitsLaws limits
limits_laws = record {
  positive = λ i. ground arith;
  positive_same = λ i j h. ground arith;
  non_negative = λ i. ground arith;
  non_negative_same = λ i j h. ground arith;
  in_range = λ low high i. ground arith;
  in_range_same = λ low high i j h. ground arith;
}

abbrev pub template : PersistenceConfig ℕ
template = record {
  database_path = "books";
  busy_timeout_ms = pos 5000;
  transaction_mode = "IMMEDIATE";
  wal_auto_checkpoint = pos 1000;
  reader_connection_count = pos 4;
  reader_checkout_timeout = 5;
  writer_statement_cache_size = pos 256;
  reader_statement_cache_size = pos 128;
  reserve_bytes = pos 0;
  telemetry_buffer_size = pos 0;
  vfs_name = none;
}

abbrev pub settings : MultiBookRuntimeConfig ℕ
settings = record {
  data_directory = "books";
  persistence_template = template;
  queue_timeout = 5;
  poll_interval = 1;
  legislative_interpreter_pool_min_size = pos 2;
  legislative_interpreter_pool_max_size = pos 8;
}

abbrev pub file_of : String → String → String
file_of directory code = str_append directory code

runtime_config_for_iff_example :
    (is_ok (runtime_config_for engine limits file_of settings "B1") ≡ true)
    ↔ ((pos 1 ≤ℤ pos 2) × (pos 2 ≤ℤ pos 8))
unfolding finest_vx.Runtime.Config.multi_book_config_init finest_vx.Runtime.Config.check_timings
    finest_vx.Persistence.Config.persistence_config_init
    finest_vx.Persistence.Config.validate_numeric_fields
runtime_config_for_iff_example =
    runtime_config_for_iff engine limits limits_laws file_of settings "B1" refl refl

quoted_token-IsQuoted_example :
    quoted_token 39 (str_append "'it''s'" " FROM books") ≡ some ("it's", " FROM books")
unfolding quote_literal escape
quoted_token-IsQuoted_example =
    quoted_token-IsQuoted platform "it's" "'it''s'" " FROM books" 39 (inl (refl, refl)) refl
