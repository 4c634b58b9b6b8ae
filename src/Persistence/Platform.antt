-- ===== src/Persistence/Platform.antt =====
-- What the store uses of SQLite, APSW, hashlib, json and the clock, as a parameter of the model.
use finest_vx.Prelude.{ℕ, String, Bool, List}
use finest_vx.Prelude.Int.{ℤ}
use finest_vx.Core.Value.{Fields, Value}
use finest_vx.Persistence.Rows.{Database}

-- One change of a changeset: its table, and whether a trigger made it.
pub record Change : Type 0 where
  pub name : String
  pub indirect : Bool

pub record Platform : Type 0 where
  -- SQLite's `json_object` and `%d` of `printf`
  pub json_object : Fields → String
  pub show_int : ℤ → String
  -- `json.dumps(payload, separators=(",", ":"), sort_keys=True)`
  pub json_dumps : Value → String
  -- the hexadecimal blake2b digest of 16 bytes
  pub blake2_hex : String → String
  -- the clock when the audit row with this number is written
  pub monotonic_ms : ℕ → ℕ
  -- the changes that an APSW session records between two states
  pub changeset : Database → Database → List Change
  -- SQLite's BINARY collation
  pub text_le : String → String → Bool
