-- ===== src/Core/Codec.antt =====
-- The text forms of dates, datetimes and numbers, and the validating constructors of ftllexengine
-- that core/serialization.py calls, as a parameter of the model.
use finest_vx.Prelude.{ℕ, String, ◌≡◌, List, [], ◌∷◌, All, ok}
use finest_vx.Prelude.Int.{ℤ, pos_part}
use finest_vx.Core.Decimal.{Decimal, finite, infinite, nan}
use finest_vx.Core.Engine.{Engine}
use finest_vx.Core.Errors.{Result}
use finest_vx.Core.Types.{FiscalPeriod}
use finest_vx.Core.Value.{Value, int}

pub record Codec : Type 0 where
  -- a ValueError for text that does not parse
  pub date_isoformat : ℕ → String
  pub date_fromisoformat : String → Result ℕ
  pub datetime_isoformat : ℕ → String
  pub datetime_fromisoformat : String → Result ℕ
  -- `format(value, "f")` and `Decimal(text)`
  pub format_decimal : Decimal → String
  pub parse_decimal : String → Result Decimal
  pub require_int : Value → Result ℤ
  pub make_fiscal_period : ℤ → ℤ → ℤ → Result FiscalPeriod
  -- the `start_month` of the calendar
  pub make_fiscal_calendar : ℤ → Result ℤ

-- A number that `format(value, "f")` writes with its own exponent: 1E+3 is written 1000.
abbrev pub IsPlain : Decimal → Type 0
IsPlain (finite n c e) = pos_part e ≡ 0
IsPlain (infinite n) = ⊥
IsPlain nan = ⊥

-- The texts of the enum members.
abbrev pub enum_texts : List String
enum_texts = "Dr" ∷ "Cr" ∷ "open" ∷ "closed" ∷ "locked" ∷ "draft" ∷ "posted" ∷ "reversed" ∷ []

-- What is written is read back; a text with no blanks passes the text validator as it is.
pub record CodecLaws (e : Engine) (k : Codec) : Type 0 where
  pub date_round : (d : ℕ) → k.date_fromisoformat (k.date_isoformat d) ≡ ok d
  pub datetime_round : (d : ℕ) → k.datetime_fromisoformat (k.datetime_isoformat d) ≡ ok d
  pub decimal_round : (d : Decimal) → IsPlain d → k.parse_decimal (k.format_decimal d) ≡ ok d
  pub int_round : (i : ℤ) → k.require_int (int i) ≡ ok i
  pub enum_round : All (λ s. e.require_non_empty_str s ≡ ok s) enum_texts
