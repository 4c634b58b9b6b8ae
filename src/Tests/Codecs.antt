-- ===== src/Tests/Codecs.antt =====
-- A concrete codec that keeps the laws: a number is written as so many 1s and a stop.
use Prim.Native.Char.{code}
use Prim.Native.String.{[] as empty_text, ◌∷◌ as ◌∷ˢ◌}
use finest_vx.Prelude.{
  ℕ, zero, suc, String, Bool, true, false, ◌≡◌, refl, ap, ◌==◌, arith, ok, err, ◌&&◌, if◌then◌else◌,
}
use finest_vx.Prelude.Int.{ℤ, pos, negsuc, leb_ℤ}
use finest_vx.Core.Decimal.{Decimal, finite, infinite, nan}
use finest_vx.Core.Codec.{Codec, CodecLaws, IsPlain}
use finest_vx.Core.Errors.{Result, type_error, value_error, malformed}
use finest_vx.Core.Types.{FiscalPeriod}
use finest_vx.Core.Value.{Value, int}
use finest_vx.Tests.Fixtures.{engine}

unfoldable pub write_number : ℕ → String → String
write_number zero s = "." ∷ˢ s
write_number (suc n) s = "1" ∷ˢ write_number n s

unfoldable pub read_number : String → ℕ × String
read_number empty_text = (0, "")
read_number (c ∷ˢ rest) =
    let (n, s) = read_number rest in if code c == 49 then (suc n, s) else (0, rest)

pub read-write : (n : ℕ) (s : String) → read_number (write_number n s) ≡ (n, s)
unfolding read_number write_number
read-write zero s = refl
read-write (suc n) s = ap (λ (w : ℕ × String). (suc w.0, w.1)) (read-write n s)

unfoldable pub write_sign : Bool → String → String
write_sign false s = "+" ∷ˢ s
write_sign true s = "-" ∷ˢ s

-- A sign, the coefficient, and the number of decimal places.
unfoldable pub write_decimal : Decimal → String
write_decimal (finite n c (pos e)) = write_sign n (write_number c (write_number 0 ""))
write_decimal (finite n c (negsuc e)) = write_sign n (write_number c (write_number (suc e) ""))
write_decimal (infinite n) = ""
write_decimal nan = ""

unfoldable pub exponent : ℕ → ℤ
exponent zero = pos 0
exponent (suc n) = negsuc n

unfoldable pub read_decimal : String → Result Decimal
read_decimal empty_text = err (value_error (malformed ""))
read_decimal (c ∷ˢ rest) =
    let (coefficient, after) = read_number rest in
    let (places, end) = read_number after in
    ok (finite (code c == 45) coefficient (exponent places))

read_decimal-write : (d : Decimal) → IsPlain d → read_decimal (write_decimal d) ≡ ok d
unfolding read_decimal write_decimal write_sign exponent
read_decimal-write (finite true c (pos zero)) h =
    rw (read-write c (write_number 0 ""), read-write 0 "")
read_decimal-write (finite false c (pos zero)) h =
    rw (read-write c (write_number 0 ""), read-write 0 "")
read_decimal-write (finite n c (pos (suc e))) h = absurd (omega arith)
read_decimal-write (finite true c (negsuc e)) h =
    rw (read-write c (write_number (suc e) ""), read-write (suc e) "")
read_decimal-write (finite false c (negsuc e)) h =
    rw (read-write c (write_number (suc e) ""), read-write (suc e) "")
read_decimal-write (infinite n) h = absurd h
read_decimal-write nan h = absurd h

unfoldable pub read_int : Value → Result ℤ
read_int (int i) = ok i
read_int _ = err (type_error "int")

-- The months and quarters of the calendar.
unfoldable pub fiscal_period : ℤ → ℤ → ℤ → Result FiscalPeriod
fiscal_period year quarter month =
    if (leb_ℤ (pos 1) quarter && leb_ℤ quarter (pos 4))
      && (leb_ℤ (pos 1) month && leb_ℤ month (pos 12))
    then ok (record { fiscal_year = year; quarter = quarter; month = month })
    else err (value_error (malformed "period"))

abbrev pub codec : Codec
codec = record {
  date_isoformat = λ d. write_number d "";
  date_fromisoformat = λ s. ok (read_number s).0;
  datetime_isoformat = λ d. write_number d "";
  datetime_fromisoformat = λ s. ok (read_number s).0;
  format_decimal = write_decimal;
  parse_decimal = read_decimal;
  require_int = read_int;
  make_fiscal_period = fiscal_period;
  make_fiscal_calendar = λ m. ok m;
}

pub codec_laws : CodecLaws engine codec
unfolding read_int
codec_laws = record {
  date_round = λ d. rw (read-write d "");
  datetime_round = λ d. rw (read-write d "");
  decimal_round = read_decimal-write;
  int_round = λ i. refl;
  enum_round = (refl, (refl, (refl, (refl, (refl, (refl, (refl, (refl, tt))))))));
}
