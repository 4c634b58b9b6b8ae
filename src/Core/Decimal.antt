-- ===== src/Core/Decimal.antt =====
-- `decimal.Decimal` under Python's default context (28 significant digits, ROUND_HALF_EVEN), as
-- core/models.py and validation/service.py use it. A signalling NaN and the exponent limits
-- (999999 either way) are not modelled.
use finest_vx.Prelude.{
  ℕ, zero, suc, ◌+◌, ◌-◌, ◌*◌, ◌/◌, ◌%◌, ◌^◌, Bool, true, false, ◌&&◌, ◌||◌, not, ltb, ◌==◌,
  if◌then◌else◌,
}
use finest_vx.Prelude.Int.{ℤ, pos, pos_part, neg_part, ◌+ℤ◌, ◌-ℤ◌, leb_ℤ}

-- `finite negative coefficient exponent` is (-1)^negative * coefficient * 10^exponent.
pub data Decimal : Type 0 where
  finite : Bool → ℕ → ℤ → Decimal
  infinite : Bool → Decimal
  nan : Decimal

abbrev pub zero_decimal : Decimal
zero_decimal = finite false 0 (pos 0)

unfoldable pub is_finite : Decimal → Bool
is_finite (finite n c e) = true
is_finite (infinite n) = false
is_finite nan = false

-- `value < 0` of a value that is no NaN.
unfoldable pub is_negative : Decimal → Bool
is_negative (finite n c e) = n && ltb 0 c
is_negative (infinite n) = n
is_negative nan = false

abbrev pub precision_limit : ℕ
precision_limit = 10 ^ 28

-- How many trailing digits have to go until at most 28 are left; the coefficient is fuel enough.
unfoldable pub excess_digits : ℕ → ℕ → ℕ
excess_digits zero c = 0
excess_digits (suc fuel) c =
    let rest = suc (excess_digits fuel (c / 10)) in if ltb c precision_limit then 0 else rest

-- Division by 10^k, halves to the even neighbour.
unfoldable pub half_even : ℕ → ℕ → ℕ
half_even c k =
    let q = c / 10 ^ k in
    let r = c % 10 ^ k in
    if ltb (10 ^ k) (2 * r) || (2 * r == 10 ^ k && q % 2 == 1) then q + 1 else q

-- The context's rounding of an exact result; rounding up to 10^28 moves the exponent once more.
unfoldable pub round_context : Bool → ℕ → ℤ → Decimal
round_context n c e =
    let k = excess_digits c c in
    let q = half_even c k in
    if ltb c precision_limit
    then finite n c e
    else if ltb q precision_limit
    then finite n q (e +ℤ pos k)
    else finite n (q / 10) (e +ℤ pos (k + 1))

abbrev pub min_ℤ : ℤ → ℤ → ℤ
min_ℤ a b = if leb_ℤ a b then a else b

-- The coefficient of c * 10^e at an exponent m below e.
abbrev pub aligned : ℕ → ℤ → ℤ → ℕ
aligned c e m = c * 10 ^ pos_part (e -ℤ m)

-- The sum of two signed coefficients: its sign and its size.
unfoldable pub signed_sum : Bool → ℕ → Bool → ℕ → ℤ → Decimal
signed_sum true a true b m = round_context true (a + b) m
signed_sum false a false b m = round_context false (a + b) m
signed_sum true a false b m =
    if ltb b a then round_context true (a - b) m else round_context false (b - a) m
signed_sum false a true b m =
    if ltb a b then round_context true (b - a) m else round_context false (a - b) m

-- `a + b`. Infinities of opposite signs raise InvalidOperation, which stands here as `nan`.
unfoldable pub add : Decimal → Decimal → Decimal
add (finite na ca ea) (finite nb cb eb) =
    let m = min_ℤ ea eb in signed_sum na (aligned ca ea m) nb (aligned cb eb m) m
add (infinite n) (finite _ _ _) = infinite n
add (finite _ _ _) (infinite n) = infinite n
add (infinite true) (infinite true) = infinite true
add (infinite false) (infinite false) = infinite false
add _ _ = nan

-- `a == b`: by value, so 1.0 == 1.00 and 0 == -0.
unfoldable pub dec_eq : Decimal → Decimal → Bool
dec_eq (finite na ca ea) (finite nb cb eb) =
    let m = min_ℤ ea eb in
    let a = aligned ca ea m in
    let b = aligned cb eb m in a == b && (a == 0 || (na && nb || not na && not nb))
dec_eq (infinite true) (infinite true) = true
dec_eq (infinite false) (infinite false) = true
dec_eq _ _ = false

-- `max(-value.as_tuple().exponent, 0)`, for a finite value.
unfoldable pub decimal_places : Decimal → ℕ
decimal_places (finite n c e) = neg_part e
decimal_places _ = 0
