-- ===== src/Core/Balance.antt =====
-- core/models.py `_totals_by_currency` and `_validate_transaction_entries`, and the functions of
-- core/validation.py over them. A dictionary is its items in order.
pub mod Totals
pub mod Reversal
use finest_vx.Prelude.{
  String, Bool, true, false, ◌&&◌, ◌||◌, not, Option, none, some, List, [], ◌∷◌, ◌++◌, map, str_eq,
  contains, length, ltb, ok, err, ◌>>=◌, ◌>>◌, raise_if, if◌then◌else◌,
}
use finest_vx.Core.Decimal.{Decimal, zero_decimal, add, dec_eq}
use finest_vx.Core.Errors.{value_error, Result, too_few_entries, not_balanced}
use finest_vx.Core.Types.{PostingSide, debit, credit, side_eq, LedgerEntry, JournalTransaction}

abbrev pub Totals : Type 0
Totals = List (String × Decimal)

-- `totals.get(currency, Decimal(0))`
abbrev pub total_of : Totals → String → Decimal
total_of [] c = zero_decimal
total_of ((k, v) ∷ rest) c = if str_eq k c then v else total_of rest c

-- `totals[currency] += value` on a `defaultdict(Decimal)`
unfoldable pub add_total : Totals → String → Decimal → Totals
add_total [] c v = (c, add zero_decimal v) ∷ []
add_total ((k, w) ∷ rest) c v =
    if str_eq k c then (k, add w v) ∷ rest else (k, w) ∷ add_total rest c v

-- `side is None or entry.side is side`
unfoldable pub counts : Option PostingSide → LedgerEntry → Bool
unfolding side_eq
counts none entry = true
counts (some side) entry = side_eq entry.side side

unfoldable pub totals_from : Totals → Option PostingSide → List LedgerEntry → Totals
totals_from totals side [] = totals
totals_from totals side (entry ∷ rest) =
    totals_from
      (if counts side entry
        then add_total totals entry.currency entry.amount.decimal_value
        else totals)
      side rest

unfoldable pub totals_by_currency : Option PostingSide → List LedgerEntry → Totals
totals_by_currency side entries = totals_from [] side entries

-- `sorted(set(...))` up to the order, which only the message shows.
unfoldable pub union : List String → List String → List String
union [] known = known
union (c ∷ rest) known =
    let onward = union rest known in if contains onward c then onward else c ∷ onward

abbrev pub currencies : Totals → List String
currencies [] = []
currencies ((k, _) ∷ rest) = k ∷ currencies rest

unfoldable pub mismatched : Totals → Totals → List String → List String
mismatched debits credits [] = []
mismatched debits credits (c ∷ rest) =
    let others = mismatched debits credits rest in
    if dec_eq (total_of debits c) (total_of credits c) then others else c ∷ others

unfoldable pub reject_mismatch : List String → Result (Unit {0})
reject_mismatch [] = ok tt
reject_mismatch (c ∷ rest) = err (value_error (not_balanced (c ∷ rest)))

unfoldable pub validate_transaction_entries : List LedgerEntry → Result (Unit {0})
unfolding reject_mismatch
validate_transaction_entries entries = do
  raise_if (ltb (length entries) 2) (value_error too_few_entries)
  let debits = totals_by_currency (some debit) entries
  let credits = totals_by_currency (some credit) entries
  reject_mismatch
      (mismatched debits credits (union (currencies debits) (union (currencies credits) [])))

-- JournalTransaction.is_balanced
unfoldable pub is_balanced : List LedgerEntry → Bool
is_balanced entries = elim (validate_transaction_entries entries) [ ok _ ↦ true | err _ ↦ false ]

-- core/validation.py
unfoldable pub validate_transaction_balance : JournalTransaction → Result (Unit {0})
validate_transaction_balance t = validate_transaction_entries t.entries

unfoldable pub debit_totals_by_currency : JournalTransaction → Totals
debit_totals_by_currency t = totals_by_currency (some debit) t.entries
