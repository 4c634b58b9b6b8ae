-- ===== src/Core/Balance/Reversal.antt =====
-- The inverted entries of `SqliteLedgerStore.append_reversal` (persistence/store.py): swapping the
-- sides keeps a transaction balanced, whatever the context's rounding does.
use finest_vx.Prelude.{
  ℕ, String, ◌≡◌, refl, Bool, true, ◌&&◌, some, List, [], ◌∷◌, arith, map, length, ok, suc, ◌==◌,
  not, ◌||◌, ap,
}
use finest_vx.Prelude.Int.{ℤ, eq_of_parts}
use finest_vx.Core.Decimal.{Decimal, finite, zero_decimal, add, dec_eq, min_ℤ, aligned}
use finest_vx.Core.Types.{PostingSide, debit, credit, LedgerEntry}
use finest_vx.Core.Balance.{counts, validate_transaction_entries}
use finest_vx.Core.Balance.Totals.{running, validate_transaction_entries_iff}

unfoldable pub opposite : PostingSide → PostingSide
opposite debit = credit
opposite credit = debit

-- `replace(entry, side=...)`, as far as the fields go.
unfoldable pub invert : LedgerEntry → LedgerEntry
unfolding opposite
invert x = record x { side = opposite x.side }

min_ℤ_comm : (a b : ℤ) → min_ℤ a b ≡ min_ℤ b a
min_ℤ_comm a b = ground (arith, eq_of_parts a b)

same_comm :
    (a b : ℕ) (m n : Bool)
    → (a == b && (a == 0 || (m && n || not m && not n))) ≡ true
    → (b == a && (b == 0 || (n && m || not n && not m))) ≡ true
same_comm a b m n h = ground arith

pub dec_eq_comm : (a b : Decimal) → dec_eq a b ≡ true → dec_eq b a ≡ true
unfolding dec_eq
dec_eq_comm (finite m c e) (finite n d f) h =
    rw (min_ℤ_comm f e) (same_comm (aligned c e (min_ℤ e f)) (aligned d f (min_ℤ e f)) m n h)
dec_eq_comm a b h = ground arith

counts-invert :
    (side : PostingSide) (x : LedgerEntry)
    → counts (some (opposite side)) (invert x) ≡ counts (some side) x
unfolding counts invert
counts-invert side x = ground arith

running-invert :
    (side : PostingSide) (acc : Decimal) (c : String) (entries : List LedgerEntry)
    → running acc (some (opposite side)) c (map invert entries) ≡ running acc (some side) c entries
unfolding invert
running-invert side acc c [] = refl
running-invert side acc c (x ∷ rest) = ground (
  arith,
  counts-invert side x,
  running-invert side (add acc x.amount.decimal_value) c rest,
  running-invert side acc c rest,
)

length-map : (f : LedgerEntry → LedgerEntry) (xs : List LedgerEntry) → length (map f xs) ≡ length xs
length-map f [] = refl
length-map f (x ∷ xs) = ap suc (length-map f xs)

-- A transaction whose entries pass the validation passes it with every side inverted.
pub validate-invert :
    (entries : List LedgerEntry)
    → validate_transaction_entries entries ≡ ok tt
    → validate_transaction_entries (map invert entries) ≡ ok tt
unfolding opposite
validate-invert entries h =
    let (two, balanced) = (validate_transaction_entries_iff entries).0 h in
    (validate_transaction_entries_iff (map invert entries)).1 (
      rw length-map two,
      λ c.
          rw
            (
              running-invert credit zero_decimal c entries,
              running-invert debit zero_decimal c entries,
            )
            (dec_eq_comm _ _ (balanced c)),
    )
