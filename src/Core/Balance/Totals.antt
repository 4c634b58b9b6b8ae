-- ===== src/Core/Balance/Totals.antt =====
-- `_totals_by_currency` and `_validate_transaction_entries`: the dictionary holds a running sum for
-- each currency, and the validation passes exactly when the sums agree.
use finest_vx.Prelude.{
  ◌≤◌, String, ◌≡◌, refl, ◌↔◌, true, false, ◌&&◌, Option, some, List, [], ◌∷◌, arith, str_eq,
  str_eq_iff, contains, length, Bool-cases, inl, inr, ok, ltb, if◌then◌else◌,
}
use finest_vx.Prelude.Int.{◌-ℤ◌}
use finest_vx.Core.Decimal.{Decimal, zero_decimal, add, dec_eq}
use finest_vx.Core.Types.{PostingSide, debit, credit, LedgerEntry}
use finest_vx.Core.Balance.{
  Totals, total_of, add_total, counts, totals_from, totals_by_currency, union, currencies,
  mismatched, reject_mismatch, validate_transaction_entries,
}

-- The amounts of the counted entries in one currency, added from the left.
abbrev pub running : Decimal → Option PostingSide → String → List LedgerEntry → Decimal
running acc side c [] = acc
running acc side c (x ∷ rest) =
    running (if counts side x && str_eq x.currency c then add acc x.amount.decimal_value else acc)
      side c rest

total_of-add_total :
    (totals : Totals) (c j : String) (v : Decimal)
    → total_of (add_total totals c v) j
      ≡ (if str_eq c j then add (total_of totals j) v else total_of totals j)
unfolding add_total
total_of-add_total [] c j v = refl
total_of-add_total ((k, w) ∷ rest) c j v =
    ground (arith, total_of-add_total rest c j v, str_eq_iff k c, str_eq_iff k j, str_eq_iff c j)

total_of-totals_from :
    (entries : List LedgerEntry) (totals : Totals) (side : Option PostingSide) (c : String)
    → total_of (totals_from totals side entries) c ≡ running (total_of totals c) side c entries
unfolding totals_from
total_of-totals_from [] totals side c = refl
total_of-totals_from (x ∷ rest) totals side c = elim (Bool-cases (counts side x)) [
  | inl counted ↦ rw (
    counted,
    total_of-totals_from rest (add_total totals x.currency x.amount.decimal_value) side c,
    total_of-add_total totals x.currency c x.amount.decimal_value,
  )
  | inr skipped ↦ rw (skipped, total_of-totals_from rest totals side c)
]

-- The dictionary has for every currency the sum of its counted amounts, and 0 for the others.
total_of-totals_by_currency :
    (side : Option PostingSide) (entries : List LedgerEntry) (c : String)
    → total_of (totals_by_currency side entries) c ≡ running zero_decimal side c entries
unfolding totals_by_currency
total_of-totals_by_currency side entries c = total_of-totals_from entries [] side c

total_of-unknown :
    (totals : Totals) (c : String)
    → contains (currencies totals) c ≡ false
    → total_of totals c ≡ zero_decimal
total_of-unknown [] c h = refl
total_of-unknown ((k, v) ∷ rest) c h = ground (arith, total_of-unknown rest c)

contains-union :
    (xs ys : List String) (c : String) → contains xs c ≡ true → contains (union xs ys) c ≡ true
unfolding union
contains-union [] ys c h = absurd (cc)
contains-union (x ∷ rest) ys c h = ground (arith, contains-union rest ys c, str_eq_iff x c)

contains-union_right :
    (xs ys : List String) (c : String) → contains ys c ≡ true → contains (union xs ys) c ≡ true
unfolding union
contains-union_right [] ys c h = h
contains-union_right (x ∷ rest) ys c h = ground (arith, contains-union_right rest ys c)

mismatched_sound :
    (debits credits : Totals) (cs : List String) (c : String)
    → mismatched debits credits cs ≡ []
    → contains cs c ≡ true
    → dec_eq (total_of debits c) (total_of credits c) ≡ true
unfolding mismatched
mismatched_sound debits credits [] c h m = absurd (cc)
mismatched_sound debits credits (x ∷ rest) c h m =
    ground (arith, mismatched_sound debits credits rest c, str_eq_iff x c)

mismatched_complete :
    (debits credits : Totals) (cs : List String)
    → ((c : String) → dec_eq (total_of debits c) (total_of credits c) ≡ true)
    → mismatched debits credits cs ≡ []
unfolding mismatched
mismatched_complete debits credits [] h = refl
mismatched_complete debits credits (x ∷ rest) h =
    rw (h x) (mismatched_complete debits credits rest h)

-- Debits and credits agree in every currency.
abbrev pub IsBalanced : List LedgerEntry → Type 0
IsBalanced entries =
    (c : String)
    → dec_eq (running zero_decimal (some debit) c entries)
        (running zero_decimal (some credit) c entries)
      ≡ true

agree_everywhere :
    (debits credits : Totals)
    → mismatched debits credits (union (currencies debits) (union (currencies credits) [])) ≡ []
    → (c : String) → dec_eq (total_of debits c) (total_of credits c) ≡ true
unfolding dec_eq ◌-ℤ◌
agree_everywhere debits credits h c = elim (Bool-cases (contains (currencies debits) c)) [
  | inl known ↦ mismatched_sound debits credits _ c h (contains-union (currencies debits) _ c known)
  | inr new ↦ elim (Bool-cases (contains (currencies credits) c)) [
    | inl known ↦ mismatched_sound debits credits _ c h (
        contains-union_right (currencies debits) _ c
          (contains-union (currencies credits) [] c known))
    | inr other ↦ rw (total_of-unknown debits c new, total_of-unknown credits c other)
  ]
]

reject_mismatch-ok : (cs : List String) → (reject_mismatch cs ≡ ok tt) ↔ (cs ≡ [])
unfolding reject_mismatch
reject_mismatch-ok [] = (λ h. refl, λ h. refl)
reject_mismatch-ok (c ∷ rest) = (λ h. absurd (cc), λ h. absurd (cc))

-- The validation passes exactly when there are two entries and the debit and credit sums are equal
-- in every currency.
pub validate_transaction_entries_iff :
    (entries : List LedgerEntry)
    → (validate_transaction_entries entries ≡ ok tt) ↔ ((2 ≤ length entries) × IsBalanced entries)
unfolding validate_transaction_entries
validate_transaction_entries_iff entries =
    let debits = totals_by_currency (some debit) entries in
    let credits = totals_by_currency (some credit) entries in
    let cs = union (currencies debits) (union (currencies credits) []) in
    let d = total_of-totals_by_currency (some debit) entries in
    let k = total_of-totals_by_currency (some credit) entries in
    elim (Bool-cases (ltb (length entries) 2)) [
      | inl few ↦ (λ h. absurd (let bad = (rw few at h) in cc), λ h. ground arith)
      | inr enough ↦ (
        λ h. (
          ground arith,
          λ c.
              rw (← d c, ← k c)
                (agree_everywhere debits credits ((reject_mismatch-ok _).0 (rw enough at h)) c),
        ),
        λ h. rw enough (
            (reject_mismatch-ok _).1
              (mismatched_complete debits credits cs (λ c. rw (d c, k c) (h.1 c)))),
      )
    ]
