-- ===== src/Legislation/Latvia.antt =====
-- legislation/lv/standard_2026.py `validate_transaction`, and `accepted` and `require_valid` of
-- legislation/protocols.py. The texts of the issues are the constants of the source.
use finest_vx.Prelude.{
  ℕ, suc, String, ◌≡◌, refl, ◌↔◌, Bool, true, false, not, Option, none, some, List, [], ◌∷◌, ◌++◌,
  map, arith, All, str_eq, str_eq_iff, ok, err, Bool-cases, inl, inr, if◌then◌else◌,
}
use finest_vx.Prelude.Int.{negsuc}
use finest_vx.Core.Decimal.{Decimal, finite, dec_eq}
use finest_vx.Core.Errors.{Result, integrity_check_failed}
use finest_vx.Core.Types.{LedgerEntry, JournalTransaction, Book}
use finest_vx.Persistence.Store.Results.{LegislativeIssue, LegislativeValidationResult}

-- 0.21
abbrev pub standard_vat_rate : Decimal
standard_vat_rate = finite false 21 (negsuc 1)

abbrev pub no_issues : List LegislativeIssue → Bool
no_issues [] = true
no_issues (i ∷ rest) = false

unfoldable pub accepted : LegislativeValidationResult → Bool
accepted r = no_issues r.issues

unfoldable pub require_valid : LegislativeValidationResult → Result (Unit {0})
unfolding accepted
require_valid r =
    if accepted r then ok tt else err (integrity_check_failed (map (λ i. i.code) r.issues))

abbrev pub rate_issue : ℕ → LegislativeIssue
rate_issue index = record {
  code = "LV_STANDARD_VAT_RATE_MISMATCH";
  message =
      "Latvia standard 2026 stub currently accepts only a 21 percent VAT rate on explicitly taxed entries.";
  entry_index = some index;
}

abbrev pub pack_issue : LegislativeIssue
pack_issue = record {
  code = "LV_PACK_CODE_MISMATCH";
  message =
      "Book legislative_pack must match the Latvia standard 2026 pack code when this pack validates the transaction.";
  entry_index = none;
}

-- The test on one entry.
unfoldable pub has_wrong_rate : Option Decimal → Bool
has_wrong_rate none = false
has_wrong_rate (some rate) = not (dec_eq rate standard_vat_rate)

-- The loop over `enumerate(transaction.entries)`.
unfoldable pub rate_issues : ℕ → List LedgerEntry → List LegislativeIssue
rate_issues index [] = []
rate_issues index (x ∷ rest) =
    let onward = rate_issues (suc index) rest in
    if has_wrong_rate x.tax_rate then rate_issue index ∷ onward else onward

unfoldable pub validate_transaction :
    String → Book → JournalTransaction → LegislativeValidationResult
unfolding rate_issues
validate_transaction pack_code b t = record {
  pack_code = pack_code;
  issues =
      if str_eq b.legislative_pack pack_code
      then rate_issues 0 t.entries
      else rate_issues 0 t.entries ++ pack_issue ∷ [];
}

-- The entry has no rate or the standard one.
abbrev pub HasStandardRate : LedgerEntry → Type 0
HasStandardRate x = (rate : Decimal) → x.tax_rate ≡ some rate → dec_eq rate standard_vat_rate ≡ true

has_wrong_rate_iff :
    (o : Option Decimal)
    → (has_wrong_rate o ≡ false)
      ↔ ((rate : Decimal) → o ≡ some rate → dec_eq rate standard_vat_rate ≡ true)
unfolding has_wrong_rate
has_wrong_rate_iff none = (λ h rate e. absurd (cc), λ h. refl)
has_wrong_rate_iff (some r) = (λ h rate e. ground arith, λ h. ground (arith, h r refl))

rate_issues_iff :
    (index : ℕ) (xs : List LedgerEntry)
    → (no_issues (rate_issues index xs) ≡ true) ↔ All HasStandardRate xs
unfolding rate_issues
rate_issues_iff index [] = (λ h. tt, λ h. refl)
rate_issues_iff index (x ∷ rest) = (
  λ h.
      let right : has_wrong_rate x.tax_rate ≡ false = ground arith in
      (
        (has_wrong_rate_iff x.tax_rate).0 right,
        (rate_issues_iff (suc index) rest).0 (rw right at h),
      ),
  λ h. rw ((has_wrong_rate_iff x.tax_rate).1 h.0) ((rate_issues_iff (suc index) rest).1 h.1),
)

no_issues-last :
    (xs : List LegislativeIssue) (i : LegislativeIssue) → no_issues (xs ++ i ∷ []) ≡ false
no_issues-last [] i = refl
no_issues-last (x ∷ xs) i = refl

-- The pack accepts a transaction exactly when every taxed entry has the rate of 21 percent and the
-- book names the pack.
pub validate_transaction-accepted :
    (pack_code : String) (b : Book) (t : JournalTransaction)
    → (accepted (validate_transaction pack_code b t) ≡ true)
      ↔ (All HasStandardRate t.entries × (b.legislative_pack ≡ pack_code))
unfolding accepted validate_transaction
validate_transaction-accepted pack_code b t =
    elim (Bool-cases (str_eq b.legislative_pack pack_code)) [
      | inl same ↦ (
        λ h. (
          (rate_issues_iff 0 t.entries).0 (rw same at h),
          (str_eq_iff b.legislative_pack pack_code).0 same,
        ),
        λ h. rw same ((rate_issues_iff 0 t.entries).1 h.0),
      )
      | inr other ↦ (
        λ h. absurd (
            let bad = (rw (other, no_issues-last (rate_issues 0 t.entries) pack_issue) at h) in cc),
        λ h. absurd (let same = (str_eq_iff b.legislative_pack pack_code).1 h.1 in cc),
      )
    ]
