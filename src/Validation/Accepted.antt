-- ===== src/Validation/Accepted.antt =====
-- Which books a validation report accepts.
use finest_vx.Prelude.{
  ◌≤◌, String, ◌≡◌, refl, ◌↔◌, true, ◌&&◌, List, [], ◌∷◌, ◌++◌, arith, All, contains, length,
  Outcome-cases, Bool-cases, inl, inr,
}
use finest_vx.Core.Balance.{validate_transaction_entries, validate_transaction_balance}
use finest_vx.Core.Balance.Totals.{IsBalanced, validate_transaction_entries_iff}
use finest_vx.Core.Chart.{codes, validate_account_collection, validate_chart_of_accounts}
use finest_vx.Core.Chart.Valid.{IsChart, validate_account_collection_iff}
use finest_vx.Core.Types.{LedgerEntry, JournalTransaction, Book}
use finest_vx.Validation.{
  ValidationFinding, ValidationReport, accepted, error_severity, unknown_accounts,
  unknown_account_finding, unknown_reference_finding, validate_transaction, transaction_findings,
  validate_book, report_from_exception,
}

accepted-append : (xs ys : ValidationReport) → accepted (xs ++ ys) ≡ (accepted xs && accepted ys)
unfolding accepted
accepted-append [] ys = refl
accepted-append (x ∷ xs) ys = ground (arith, accepted-append xs ys)

abbrev pub KnownAccounts : List String → List LedgerEntry → Type 0
KnownAccounts known = All (λ x. contains known x.account_code ≡ true)

unknown_accounts_iff :
    (finding : LedgerEntry → ValidationFinding) (known : List String) (xs : List LedgerEntry)
    → ((x : LedgerEntry) → (finding x).severity ≡ error_severity)
    → (accepted (unknown_accounts finding known xs) ≡ true) ↔ KnownAccounts known xs
unfolding accepted unknown_accounts
unknown_accounts_iff finding known [] errors = (λ h. tt, λ h. refl)
unknown_accounts_iff finding known (x ∷ rest) errors =
    elim (Bool-cases (contains known x.account_code)) [
      | inl old ↦ (
        λ h. (old, (unknown_accounts_iff finding known rest errors).0 (rw old at h)),
        λ h. rw old ((unknown_accounts_iff finding known rest errors).1 h.1),
      )
      | inr new ↦ (
        λ h. absurd (let bad = (rw (new, errors x) at h) in cc),
        λ h. absurd (let bad = h.0 in cc),
      )
    ]

-- Two entries at least, balanced, with accounts of the book.
abbrev pub IsSoundTransaction : Book → JournalTransaction → Type 0
IsSoundTransaction b t =
    ((2 ≤ length t.entries) × IsBalanced t.entries) × KnownAccounts (codes b.accounts) t.entries

validate_transaction_iff :
    (b : Book) (t : JournalTransaction)
    → (accepted (validate_transaction b t) ≡ true) ↔ IsSoundTransaction b t
unfolding validate_transaction validate_transaction_balance report_from_exception accepted
validate_transaction_iff b t =
    let known =
      unknown_accounts_iff unknown_account_finding (codes b.accounts) t.entries (λ x. refl) in
    let balance = validate_transaction_entries_iff t.entries in
    elim (Outcome-cases (validate_transaction_entries t.entries)) [
      | inl (u, passes) ↦
          (λ h. (balance.0 passes, known.0 (rw passes at h)), λ h. rw passes (known.1 h.1))
      | inr (x, refused) ↦ (
        λ h. absurd (let bad = (rw refused at h) in cc),
        λ h. absurd (let good = balance.1 h.0 in cc),
      )
    ]

transaction_findings_iff :
    (b : Book) (ts : List JournalTransaction)
    → (accepted (transaction_findings b ts) ≡ true) ↔ All (IsSoundTransaction b) ts
unfolding transaction_findings accepted
transaction_findings_iff b [] = (λ h. tt, λ h. refl)
transaction_findings_iff b (t ∷ rest) =
    let again =
      unknown_accounts (unknown_reference_finding t.reference) (codes b.accounts) t.entries in
    let known =
      unknown_accounts_iff (unknown_reference_finding t.reference) (codes b.accounts) t.entries
        (λ x. refl) in
    let first = accepted-append (validate_transaction b t) (again ++ transaction_findings b rest) in
    let second = accepted-append again (transaction_findings b rest) in
    (
      λ h.
          let one : accepted (validate_transaction b t) ≡ true = ground arith in
          let two : accepted (transaction_findings b rest) ≡ true = ground arith in
          ((validate_transaction_iff b t).0 one, (transaction_findings_iff b rest).0 two),
      λ h.
          let one = (validate_transaction_iff b t).1 h.0 in
          let two = known.1 h.0.1 in
          let three = (transaction_findings_iff b rest).1 h.1 in ground arith,
    )

-- The report on a book is accepted exactly when its chart is well-formed and every transaction has
-- two entries, is balanced and uses accounts of the chart.
pub validate_book-accepted :
    (b : Book)
    → (accepted (validate_book b) ≡ true)
      ↔ (IsChart b.accounts × All (IsSoundTransaction b) b.transactions)
unfolding validate_book validate_chart_of_accounts report_from_exception accepted
validate_book-accepted b =
    let chart = validate_account_collection_iff b.accounts in
    let sound = transaction_findings_iff b b.transactions in
    elim (Outcome-cases (validate_account_collection b.accounts)) [
      | inl (u, passes) ↦
          (λ h. (chart.0 passes, sound.0 (rw passes at h)), λ h. rw passes (sound.1 h.1))
      | inr (x, refused) ↦ (
        λ h. absurd (let bad = (rw refused at h) in cc),
        λ h. absurd (let good = chart.1 h.0 in cc),
      )
    ]
