-- ===== src/Validation.antt =====
-- validation/reports.py, and validate_book, validate_transaction and report_from_legislative_result of
-- validation/service.py, with validate_fx_conversion in a child. The reports on FTL resources are not modelled.
pub mod Accepted
pub mod Fx
use Prim.Native.String.{◌++◌ as str_append}
use finest_vx.Prelude.{
  String, Bool, true, false, ◌&&◌, not, List, [], ◌∷◌, ◌++◌, contains, ok, err, if◌then◌else◌,
}
use finest_vx.Core.Balance.{validate_transaction_balance}
use finest_vx.Core.Decimal.{Decimal}
use finest_vx.Core.Chart.{codes, validate_chart_of_accounts}
use finest_vx.Core.Errors.{Error, Result, integrity_check_failed}
use finest_vx.Core.Types.{LedgerEntry, JournalTransaction, Book}
use finest_vx.Persistence.Store.Results.{LegislativeIssue, LegislativeValidationResult}

pub data ValidationSeverity : Type 0 where
  error_severity warning info : ValidationSeverity

-- What the text of a finding is made of.
pub data Message : Type 0 where
  raised : Error → Message
  unknown_code : String → Message
  unknown_reference : String → String → Message
  text : String → Message
  fx_rate : Decimal → Message
  fx_currency : String → Message
  -- the debit total, the rate, their product and the credit total
  fx_totals : Decimal → Decimal → Decimal → Decimal → Message

pub record ValidationFinding : Type 0 where
  pub code : String
  pub message : Message
  pub severity : ValidationSeverity
  pub source : String

-- A ValidationReport is its findings.
abbrev pub ValidationReport : Type 0
ValidationReport = List ValidationFinding

abbrev pub is_error : ValidationSeverity → Bool
is_error error_severity = true
is_error _ = false

unfoldable pub accepted : ValidationReport → Bool
accepted [] = true
accepted (f ∷ rest) = not (is_error f.severity) && accepted rest

abbrev pub error_codes : ValidationReport → List String
error_codes [] = []
error_codes (f ∷ rest) = if is_error f.severity then f.code ∷ error_codes rest else error_codes rest

unfoldable pub require_valid : ValidationReport → Result (Unit {0})
unfolding accepted
require_valid r = if accepted r then ok tt else err (integrity_check_failed (error_codes r))

unfoldable pub report_from_exception : String → Error → String → ValidationReport
report_from_exception code x source =
    record { code = code; message = raised x; severity = error_severity; source = source } ∷ []

-- `except (TypeError, ValueError)` around a core check, and the report when it passes.
abbrev pub unless_refused :
    Result (Unit {0}) → String → String → ValidationReport → ValidationReport
unfolding report_from_exception
unless_refused (ok _) code source report = report
unless_refused (err x) code source report = report_from_exception code x source

abbrev pub unknown_account_finding : LedgerEntry → ValidationFinding
unknown_account_finding x = record {
  code = "TRANSACTION_UNKNOWN_ACCOUNT";
  message = unknown_code x.account_code;
  severity = error_severity;
  source = "core.transaction";
}

abbrev pub unknown_reference_finding : String → LedgerEntry → ValidationFinding
unknown_reference_finding reference x = record {
  code = "BOOK_UNKNOWN_ACCOUNT_REFERENCE";
  message = unknown_reference reference x.account_code;
  severity = error_severity;
  source = "core.book";
}

-- A finding for each entry whose account is not known.
unfoldable pub unknown_accounts :
    (LedgerEntry → ValidationFinding) → List String → List LedgerEntry → ValidationReport
unknown_accounts finding known [] = []
unknown_accounts finding known (x ∷ rest) =
    let onward = unknown_accounts finding known rest in
    if contains known x.account_code then onward else finding x ∷ onward

unfoldable pub validate_transaction : Book → JournalTransaction → ValidationReport
unfolding unknown_accounts
validate_transaction b t =
    unless_refused (validate_transaction_balance t) "TRANSACTION_BALANCE_INVALID" "core.transaction"
      (unknown_accounts unknown_account_finding (codes b.accounts) t.entries)

-- The loop over the transactions.
unfoldable pub transaction_findings : Book → List JournalTransaction → ValidationReport
transaction_findings b [] = []
transaction_findings b (t ∷ rest) =
    validate_transaction b t
    ++ (unknown_accounts (unknown_reference_finding t.reference) (codes b.accounts) t.entries
        ++ transaction_findings b rest)

unfoldable pub validate_book : Book → ValidationReport
unfolding transaction_findings
validate_book b =
    unless_refused (validate_chart_of_accounts b.accounts) "BOOK_CHART_INVALID" "core.book"
      (transaction_findings b b.transactions)

unfoldable pub report_from_issues : String → List LegislativeIssue → ValidationReport
report_from_issues source [] = []
report_from_issues source (i ∷ rest) =
    record { code = i.code; message = text i.message; severity = error_severity; source = source }
    ∷ report_from_issues source rest

unfoldable pub report_from_legislative_result : LegislativeValidationResult → ValidationReport
unfolding report_from_issues
report_from_legislative_result r =
    report_from_issues (str_append "legislation." r.pack_code) r.issues
