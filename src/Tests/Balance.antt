-- ===== src/Tests/Balance.antt =====
-- The entries of the sale of the small book.
use finest_vx.Prelude.{◌≡◌, refl, ◌≤◌, ◌↔◌, List, [], ◌∷◌, map, ok, length}
use finest_vx.Prelude.Int.{◌-ℤ◌}
use finest_vx.Core.Balance.{
  validate_transaction_entries, totals_by_currency, counts, totals_from, add_total, union,
  mismatched, reject_mismatch,
}
use finest_vx.Core.Balance.Totals.{IsBalanced, validate_transaction_entries_iff}
use finest_vx.Core.Balance.Reversal.{invert, validate-invert}
use finest_vx.Core.Decimal.{add, dec_eq, signed_sum, round_context}
use finest_vx.Core.Types.{LedgerEntry, side_eq}
use finest_vx.Tests.Fixtures.{received, sold}

abbrev entries : List LedgerEntry
entries = received ∷ sold ∷ []

validate_transaction_entries_iff_example :
    (validate_transaction_entries entries ≡ ok tt) ↔ ((2 ≤ length entries) × IsBalanced entries)
validate_transaction_entries_iff_example = validate_transaction_entries_iff entries

entries-pass : validate_transaction_entries entries ≡ ok tt
unfolding validate_transaction_entries totals_by_currency totals_from add_total counts union
    mismatched reject_mismatch add dec_eq signed_sum round_context side_eq ◌-ℤ◌
entries-pass = refl

validate-invert_example : validate_transaction_entries (map invert entries) ≡ ok tt
validate-invert_example = validate-invert entries entries-pass
