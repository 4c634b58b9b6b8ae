-- ===== src/Tests/Chart.antt =====
-- The chart of accounts and the periods of the small book.
use finest_vx.Prelude.{◌≡◌, ◌≢◌, ◌↔◌, List, [], ◌∷◌, arith, ok}
use finest_vx.Core.Chart.{find_account_cycle, clean, exhausted, validate_account_collection}
use finest_vx.Core.Chart.Walks.{find_account_cycle_ends, IsRooted, find_account_cycle-clean}
use finest_vx.Core.Chart.Valid.{IsChart, validate_account_collection_iff}
use finest_vx.Core.Periods.{validate_period_collection}
use finest_vx.Core.Periods.Disjoint.{PairwiseDisjoint}
use finest_vx.Core.Periods.Valid.{DistinctPeriods, validate_period_collection_iff}
use finest_vx.Core.Types.{Account, BookPeriod}
use finest_vx.Tests.Fixtures.{cash, sales, first_period, second_period}

abbrev accounts : List Account
accounts = cash ∷ sales ∷ []

abbrev periods : List BookPeriod
periods = second_period ∷ first_period ∷ []

validate_account_collection_iff_example :
    (validate_account_collection accounts ≡ ok tt) ↔ IsChart accounts
validate_account_collection_iff_example = validate_account_collection_iff accounts

find_account_cycle_ends_example : find_account_cycle accounts "4000" ≢ exhausted
find_account_cycle_ends_example = find_account_cycle_ends accounts "4000"

find_account_cycle-clean_example :
    (find_account_cycle accounts "4000" ≡ clean) ↔ IsRooted accounts "4000"
find_account_cycle-clean_example = find_account_cycle-clean accounts "4000"

validate_period_collection_iff_example :
    (validate_period_collection periods ≡ ok tt)
    ↔ (DistinctPeriods periods × PairwiseDisjoint periods)
validate_period_collection_iff_example =
    validate_period_collection_iff periods (omega arith, (omega arith, tt))
