-- ===== src/Core/Periods.antt =====
-- core/models.py `_validate_period_collection`.
pub mod Disjoint
pub mod Valid
use finest_vx.Prelude.{
  Bool, false, ◌&&◌, ◌||◌, List, [], ◌∷◌, ◌++◌, ltb, leb, ◌==◌, ok, err, ◌>>=◌, ◌>>◌, if◌then◌else◌,
}
use finest_vx.Core.Errors.{value_error, Result, duplicate_period, overlapping_periods}
use finest_vx.Core.Types.{FiscalPeriod, BookPeriod, period_eq}

-- `period in periods`
abbrev pub has_period : List FiscalPeriod → FiscalPeriod → Bool
has_period [] q = false
has_period (p ∷ rest) q = period_eq p q || has_period rest q

unfoldable pub check_periods : List FiscalPeriod → List BookPeriod → Result (Unit {0})
check_periods seen [] = ok tt
check_periods seen (p ∷ rest) =
    let onward = check_periods (seen ++ p.period ∷ []) rest in
    if has_period seen p.period then err (value_error (duplicate_period p.period)) else onward

-- The key `(start_date, end_date)`, compared as tuples.
unfoldable pub key_le : BookPeriod → BookPeriod → Bool
key_le p q =
    ltb p.start_date q.start_date || (p.start_date == q.start_date && leb p.end_date q.end_date)

-- `sorted(periods, key=...)`: stable.
unfoldable pub insert_period : BookPeriod → List BookPeriod → List BookPeriod
insert_period p [] = p ∷ []
insert_period p (q ∷ rest) = if key_le p q then p ∷ q ∷ rest else q ∷ insert_period p rest

unfoldable pub sort_periods : List BookPeriod → List BookPeriod
unfolding insert_period key_le
sort_periods [] = []
sort_periods (p ∷ rest) = insert_period p (sort_periods rest)

-- The loop over `pairwise(ordered_periods)`.
unfoldable pub check_pairwise : BookPeriod → List BookPeriod → Result (Unit {0})
check_pairwise previous [] = ok tt
check_pairwise previous (current ∷ rest) =
    let onward = check_pairwise current rest in
    if leb current.start_date previous.end_date
    then err (value_error (overlapping_periods previous.period current.period))
    else onward

unfoldable pub check_ordered : List BookPeriod → Result (Unit {0})
unfolding check_pairwise
check_ordered [] = ok tt
check_ordered (p ∷ rest) = check_pairwise p rest

unfoldable pub validate_period_collection : List BookPeriod → Result (Unit {0})
validate_period_collection periods = do
  check_periods [] periods
  check_ordered (sort_periods periods)
