-- ===== src/Core/Chart.antt =====
-- core/models.py `_find_account_cycle` and `_validate_account_collection`, with the helpers of
-- core/validation.py over them. The sets and dictionaries of the source are lists; where it goes
-- through a set, the model goes through the codes in the order of the accounts.
pub mod Walks
pub mod Valid
use finest_vx.Prelude.{
  ℕ, zero, suc, ◌+◌, String, not, Option, none, some, List, [], ◌∷◌, ◌++◌, map, str_eq, contains,
  length, ok, err, ◌>>◌, raise_if, if◌then◌else◌,
}
use finest_vx.Core.Errors.{value_error, Result, duplicate_account, missing_parent, account_cycle}
use finest_vx.Core.Types.{Account}

abbrev pub codes : List Account → List String
codes = map (λ a. a.code)

-- The parent that `parent_map.get(code)` gives. The codes are distinct when it is used.
abbrev pub parent_of : List Account → String → Option String
parent_of [] c = none
parent_of (a ∷ rest) c = if str_eq a.code c then a.parent_code else parent_of rest c

-- `path[path.index(code):]`
unfoldable pub from_first : String → List String → List String
from_first c [] = []
from_first c (x ∷ rest) = if str_eq x c then x ∷ rest else from_first c rest

-- How a walk up the hierarchy ends; `exhausted` only if the fuel was too small.
pub data Walk : Type 0 where
  clean exhausted : Walk
  cycle : List String → Walk

-- The `while` loop: `path` holds the codes seen, oldest first.
unfoldable pub climb : ℕ → List Account → List String → Option String → Walk
climb fuel accounts path none = clean
climb zero accounts path (some c) = exhausted
climb (suc fuel) accounts path (some c) =
    let onward = climb fuel accounts (path ++ c ∷ []) (parent_of accounts c) in
    if contains path c then cycle (from_first c path ++ c ∷ []) else onward

unfoldable pub find_account_cycle : List Account → String → Walk
find_account_cycle accounts code = climb (length accounts + 2) accounts [] (some code)

-- The first loop: no code twice.
unfoldable pub check_distinct : List String → List Account → Result (Unit {0})
check_distinct seen [] = ok tt
check_distinct seen (a ∷ rest) =
    let onward = check_distinct (seen ++ a.code ∷ []) rest in
    if contains seen a.code then err (value_error (duplicate_account a.code)) else onward

-- The second loop: every parent is an account.
unfoldable pub check_parent : List String → Account → Option String → Result (Unit {0})
check_parent known a none = ok tt
check_parent known a (some p) =
    raise_if (not (contains known p)) (value_error (missing_parent a.code p))

unfoldable pub check_parents : List String → List Account → Result (Unit {0})
unfolding check_parent
check_parents known [] = ok tt
check_parents known (a ∷ rest) = do check_parent known a a.parent_code; check_parents known rest

unfoldable pub reject_cycle : Walk → Result (Unit {0})
reject_cycle (cycle path) = err (value_error (account_cycle path))
reject_cycle _ = ok tt

-- The third loop: no code lies on a cycle.
unfoldable pub check_cycles : List Account → List String → Result (Unit {0})
unfolding reject_cycle
check_cycles accounts [] = ok tt
check_cycles accounts (c ∷ rest) = do
  reject_cycle (find_account_cycle accounts c)
  check_cycles accounts rest

unfoldable pub validate_account_collection : List Account → Result (Unit {0})
validate_account_collection accounts = do
  check_distinct [] accounts
  check_parents (codes accounts) accounts
  check_cycles accounts (codes accounts)

-- core/validation.py
unfoldable pub validate_chart_of_accounts : List Account → Result (Unit {0})
validate_chart_of_accounts accounts = validate_account_collection accounts
