-- ===== src/Core/Chart/Valid.antt =====
-- `_validate_account_collection` accepts exactly the charts with distinct codes, known parents and
-- a root above every account.
use finest_vx.Prelude.{
  String, ◌≡◌, refl, ◌↔◌, true, Option, none, some, List, [], ◌∷◌, ◌++◌, arith, contains, All,
  Distinct, Avoids, Avoids-append, Avoids-append_inv, Avoids-nil, Bool-cases, inl, inr, ok, ◌>>=◌,
  >>=-eq-ok,
}
use finest_vx.Core.Types.{Account}
use finest_vx.Core.Chart.{
  codes, Walk, clean, exhausted, cycle, find_account_cycle, check_distinct, check_parent,
  check_parents, check_cycles, validate_account_collection, reject_cycle,
}
use finest_vx.Core.Chart.Walks.{IsRooted, find_account_cycle-clean, find_account_cycle_ends}

check_distinct_sound :
    (seen : List String) (accounts : List Account)
    → check_distinct seen accounts ≡ ok tt
    → Avoids seen (codes accounts) × Distinct (codes accounts)
unfolding check_distinct
check_distinct_sound seen [] h = (tt, tt)
check_distinct_sound seen (a ∷ rest) h = elim (Bool-cases (contains seen a.code)) [
  | inl old ↦ absurd (let bad = (rw old at h) in cc)
  | inr new ↦
      let (avoid, distinct) = check_distinct_sound (seen ++ a.code ∷ []) rest (rw new at h) in
      let (before, after) = Avoids-append_inv seen a.code (codes rest) avoid in
      ((new, before), (after, distinct))
]

check_distinct_complete :
    (seen : List String) (accounts : List Account)
    → Avoids seen (codes accounts)
    → Distinct (codes accounts)
    → check_distinct seen accounts ≡ ok tt
unfolding check_distinct
check_distinct_complete seen [] avoid distinct = refl
check_distinct_complete seen (a ∷ rest) (new, avoid) (after, distinct) = rw new (
    check_distinct_complete (seen ++ a.code ∷ []) rest
      (Avoids-append seen a.code (codes rest) after avoid) distinct)

-- The parent, where there is one, is known.
abbrev pub HasKnownParent : List String → Account → Type 0
HasKnownParent known a = (p : String) → a.parent_code ≡ some p → contains known p ≡ true

check_parent_iff :
    (known : List String) (a : Account) (o : Option String)
    → (check_parent known a o ≡ ok tt) ↔ ((p : String) → o ≡ some p → contains known p ≡ true)
unfolding check_parent
check_parent_iff known a none = (λ h p e. absurd (cc), λ h. refl)
check_parent_iff known a (some q) = (λ h p e. ground arith, λ h. ground (arith, h q refl))

check_parents_iff :
    (known : List String) (accounts : List Account)
    → (check_parents known accounts ≡ ok tt) ↔ All (HasKnownParent known) accounts
unfolding check_parents
check_parents_iff known [] = (λ h. tt, λ h. refl)
check_parents_iff known (a ∷ rest) = (
  λ h.
      let (u, first, others) =
        >>=-eq-ok (check_parent known a a.parent_code) (λ _. check_parents known rest) h in
      ((check_parent_iff known a a.parent_code).0 first, (check_parents_iff known rest).0 others),
  λ h. rw ((check_parent_iff known a a.parent_code).1 h.0) ((check_parents_iff known rest).1 h.1),
)

reject_cycle_iff : (w : Walk) → ¬ (w ≡ exhausted) → (reject_cycle w ≡ ok tt) ↔ (w ≡ clean)
unfolding reject_cycle
reject_cycle_iff clean ends = (λ h. refl, λ h. refl)
reject_cycle_iff exhausted ends = absurd (ends refl)
reject_cycle_iff (cycle path) ends = (λ h. absurd (cc), λ h. absurd (cc))

check_cycles_iff :
    (accounts : List Account) (cs : List String)
    → (check_cycles accounts cs ≡ ok tt) ↔ All (IsRooted accounts) cs
unfolding check_cycles
check_cycles_iff accounts [] = (λ h. tt, λ h. refl)
check_cycles_iff accounts (c ∷ rest) =
    let walk =
      reject_cycle_iff (find_account_cycle accounts c) (find_account_cycle_ends accounts c) in
    let rooted = find_account_cycle-clean accounts c in
    (
      λ h.
          let (u, first, others) =
            >>=-eq-ok (reject_cycle (find_account_cycle accounts c))
              (λ _. check_cycles accounts rest) h in
          (rooted.0 (walk.0 first), (check_cycles_iff accounts rest).0 others),
      λ h. rw (walk.1 (rooted.1 h.0)) ((check_cycles_iff accounts rest).1 h.1),
    )

-- A well-formed chart of accounts.
pub record IsChart (accounts : List Account) : Type 0 where
  pub distinct : Distinct (codes accounts)
  pub parents : All (HasKnownParent (codes accounts)) accounts
  pub rooted : All (IsRooted accounts) (codes accounts)

-- The validation passes exactly when no code stands twice, every parent is an account of the
-- chart, and from every account the parents lead to a root.
pub validate_account_collection_iff :
    (accounts : List Account) → (validate_account_collection accounts ≡ ok tt) ↔ IsChart accounts
unfolding validate_account_collection
validate_account_collection_iff accounts = (
  λ h.
      let (u, first, others) =
        >>=-eq-ok (check_distinct [] accounts)
          (λ _.
            check_parents (codes accounts) accounts >>= λ _. check_cycles accounts (codes accounts))
          h in
      let (v, second, third) =
        >>=-eq-ok (check_parents (codes accounts) accounts)
          (λ _. check_cycles accounts (codes accounts)) others in
      record {
        distinct = (check_distinct_sound [] accounts first).1;
        parents = (check_parents_iff (codes accounts) accounts).0 second;
        rooted = (check_cycles_iff accounts (codes accounts)).0 third;
      },
  λ c. rw (
    check_distinct_complete [] accounts (Avoids-nil (codes accounts)) c.distinct,
    (check_parents_iff (codes accounts) accounts).1 c.parents,
    (check_cycles_iff accounts (codes accounts)).1 c.rooted,
  ),
)
