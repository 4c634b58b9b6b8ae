-- ===== src/Core/Periods/Valid.antt =====
-- `_validate_period_collection` accepts exactly the distinct periods whose date ranges are disjoint.
use finest_vx.Prelude.{
  ◌≤◌, ◌<◌, ◌≡◌, refl, ◌↔◌, inl, inr, true, false, ◌||◌, List, [], ◌∷◌, ◌++◌, arith, leb, All,
  Bool-cases, ok, >>=-eq-ok,
}
use finest_vx.Core.Types.{BookPeriod, FiscalPeriod, period_eq}
use finest_vx.Core.Periods.{
  has_period, check_periods, key_le, insert_period, sort_periods, check_pairwise, check_ordered,
  validate_period_collection,
}
use finest_vx.Core.Periods.Disjoint.{
  AreDisjoint, IsRange, PairwiseDisjoint, All-insert, All-sort, sort-PairwiseDisjoint,
}

-- Ordered by start date.
abbrev StartsAfter : BookPeriod → BookPeriod → Type 0
StartsAfter p q = p.start_date ≤ q.start_date

abbrev IsOrdered : List BookPeriod → Type 0
IsOrdered [] = Unit
IsOrdered (p ∷ rest) = All (StartsAfter p) rest × IsOrdered rest

key_le-starts : (p q : BookPeriod) → key_le p q ≡ true → StartsAfter p q
unfolding key_le
key_le-starts p q h = ground arith

not_key_le-starts : (p q : BookPeriod) → key_le p q ≡ false → StartsAfter q p
unfolding key_le
not_key_le-starts p q h = ground arith

All-StartsAfter_trans :
    (p q : BookPeriod) (xs : List BookPeriod)
    → StartsAfter p q
    → All (StartsAfter q) xs
    → All (StartsAfter p) xs
All-StartsAfter_trans p q [] le h = tt
All-StartsAfter_trans p q (x ∷ xs) le (h, hs) = (omega arith, All-StartsAfter_trans p q xs le hs)

insert-IsOrdered :
    (p : BookPeriod) (xs : List BookPeriod) → IsOrdered xs → IsOrdered (insert_period p xs)
unfolding insert_period
insert-IsOrdered p [] h = (tt, tt)
insert-IsOrdered p (q ∷ rest) (after, h) = elim (Bool-cases (key_le p q)) [
  | inl le ↦
      let first = key_le-starts p q le in
      rw le ((first, All-StartsAfter_trans p q rest first after), (after, h))
  | inr gt ↦ rw gt (
    All-insert (StartsAfter q) p rest (not_key_le-starts p q gt) after,
    insert-IsOrdered p rest h,
  )
]

sort-IsOrdered : (xs : List BookPeriod) → IsOrdered (sort_periods xs)
unfolding sort_periods
sort-IsOrdered [] = tt
sort-IsOrdered (p ∷ rest) = insert-IsOrdered p (sort_periods rest) (sort-IsOrdered rest)

before_all :
    (p q : BookPeriod) (xs : List BookPeriod)
    → p.end_date < q.start_date
    → All (StartsAfter q) xs
    → All (AreDisjoint p) xs
before_all p q [] lt h = tt
before_all p q (x ∷ xs) lt (h, hs) = (inl (omega arith), before_all p q xs lt hs)

-- On a sorted list of ranges the test of neighbours decides disjointness of all.
check_pairwise_iff :
    (p : BookPeriod) (xs : List BookPeriod)
    → IsOrdered (p ∷ xs)
    → All IsRange (p ∷ xs)
    → (check_pairwise p xs ≡ ok tt) ↔ PairwiseDisjoint (p ∷ xs)
unfolding check_pairwise
check_pairwise_iff p [] o r = (λ h. (tt, tt), λ h. refl)
check_pairwise_iff p (q ∷ rest) ((le, after), o) (r, rs) =
    let onward = check_pairwise_iff q rest o rs in
    elim (Bool-cases (leb q.start_date p.end_date)) [
      | inl overlap ↦
          (λ h. absurd (let bad = (rw overlap at h) in cc), λ h. absurd (ground (arith, h.0.0)))
      | inr apart ↦ (
        λ h. (
          (inl (ground arith), before_all p q rest (ground arith) o.0),
          onward.0 (rw apart at h),
        ),
        λ h. rw apart (onward.1 h.1),
      )
    ]

check_ordered_iff :
    (xs : List BookPeriod)
    → IsOrdered xs
    → All IsRange xs
    → (check_ordered xs ≡ ok tt) ↔ PairwiseDisjoint xs
unfolding check_ordered
check_ordered_iff [] o r = (λ h. tt, λ h. refl)
check_ordered_iff (p ∷ rest) o r = check_pairwise_iff p rest o r

abbrev pub NotSeen : List FiscalPeriod → BookPeriod → Type 0
NotSeen seen q = has_period seen q.period ≡ false

-- No fiscal period stands twice.
abbrev pub DistinctPeriods : List BookPeriod → Type 0
DistinctPeriods [] = Unit
DistinctPeriods (p ∷ rest) =
    All (λ q. period_eq p.period q.period ≡ false) rest × DistinctPeriods rest

has_period-append :
    (seen : List FiscalPeriod) (p q : FiscalPeriod)
    → has_period (seen ++ p ∷ []) q ≡ (has_period seen q || period_eq p q)
has_period-append [] p q = ground arith
has_period-append (x ∷ seen) p q = ground (arith, has_period-append seen p q)

NotSeen-split :
    (seen : List FiscalPeriod) (p : FiscalPeriod) (xs : List BookPeriod)
    → All (NotSeen (seen ++ p ∷ [])) xs
      ↔ (All (NotSeen seen) xs × All (λ q. period_eq p q.period ≡ false) xs)
NotSeen-split seen p [] = (λ h. (tt, tt), λ h. tt)
NotSeen-split seen p (x ∷ xs) =
    let rest = NotSeen-split seen p xs in
    let here = has_period-append seen p x.period in
    (
      λ h.
          let (a, b) = rest.0 h.1 in
          ((ground (arith, here, h.0), a), (ground (arith, here, h.0), b)),
      λ h. (ground (arith, here, h.0.0, h.1.0), rest.1 (h.0.1, h.1.1)),
    )

check_periods_iff :
    (seen : List FiscalPeriod) (xs : List BookPeriod)
    → (check_periods seen xs ≡ ok tt) ↔ (All (NotSeen seen) xs × DistinctPeriods xs)
unfolding check_periods
check_periods_iff seen [] = (λ h. (tt, tt), λ h. refl)
check_periods_iff seen (p ∷ rest) =
    let onward = check_periods_iff (seen ++ p.period ∷ []) rest in
    let split = NotSeen-split seen p.period rest in
    elim (Bool-cases (has_period seen p.period)) [
      | inl old ↦ (λ h. absurd (let bad = (rw old at h) in cc), λ h. absurd (let bad = h.0.0 in cc))
      | inr new ↦ (
        λ h.
            let (fresh, distinct) = onward.0 (rw new at h) in
            let (before, here) = split.0 fresh in ((new, before), (here, distinct)),
        λ h. rw new (onward.1 (split.1 (h.0.1, h.1.0), h.1.1)),
      )
    ]

NotSeen-nil : (xs : List BookPeriod) → All (NotSeen []) xs
NotSeen-nil [] = tt
NotSeen-nil (x ∷ xs) = (refl, NotSeen-nil xs)

-- For periods that each end on or after their start, the validation passes exactly when no fiscal
-- period stands twice and no two date ranges have a common day.
pub validate_period_collection_iff :
    (periods : List BookPeriod)
    → All IsRange periods
    → (validate_period_collection periods ≡ ok tt)
      ↔ (DistinctPeriods periods × PairwiseDisjoint periods)
unfolding validate_period_collection
validate_period_collection_iff periods ranges =
    let distinct = check_periods_iff [] periods in
    let sorted =
      check_ordered_iff (sort_periods periods) (sort-IsOrdered periods)
        (All-sort IsRange periods ranges) in
    (
      λ h.
          let (u, first, second) =
            >>=-eq-ok (check_periods [] periods) (λ _. check_ordered (sort_periods periods)) h in
          ((distinct.0 first).1, (sort-PairwiseDisjoint periods).0 (sorted.0 second)),
      λ h.
          rw (distinct.1 (NotSeen-nil periods, h.0))
            (sorted.1 ((sort-PairwiseDisjoint periods).1 h.1)),
    )
