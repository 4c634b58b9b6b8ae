-- ===== src/Core/Periods/Disjoint.antt =====
-- Disjoint date ranges, and that sorting the periods keeps what holds of all or of any two.
use finest_vx.Prelude.{◌≤◌, ◌<◌, ◌↔◌, ◌⊎◌, inl, inr, List, [], ◌∷◌, All, Bool-cases}
use finest_vx.Core.Types.{BookPeriod}
use finest_vx.Core.Periods.{key_le, insert_period, sort_periods}

-- The ranges have no common day.
abbrev pub AreDisjoint : BookPeriod → BookPeriod → Type 0
AreDisjoint p q = (p.end_date < q.start_date) ⊎ (q.end_date < p.start_date)

abbrev pub IsRange : BookPeriod → Type 0
IsRange p = p.start_date ≤ p.end_date

-- Any two periods of the list, by position.
abbrev pub PairwiseDisjoint : List BookPeriod → Type 0
PairwiseDisjoint [] = Unit
PairwiseDisjoint (p ∷ rest) = All (AreDisjoint p) rest × PairwiseDisjoint rest

AreDisjoint-symm : (p q : BookPeriod) → AreDisjoint p q → AreDisjoint q p
AreDisjoint-symm p q (inl h) = inr h
AreDisjoint-symm p q (inr h) = inl h

-- Inserting keeps what holds of all, both ways.
module _ (P : BookPeriod → Type 0) where
  pub All-insert :
      (p : BookPeriod) (xs : List BookPeriod) → P p → All P xs → All P (insert_period p xs)
  unfolding insert_period
  All-insert p [] h k = (h, tt)
  All-insert p (q ∷ rest) h (k, ks) = elim (Bool-cases (key_le p q)) [
    | inl le ↦ rw le (h, (k, ks))
    | inr gt ↦ rw gt (k, All-insert p rest h ks)
  ]

  All-insert_inv :
      (p : BookPeriod) (xs : List BookPeriod) → All P (insert_period p xs) → P p × All P xs
  unfolding insert_period
  All-insert_inv p [] h = h
  All-insert_inv p (q ∷ rest) h = elim (Bool-cases (key_le p q)) [
    | inl le ↦ let (a, b) = (rw le at h) in (a, b)
    | inr gt ↦ let (a, b) = (rw gt at h) in let (c, d) = All-insert_inv p rest b in (c, (a, d))
  ]

  pub All-sort : (xs : List BookPeriod) → All P xs → All P (sort_periods xs)
  unfolding sort_periods
  All-sort [] h = tt
  All-sort (p ∷ rest) (h, hs) = All-insert p (sort_periods rest) h (All-sort rest hs)

  All-sort_inv : (xs : List BookPeriod) → All P (sort_periods xs) → All P xs
  unfolding sort_periods
  All-sort_inv [] h = tt
  All-sort_inv (p ∷ rest) h =
      let (a, b) = All-insert_inv p (sort_periods rest) h in (a, All-sort_inv rest b)

insert-PairwiseDisjoint :
    (p : BookPeriod) (xs : List BookPeriod)
    → All (AreDisjoint p) xs
    → PairwiseDisjoint xs
    → PairwiseDisjoint (insert_period p xs)
unfolding insert_period
insert-PairwiseDisjoint p [] h d = (tt, tt)
insert-PairwiseDisjoint p (q ∷ rest) (h, hs) (k, d) = elim (Bool-cases (key_le p q)) [
  | inl le ↦ rw le ((h, hs), (k, d))
  | inr gt ↦ rw gt (
    All-insert (AreDisjoint q) p rest (AreDisjoint-symm p q h) k,
    insert-PairwiseDisjoint p rest hs d,
  )
]

insert-PairwiseDisjoint_inv :
    (p : BookPeriod) (xs : List BookPeriod)
    → PairwiseDisjoint (insert_period p xs)
    → All (AreDisjoint p) xs × PairwiseDisjoint xs
unfolding insert_period
insert-PairwiseDisjoint_inv p [] h = (tt, tt)
insert-PairwiseDisjoint_inv p (q ∷ rest) h = elim (Bool-cases (key_le p q)) [
  | inl le ↦ let (a, b) = (rw le at h) in (a, b)
  | inr gt ↦
      let (a, b) = (rw gt at h) in
      let (c, d) = insert-PairwiseDisjoint_inv p rest b in
      let (f, g) = All-insert_inv (AreDisjoint q) p rest a in ((AreDisjoint-symm q p f, c), (g, d))
]

pub sort-PairwiseDisjoint :
    (xs : List BookPeriod) → PairwiseDisjoint (sort_periods xs) ↔ PairwiseDisjoint xs
unfolding sort_periods
sort-PairwiseDisjoint [] = (λ h. h, λ h. h)
sort-PairwiseDisjoint (p ∷ rest) = (
  λ h.
      let (a, b) = insert-PairwiseDisjoint_inv p (sort_periods rest) h in
      (All-sort_inv (AreDisjoint p) rest a, (sort-PairwiseDisjoint rest).0 b),
  λ h.
      insert-PairwiseDisjoint p (sort_periods rest) (All-sort (AreDisjoint p) rest h.0)
        ((sort-PairwiseDisjoint rest).1 h.1),
)
