-- ===== src/Core/Chart/Walks.antt =====
-- `_find_account_cycle`: the walk ends, and it is clean exactly when the ancestors end at a root.
use finest_vx.Prelude.{
  ℕ, zero, suc, ◌+◌, ◌≤◌, ◌<◌, String, ◌≡◌, ◌≢◌, ◌↔◌, true, false, Option, none, some, List, [],
  ◌∷◌, ◌++◌, arith, str_eq_iff, contains, contains-append, length, All, All-append, All-contains,
  Bool-cases, Option-cases, inl, inr, if◌then◌else◌, refl, ap, subst,
}
use finest_vx.Core.Types.{Account}
use finest_vx.Core.Chart.{codes, parent_of, clean, exhausted, climb, find_account_cycle}

-- How many of the keys the path has not seen.
abbrev unseen : List String → List String → ℕ
unseen [] path = 0
unseen (k ∷ ks) path = (if contains path k then 0 else 1) + unseen ks path

unseen-nil : (ks : List String) → unseen ks [] ≡ length ks
unseen-nil [] = refl
unseen-nil (k ∷ ks) = omega (arith, unseen-nil ks)

unseen-append-le :
    (ks path : List String) (c : String) → unseen ks (path ++ c ∷ []) ≤ unseen ks path
unseen-append-le [] path c = omega arith
unseen-append-le (k ∷ ks) path c =
    ground (arith, unseen-append-le ks path c, contains-append path (c ∷ []) k)

unseen-append-lt :
    (ks path : List String) (c : String)
    → contains ks c ≡ true
    → contains path c ≡ false
    → unseen ks (path ++ c ∷ []) < unseen ks path
unseen-append-lt [] path c h new = ground arith
unseen-append-lt (k ∷ ks) path c h new = ground (
  arith,
  unseen-append-lt ks path c,
  unseen-append-le ks path c,
  contains-append path (c ∷ []) k,
  str_eq_iff k c,
  str_eq_iff c k,
)

parent_of-unknown :
    (accounts : List Account) (c : String)
    → contains (codes accounts) c ≡ false
    → parent_of accounts c ≡ none
parent_of-unknown [] c h = refl
parent_of-unknown (a ∷ rest) c h = ground (arith, parent_of-unknown rest c)

length-codes : (accounts : List Account) → length (codes accounts) ≡ length accounts
length-codes [] = refl
length-codes (a ∷ rest) = ap suc (length-codes rest)

climb-ne-exhausted :
    (fuel : ℕ) (accounts : List Account) (path : List String) (o : Option String)
    → unseen (codes accounts) path + 2 ≤ fuel
    → climb fuel accounts path o ≢ exhausted
unfolding climb
climb-ne-exhausted zero accounts path o enough = absurd (omega arith)
climb-ne-exhausted (suc fuel) accounts path none enough = λ e. cc
climb-ne-exhausted (suc zero) accounts path (some c) enough = absurd (omega arith)
climb-ne-exhausted (suc (suc fuel)) accounts path (some c) enough =
    elim (Bool-cases (contains path c)) [
      | inl seen ↦ rw seen (λ e. cc)
      | inr new ↦ elim (Bool-cases (contains (codes accounts) c)) [
        | inl known ↦ rw (new) (
            climb-ne-exhausted (suc fuel) accounts (path ++ c ∷ []) (parent_of accounts c)
              (omega (arith, unseen-append-lt (codes accounts) path c known new)))
        | inr unknown ↦ rw (new, parent_of-unknown accounts c unknown) (λ e. cc)
      ]
    ]

-- The walk that the chart's check starts never runs out of fuel.
pub find_account_cycle_ends :
    (accounts : List Account) (c : String) → find_account_cycle accounts c ≢ exhausted
unfolding find_account_cycle
find_account_cycle_ends accounts c =
    climb-ne-exhausted (length accounts + 2) accounts [] (some c)
      (omega (arith, unseen-nil (codes accounts), length-codes accounts))

-- The ancestors of the code end at an account with no parent, or at an unknown code.
pub data IsRooted (accounts : List Account) : String → Type 0 where
  root : {c : String} → parent_of accounts c ≡ none → IsRooted accounts c
  child : {c p : String} → parent_of accounts c ≡ some p → IsRooted accounts p → IsRooted accounts c

climb_sound :
    (fuel : ℕ) (accounts : List Account) (path : List String) (c : String)
    → climb fuel accounts path (some c) ≡ clean
    → IsRooted accounts c
unfolding climb
climb_sound zero accounts path c h = absurd (cc)
climb_sound (suc fuel) accounts path c h = elim (Bool-cases (contains path c)) [
  | inl seen ↦ absurd (let bad = (rw seen at h) in cc)
  | inr new ↦ elim (Option-cases (parent_of accounts c)) [
    | inl top ↦ root top
    | inr (p, up) ↦ child up (climb_sound fuel accounts (path ++ c ∷ []) p (rw (new, up) at h))
  ]
]

-- The number of steps to the root.
abbrev IsDepth : List Account → ℕ → String → Type 0
IsDepth accounts zero c = parent_of accounts c ≡ none
IsDepth accounts (suc n) c = (p : String) × (parent_of accounts c ≡ some p) × IsDepth accounts n p

IsDepth-unique :
    (accounts : List Account) (n k : ℕ) (c : String)
    → IsDepth accounts n c
    → IsDepth accounts k c
    → n ≡ k
IsDepth-unique accounts zero zero c h k = refl
IsDepth-unique accounts zero (suc k) c h (p, up, d) = absurd (cc)
IsDepth-unique accounts (suc n) zero c (p, up, d) h = absurd (cc)
IsDepth-unique accounts (suc n) (suc k) c (p, up, d) (q, up', d') =
    ap suc (IsDepth-unique accounts n k p d (subst (IsDepth accounts k) (cc) d'))

IsRooted-IsDepth :
    (accounts : List Account) {c : String} → IsRooted accounts c → (n : ℕ) × IsDepth accounts n c
IsRooted-IsDepth accounts (root top) = (0, top)
IsRooted-IsDepth accounts (child {p = p} up r) =
    let (n, d) = IsRooted-IsDepth accounts r in (suc n, (p, up, d))

-- Every code on the path lies further from the root than `n`.
abbrev IsBelow : List Account → ℕ → String → Type 0
IsBelow accounts n x = (d : ℕ) × IsDepth accounts d x × (n < d)

deepen :
    (accounts : List Account) (n : ℕ) (path : List String)
    → All (IsBelow accounts (suc n)) path
    → All (IsBelow accounts n) path
deepen accounts n [] h = tt
deepen accounts n (x ∷ rest) ((d, at, lt), h) = ((d, at, omega arith), deepen accounts n rest h)

climb-none :
    (fuel : ℕ) (accounts : List Account) (path : List String)
    → climb fuel accounts path none ≡ clean
unfolding climb
climb-none zero accounts path = refl
climb-none (suc fuel) accounts path = refl

on_path-absurd :
    (n : ℕ) (accounts : List Account) (path : List String) (c : String)
    → IsDepth accounts n c
    → All (IsBelow accounts n) path
    → contains path c ≡ true
    → ⊥
on_path-absurd n accounts path c d below seen =
    let (k, at, lt) = All-contains (IsBelow accounts n) path c below seen in
    omega (arith, IsDepth-unique accounts n k c d at)

climb_complete :
    (fuel n : ℕ) (accounts : List Account) (path : List String) (c : String)
    → IsDepth accounts n c
    → All (IsBelow accounts n) path
    → climb fuel accounts path (some c) ≢ exhausted
    → climb fuel accounts path (some c) ≡ clean
unfolding climb
climb_complete zero n accounts path c d below fine = absurd (fine refl)
climb_complete (suc fuel) zero accounts path c top below fine =
    elim (Bool-cases (contains path c)) [
      | inl seen ↦ absurd (on_path-absurd 0 accounts path c top below seen)
      | inr new ↦ rw (new, top) (climb-none fuel accounts (path ++ c ∷ []))
    ]
climb_complete (suc fuel) (suc n) accounts path c (p, up, d) below fine =
    elim (Bool-cases (contains path c)) [
      | inl seen ↦ absurd (on_path-absurd (suc n) accounts path c (p, up, d) below seen)
      | inr new ↦
          rw (new, up)
            (climb_complete fuel n accounts (path ++ c ∷ []) p d
              (All-append (IsBelow accounts n) path (c ∷ []) (deepen accounts n path below)
                ((suc n, (p, up, d), omega arith), tt))
              (rw (new, up) at fine))
    ]

-- The walk from a code is clean exactly when its ancestors end.
pub find_account_cycle-clean :
    (accounts : List Account) (c : String)
    → (find_account_cycle accounts c ≡ clean) ↔ IsRooted accounts c
unfolding find_account_cycle
find_account_cycle-clean accounts c = (
  climb_sound (length accounts + 2) accounts [] c,
  λ r.
      let (n, d) = IsRooted-IsDepth accounts r in
      climb_complete (length accounts + 2) n accounts [] c d tt
        (find_account_cycle_ends accounts c),
)
