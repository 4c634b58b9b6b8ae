-- ===== src/Persistence/Load/Selected.antt =====
-- What the SELECT statements of `_load_book_from_connection` find of the rows that a creation added.
use finest_vx.Prelude.{
  ℕ, suc, String, ◌≡◌, refl, Bool, true, false, ◌&&◌, List, [], ◌∷◌, ◌++◌, map, arith, All,
  All-append, select, order_by, insert_ordered, str_eq, str_eq_iff, str_eq_refl, leb, Bool-cases,
  inl, inr, subst, sym, ◌∙◌,
}
use mathlib.Core.List.{append_assoc, append-nil}
use finest_vx.Core.Codec.{Codec}
use finest_vx.Core.Types.{LedgerEntry, JournalTransaction}
use finest_vx.Persistence.Load.Added.{rows_of_entries, all_entries}
use finest_vx.Persistence.Platform.{Platform}
use finest_vx.Persistence.Rows.{TransactionRow, EntryRow, Database, AuditContext}
use finest_vx.Persistence.Schema.{exists_in, has_book, has_transaction}
use finest_vx.Persistence.Store.{transaction_row}
use finest_vx.Persistence.Store.Integrity.{AllDifferent, same_reference}

module _ {A : Type 0} (q : A → Bool) where
  pub select-append : (xs ys : List A) → select q (xs ++ ys) ≡ select q xs ++ select q ys
  select-append [] ys = refl
  select-append (x ∷ xs) ys = ground (arith, select-append xs ys)

  pub select_none : (xs : List A) → All (λ x. q x ≡ false) xs → select q xs ≡ []
  select_none [] h = refl
  select_none (x ∷ xs) (h, hs) = ground (arith, select_none xs hs)

  pub select_all : (xs : List A) → All (λ x. q x ≡ true) xs → select q xs ≡ xs
  select_all [] h = refl
  select_all (x ∷ xs) (h, hs) = ground (arith, select_all xs hs)

  -- The new rows are found, and nothing of the old ones.
  pub select_new :
      (rows old new : List A)
      → rows ≡ old ++ new
      → All (λ x. q x ≡ false) old
      → All (λ x. q x ≡ true) new
      → select q rows ≡ new
  select_new rows old new h others own =
      rw (h, select-append old new, select_none old others, select_all new own) refl

  pub exists_in-none : (xs : List A) → exists_in q xs ≡ false → All (λ x. q x ≡ false) xs
  exists_in-none [] h = tt
  exists_in-none (x ∷ xs) h = (ground arith, exists_in-none xs (ground arith))

pub All-map :
    {A B : Type 0} (P : B → Type 0) (g : A → B) (xs : List A)
    → ((x : A) → P (g x))
    → All P (map g xs)
All-map P g [] h = tt
All-map P g (x ∷ xs) h = (h x, All-map P g xs h)

-- Rows that refer to a book are no rows of a book that is not there.
pub rows_elsewhere :
    {A : Type 0} (db : Database) (code : String) (book : A → String) (rows : List A)
    → has_book db code ≡ false
    → All (λ r. has_book db (book r) ≡ true) rows
    → All (λ r. str_eq (book r) code ≡ false) rows
rows_elsewhere db code book [] new h = tt
rows_elsewhere db code book (r ∷ rows) new (h, hs) = (
  elim (Bool-cases (str_eq (book r) code)) [
    | inr other ↦ other
    | inl same ↦
        let known : has_book db code ≡ true =
          subst (λ c. has_book db c ≡ true) ((str_eq_iff (book r) code).0 same) h in
        absurd (let both = sym known ∙ new in cc)
  ],
  rows_elsewhere db code book rows new hs,
)

-- No transaction of a book that has no rows is found.
no_transaction :
    (code book reference : String) (rows : List TransactionRow)
    → All (λ r. str_eq r.book_code code ≡ false) rows
    → exists_in (λ r. str_eq r.book_code book && str_eq r.reference reference) rows ≡ true
    → str_eq book code ≡ false
no_transaction code book reference [] h found = absurd (let bad = found in cc)
no_transaction code book reference (r ∷ rows) (h, hs) found = ground (
  arith,
  no_transaction code book reference rows hs,
  str_eq_iff r.book_code book,
  str_eq_iff book code,
)

pub entries_elsewhere :
    (db : Database) (code : String) (entries : List EntryRow)
    → All (λ r. str_eq r.book_code code ≡ false) db.transactions
    → All (λ x. has_transaction db x.book_code x.transaction_reference ≡ true) entries
    → All (λ x. str_eq x.book_code code ≡ false) entries
entries_elsewhere db code [] others h = tt
entries_elsewhere db code (x ∷ xs) others (h, hs) = (
  no_transaction code x.book_code x.transaction_reference db.transactions others h,
  entries_elsewhere db code xs others hs,
)

abbrev pub is_entry_of : String → String → EntryRow → Bool
is_entry_of book reference r = str_eq r.book_code book && str_eq r.transaction_reference reference

abbrev pub NoneOf : String → String → List EntryRow → Type 0
NoneOf book reference = All (λ r. is_entry_of book reference r ≡ false)

module _ (p : Platform) (k : Codec) (ctx : AuditContext) (book : String) where
  abbrev own_rows : JournalTransaction → List EntryRow
  own_rows t = rows_of_entries p k ctx book t.reference 0 t.entries

  pub rows_own :
      (reference : String) (line : ℕ) (xs : List LedgerEntry)
      → All
          (λ r. is_entry_of book reference r ≡ true)
          (rows_of_entries p k ctx book reference line xs)
  rows_own reference line [] = tt
  rows_own reference line (x ∷ xs) =
      (rw (str_eq_refl book, str_eq_refl reference) refl, rows_own reference (suc line) xs)

  pub rows_apart :
      (reference other : String) (line : ℕ) (xs : List LedgerEntry)
      → str_eq other reference ≡ false
      → NoneOf book reference (rows_of_entries p k ctx book other line xs)
  rows_apart reference other line [] h = tt
  rows_apart reference other line (x ∷ xs) h =
      (ground arith, rows_apart reference other (suc line) xs h)

  -- The transactions have other references than the one given.
  abbrev Differs : JournalTransaction → List JournalTransaction → Type 0
  Differs t ts =
      All (λ y. same_reference (transaction_row p k book t) y ≡ false)
        (map (transaction_row p k book) ts)

  other_reference :
      (t u : JournalTransaction)
      → same_reference (transaction_row p k book t) (transaction_row p k book u) ≡ false
      → (str_eq t.reference u.reference ≡ false) × (str_eq u.reference t.reference ≡ false)
  other_reference t u h =
      let left : str_eq t.reference u.reference ≡ false = rw (str_eq_refl book) at h in
      (left, ground (arith, str_eq_iff t.reference u.reference, str_eq_iff u.reference t.reference))

  rest_apart :
      (t : JournalTransaction) (ts : List JournalTransaction)
      → Differs t ts
      → NoneOf book t.reference (all_entries p k ctx book ts)
  rest_apart t [] h = tt
  rest_apart t (u ∷ rest) (h, hs) =
      All-append _ (own_rows u) _
        (rows_apart t.reference u.reference 0 u.entries (other_reference t u h).1)
        (rest_apart t rest hs)

  before_apart :
      (t : JournalTransaction) (ts : List JournalTransaction) (before : List EntryRow)
      → Differs t ts
      → All (λ u. NoneOf book u.reference before) ts
      → All (λ u. NoneOf book u.reference (before ++ own_rows t)) ts
  before_apart t [] before h none = tt
  before_apart t (u ∷ rest) before (h, hs) (none, others) = (
    All-append _ before _ none
        (rows_apart u.reference t.reference 0 t.entries (other_reference t u h).0),
    before_apart t rest before hs others,
  )

  -- Each transaction finds its own entries among all.
  pub own_entries :
      (before : List EntryRow) (ts : List JournalTransaction)
      → AllDifferent same_reference (map (transaction_row p k book) ts)
      → All (λ t. NoneOf book t.reference before) ts
      → All
          (λ t.
            select (is_entry_of book t.reference) (before ++ all_entries p k ctx book ts)
            ≡ own_rows t)
          ts
  own_entries before [] different none = tt
  own_entries before (t ∷ rest) (differs, different) (none, others) = (
    rw
        (
          select-append (is_entry_of book t.reference) before
              (own_rows t ++ all_entries p k ctx book rest),
          select-append (is_entry_of book t.reference) (own_rows t) (all_entries p k ctx book rest),
          select_none (is_entry_of book t.reference) before none,
          select_all (is_entry_of book t.reference) (own_rows t) (rows_own t.reference 0 t.entries),
          select_none (is_entry_of book t.reference) (all_entries p k ctx book rest)
              (rest_apart t rest differs),
        )
        (append-nil (own_rows t)),
    subst (λ rows. All (λ u. select (is_entry_of book u.reference) rows ≡ own_rows u) rest)
        (append_assoc before (own_rows t) (all_entries p k ctx book rest))
        (own_entries (before ++ own_rows t) rest different
          (before_apart t rest before differs others)),
  )

  -- The entries stand in the order of their lines.
  pub lines_ordered :
      (reference : String) (line : ℕ) (xs : List LedgerEntry)
      → order_by
          (λ (a : EntryRow) (b : EntryRow). leb a.line_no b.line_no)
          (rows_of_entries p k ctx book reference line xs)
        ≡ rows_of_entries p k ctx book reference line xs
  unfolding order_by insert_ordered
  lines_ordered reference line [] = refl
  lines_ordered reference line (x ∷ []) = refl
  lines_ordered reference line (x ∷ y ∷ rest) =
      rw (lines_ordered reference (suc line) (y ∷ rest))
        (let up : leb line (suc line) ≡ true = ground arith in rw (insert_ordered, up) refl)
