-- ===== src/Persistence/Keys.antt =====
-- persistence/schema.py: the tests on keys and columns that the constraints of the tables make, and the
-- cells of the audit payloads.
use Prim.Native.String.{◌++◌ as str_append}
use finest_vx.Prelude.{
  ℕ, String, Bool, false, ◌&&◌, ◌||◌, Option, none, some, List, [], ◌∷◌, max, str_eq,
}
use finest_vx.Prelude.Int.{ℤ, pos, leb_ℤ, eq_ℤ}
use finest_vx.Core.Value.{Value, null, int, str}
use finest_vx.Persistence.Rows.{PeriodRow, EntryRow, AuditLogRecord, Database}

-- `x BETWEEN low AND high`
abbrev pub between : ℤ → ℤ → ℤ → Bool
between low high x = leb_ℤ low x && leb_ℤ x high

abbrev pub text_cell : Option String → Value
text_cell none = null
text_cell (some s) = str s

abbrev pub int_cell : Option ℤ → Value
int_cell none = null
int_cell (some i) = int i

abbrev pub exists_in {ℓ} : {A : Type ℓ} → (A → Bool) → List A → Bool
exists_in p [] = false
exists_in p (x ∷ rest) = p x || exists_in p rest

-- The primary keys that the statements look up.
abbrev pub has_book : Database → String → Bool
has_book db code = exists_in (λ r. str_eq r.book_code code) db.books

abbrev pub has_account : Database → String → String → Bool
has_account db book code =
    exists_in (λ r. str_eq r.book_code book && str_eq r.code code) db.accounts

abbrev pub has_transaction : Database → String → String → Bool
has_transaction db book reference =
    exists_in (λ r. str_eq r.book_code book && str_eq r.reference reference) db.transactions

abbrev pub has_period_row : Database → PeriodRow → Bool
has_period_row db p =
    exists_in
      (λ r.
        str_eq r.book_code p.book_code
        && (eq_ℤ r.fiscal_year p.fiscal_year && (eq_ℤ r.quarter p.quarter && eq_ℤ r.month p.month)))
      db.periods

-- `line_no INTEGER`: the numbers are equal.
abbrev pub has_entry : Database → EntryRow → Bool
has_entry db x =
    exists_in
      (λ r.
        str_eq r.book_code x.book_code
        && (str_eq r.transaction_reference x.transaction_reference
            && eq_ℤ (pos r.line_no) (pos x.line_no)))
      db.entries

-- The row number that SQLite gives: one more than the largest.
abbrev pub max_seq : List AuditLogRecord → ℕ
max_seq [] = 0
max_seq (r ∷ rest) = max r.seq (max_seq rest)

abbrev pub colon : String → String → String
colon a b = str_append a (str_append ":" b)
