-- ===== src/Persistence/Store/Reversed.antt =====
-- A transaction is reversed once: what a committed `append_reversal` leaves for the next one.
use finest_vx.Prelude.{
  String, ◌≡◌, refl, Bool, true, Option, none, some, List, [], ◌∷◌, ◌++◌, arith, str_eq_refl,
  select, first, ok, err, >>=-eq-ok, subst,
}
use finest_vx.Core.Codec.{Codec}
use finest_vx.Core.Engine.{Engine}
use finest_vx.Core.Books.{transaction_init}
use finest_vx.Core.Errors.{value_error, already_reversed}
use finest_vx.Core.Types.{JournalTransaction}
use finest_vx.Persistence.Platform.{Platform}
use finest_vx.Persistence.Rows.{TransactionRow, Database, AuditContext}
use finest_vx.Persistence.Schema.{exists_in, insert_transaction, audit}
use finest_vx.Persistence.Schema.Inserts.{insert_transaction-ok}
use finest_vx.Persistence.Store.{
  Store, Receipt, insert_entries, insert_transaction_rows, transaction_row,
}
use finest_vx.Persistence.Store.AppendOnly.{Extends, Extends-trans, Extends-IsKept}
use finest_vx.Persistence.Store.Atomic.{Ends, after-Ends, execute_write-Ends}
use finest_vx.Persistence.Store.Induction.{
  insert_entries-Commits, insert_transaction_rows-Commits, transact-Commits,
}
use finest_vx.Persistence.Store.Reversals.{
  has_reversal, find_transaction, reversal_of_transaction, prepare_reversal, append_reversal,
}

exists_in-GrowsTo :
    {A : Type 0} (q : A → Bool) (xs more : List A)
    → exists_in q xs ≡ true
    → exists_in q (xs ++ more) ≡ true
exists_in-GrowsTo q [] more h = absurd (let bad = h in cc)
exists_in-GrowsTo q (x ∷ xs) more h = ground (arith, exists_in-GrowsTo q xs more)

exists_in-last :
    {A : Type 0} (q : A → Bool) (xs : List A) (y : A)
    → q y ≡ true
    → exists_in q (xs ++ y ∷ []) ≡ true
exists_in-last q [] y h = ground arith
exists_in-last q (x ∷ xs) y h = ground (arith, exists_in-last q xs y h)

first-select-GrowsTo :
    {A : Type 0} (q : A → Bool) (xs more : List A) (a : A)
    → first (select q xs) ≡ some a
    → first (select q (xs ++ more)) ≡ some a
first-select-GrowsTo q [] more a h = absurd (let bad = h in cc)
first-select-GrowsTo q (x ∷ xs) more a h = ground (arith, first-select-GrowsTo q xs more a)

-- Both lookups of `append_reversal` find in a longer table what they found.
has_reversal-Extends :
    (a b : Database) (book reference : String)
    → Extends a b
    → has_reversal a book reference ≡ true
    → has_reversal b book reference ≡ true
has_reversal-Extends a b book reference h found =
    let (more, grown) = h.transactions in rw grown (exists_in-GrowsTo _ a.transactions more found)

find_transaction-Extends :
    (a b : Database) (book reference : String) (row : TransactionRow)
    → Extends a b
    → find_transaction a book reference ≡ some row
    → find_transaction b book reference ≡ some row
find_transaction-Extends a b book reference row h found =
    let (more, grown) = h.transactions in
    rw grown (first-select-GrowsTo _ a.transactions more row found)

module _ (e : Engine) where
  reversal_of_transaction-reversal_of :
      (original_ref reversal_ref : String) (t r : JournalTransaction)
      → e.normalize_optional_str (some original_ref) ≡ ok (some original_ref)
      → reversal_of_transaction e original_ref reversal_ref t ≡ ok r
      → r.reversal_of ≡ some original_ref
  unfolding reversal_of_transaction transaction_init
  reversal_of_transaction-reversal_of original_ref reversal_ref t r stripped h = ground arith

module _ (e : Engine) (p : Platform) (k : Codec) where
  -- What a prepared reversal shows: the original is there, and the reversal names it.
  prepare_reversal-ok :
      (db : Database) (book original_ref reversal_ref : String) (o : Option TransactionRow)
      (r : JournalTransaction)
      → e.normalize_optional_str (some original_ref) ≡ ok (some original_ref)
      → prepare_reversal e p k db book original_ref reversal_ref o ≡ ok r
      → ((row : TransactionRow) × (o ≡ some row)) × (r.reversal_of ≡ some original_ref)
  unfolding prepare_reversal reversal_of_transaction transaction_init
  prepare_reversal-ok db book original_ref reversal_ref none r stripped h = absurd (ground arith)
  prepare_reversal-ok db book original_ref reversal_ref (some row) r stripped h =
      ((row, refl), ground arith)

  insert_transaction_rows-has_reversal :
      (book original_ref : String) (t : JournalTransaction) (ctx : AuditContext) (db db' : Database)
      → t.reversal_of ≡ some original_ref
      → insert_transaction_rows p k book t ctx db ≡ ok db'
      → has_reversal db' book original_ref ≡ true
  unfolding insert_transaction_rows audit
  insert_transaction_rows-has_reversal book original_ref t ctx db db' mirrors h =
      let (mid, inserted, entries) =
        >>=-eq-ok (insert_transaction p ctx (transaction_row p k book t) db)
          (λ x. insert_entries p k ctx book t.reference 0 t.entries x) h in
      let grown =
        (insert_entries-Commits p k ctx (Extends-IsKept p ctx) book t.reference 0 t.entries).at mid
          db' entries in
      has_reversal-Extends mid db' book original_ref grown (
        subst (λ (d : Database). has_reversal d book original_ref ≡ true)
          (insert_transaction-ok p ctx db (transaction_row p k book t) mid inserted).0
          (exists_in-last _ db.transactions (transaction_row p k book t)
            (ground (arith, mirrors, str_eq_refl book, str_eq_refl original_ref))))

  -- The original is in the store, its reversal in the second database, which has only grown.
  abbrev IsReversed : Store → String → String → Database → Database → Type 0
  IsReversed s book original_ref a b =
      ((row : TransactionRow) × (find_transaction s.db book original_ref ≡ some row))
      × (has_reversal b book original_ref ≡ true)
      × Extends a b

  append_reversal-IsReversed :
      (book original_ref reversal_ref : String) (ctx : AuditContext) (s : Store)
      → e.normalize_optional_str (some original_ref) ≡ ok (some original_ref)
      → Ends
          (IsReversed s book original_ref)
          s
          (append_reversal e p k book original_ref reversal_ref ctx s)
  unfolding append_reversal
  append_reversal-IsReversed book original_ref reversal_ref ctx s stripped =
      after-Ends (IsReversed s book original_ref)
        (prepare_reversal e p k s.db book original_ref reversal_ref
          (find_transaction s.db book original_ref))
        _ s
        (λ t h.
          let (found, mirrors) =
            prepare_reversal-ok s.db book original_ref reversal_ref _ t stripped h in
          execute_write-Ends (IsReversed s book original_ref) p (insert_transaction_rows p k book t)
            ctx s
            (transact-Commits _ (record {
              at = λ a b inserted. (
                found,
                insert_transaction_rows-has_reversal book original_ref t ctx a b mirrors inserted,
                (insert_transaction_rows-Commits p k ctx (Extends-IsKept p ctx) book t).at a b
                    inserted,
              );
            })))

  -- Once a reversal is committed, every further one of the same transaction is refused, in every later
  -- database, under any reference; the reference is one that the text validator returns as it is.
  pub append_reversal_once :
      (book original_ref reversal_ref other_ref : String) (ctx other : AuditContext) (r : Receipt)
      (s s' later : Store)
      → e.normalize_optional_str (some original_ref) ≡ ok (some original_ref)
      → append_reversal e p k book original_ref reversal_ref ctx s ≡ (ok r, s')
      → Extends s'.db later.db
      → append_reversal e p k book original_ref other_ref other later
        ≡ (err (value_error (already_reversed original_ref book)), later)
  unfolding append_reversal prepare_reversal
  append_reversal_once book original_ref reversal_ref other_ref ctx other r s s' later stripped h
        grown =
      let ends = append_reversal-IsReversed book original_ref reversal_ref ctx s stripped in
      let ((row, found), reversed, first_grown) =
        (subst (Ends (IsReversed s book original_ref) s) h ends).0 in
      rw (
        find_transaction-Extends s.db later.db book original_ref row
            (Extends-trans s.db s'.db later.db first_grown grown) found,
        has_reversal-Extends s'.db later.db book original_ref grown reversed,
      )
