-- ===== src/Persistence/Load/Appended.antt =====
-- After an append the store holds what `Book.append_transaction` returns.
use finest_vx.Prelude.{
  String, ◌≡◌, refl, false, Option, none, some, List, [], ◌∷◌, ◌++◌, arith, select, first, order_by,
  str_eq, str_eq_iff, str_eq_refl, ok, >>=-eq-ok, sym, ◌∙◌, ap, subst, Bool-cases, inl, inr,
}
use mathlib.Core.List.{append-nil}
use finest_vx.Core.Books.{book_init, append_transaction}
use finest_vx.Core.Codec.{Codec, CodecLaws}
use finest_vx.Core.Engine.{Engine, EngineLaws}
use finest_vx.Core.Errors.{persistence_integrity}
use finest_vx.Core.Serialization.Read.{read_items, transaction_from_mapping}
use finest_vx.Core.Serialization.ReadBook.{book_arguments, book_from_mapping}
use finest_vx.Core.Serialization.RoundTrip.{IsTransaction}
use finest_vx.Core.Types.{JournalTransaction, Book}
use finest_vx.Core.Value.{Value, to_items, str, int, list, mapping, field, end}
use finest_vx.Persistence.Load.{
  transaction_le, account_rows, period_rows, transaction_rows, stored_payload, load_row, load_book,
  catching,
}
use finest_vx.Persistence.Load.Adding.{Adds}
use finest_vx.Persistence.Load.Added.{
  transaction_delta, rows_of_entries, insert_transaction_rows-Adds,
}
use finest_vx.Persistence.Load.Grown.{All-order_by, to_items-same, read_items-last}
use finest_vx.Persistence.Load.Loaded.{load_row_reads, catching-ok}
use finest_vx.Persistence.Load.Reread.{transaction_payload-reads}
use finest_vx.Persistence.Load.Selected.{
  select-append, select_none, select_all, select_new, is_entry_of, rows_own, rows_apart,
  lines_ordered,
}
use finest_vx.Persistence.Payload.{
  build_book_payload, account_payload, period_payload, transaction_payload, entry_rows,
}
use finest_vx.Persistence.Platform.{Platform}
use finest_vx.Persistence.Rows.{BookRow, TransactionRow, EntryRow, Database, AuditContext}
use finest_vx.Persistence.Schema.{has_transaction, insert_transaction}
use finest_vx.Persistence.Schema.Inserts.{insert_transaction-ok}
use finest_vx.Persistence.Store.{Store, Receipt, insert_transaction_rows, transaction_row}
use finest_vx.Persistence.Store.Atomic.{Ends, append_transaction-Commits}
use finest_vx.Persistence.Store.Induction.{Commits, transact-Commits}
use finest_vx.Persistence.Store.Integrity.{HasKeys}
use finest_vx.Persistence.Store.Writes
use finest_vx.Persistence.Load.Regrown.{
  book_init-transactions, payload_of, book_arguments-items, each, others_referenced,
  entries_of_others,
}

module _ (e : Engine) (p : Platform) (k : Codec) (laws : EngineLaws e) (codec : CodecLaws e k)
    (code : String) (t : JournalTransaction) (ctx : AuditContext) where
  -- What a committed append has done.
  abbrev Appended : Database → Database → Type 0
  Appended db db' =
      Adds (transaction_delta p k ctx code t) db db' × (has_transaction db code t.reference ≡ false)

  insert_transaction_rows-Appended : Commits Appended (insert_transaction_rows p k code t ctx)
  unfolding insert_transaction_rows
  insert_transaction_rows-Appended = record {
    at = λ db db' h.
        let (mid, first, others) =
          >>=-eq-ok (insert_transaction p ctx (transaction_row p k code t) db) _ h in
        (
          insert_transaction_rows-Adds p k ctx code t db db' h,
          (insert_transaction-ok p ctx db (transaction_row p k code t) mid first).1,
        );
  }

  -- The transaction comes last in the order of the store.
  abbrev pub IsLast : Database → Type 0
  IsLast db =
      order_by (transaction_le p)
        (select (λ r. str_eq r.book_code code) db.transactions ++ transaction_row p k code t ∷ [])
      ≡ transaction_rows p db code ++ transaction_row p k code t ∷ []

  module _ (db db' : Database) (whole : HasKeys db) (appended : Appended db db') where
    abbrev own : List EntryRow
    own = rows_of_entries p k ctx code t.reference 0 t.entries

    rows_grown :
        IsLast db
        → transaction_rows p db' code
          ≡ transaction_rows p db code ++ transaction_row p k code t ∷ []
    unfolding transaction_rows
    rows_grown last =
        rw
          (
            appended.0.transactions,
            select-append (λ (r : TransactionRow). str_eq r.book_code code) db.transactions
                (transaction_row p k code t ∷ []),
            select_all (λ (r : TransactionRow). str_eq r.book_code code)
                (transaction_row p k code t ∷ []) (str_eq_refl code, tt),
          )
          last

    -- The entries of the other transactions are as before.
    entries_kept :
        (reference : String)
        → str_eq t.reference reference ≡ false
        → entry_rows db' code reference ≡ entry_rows db code reference
    unfolding entry_rows
    entries_kept reference other =
        rw
          (
            appended.0.entries,
            select-append (is_entry_of code reference) db.entries own,
            select_none (is_entry_of code reference) own
                (rows_apart p k ctx code reference t.reference 0 t.entries other),
            append-nil (select (is_entry_of code reference) db.entries),
          )
          refl

    own_found : entry_rows db' code t.reference ≡ own
    unfolding entry_rows
    own_found =
        rw
          (select_new (is_entry_of code t.reference) db'.entries db.entries own appended.0.entries
            (entries_of_others db code t.reference db.entries appended.1 whole.entry_transactions)
            (rows_own p k ctx code t.reference 0 t.entries))
          (lines_ordered p k ctx code t.reference 0 t.entries)

    abbrev payload_in : Database → TransactionRow → Value
    payload_in d r = transaction_payload r (entry_rows d code r.reference)

    old_payloads :
        to_items (payload_in db') (transaction_rows p db code)
        ≡ to_items (payload_in db) (transaction_rows p db code)
    unfolding transaction_rows
    old_payloads = to_items-same (payload_in db') (payload_in db) (transaction_rows p db code) (
        each (λ r h. ap (transaction_payload r) (entries_kept r.reference h))
          (transaction_rows p db code)
          (All-order_by _ (transaction_le p) _ (others_referenced db code t.reference appended.1)))

    items_read :
        (ts : List JournalTransaction)
        → IsTransaction e k laws codec t
        → IsLast db
        → read_items
            (transaction_from_mapping e k)
            (to_items (payload_in db) (transaction_rows p db code))
          ≡ ok ts
        → read_items
            (transaction_from_mapping e k)
            (to_items (payload_in db') (transaction_rows p db' code))
          ≡ ok (ts ++ t ∷ [])
    items_read ts made last old = rw (rows_grown last) (
        read_items-last (transaction_from_mapping e k) (payload_in db') (transaction_rows p db code)
          (transaction_row p k code t) ts t (rw old_payloads old)
          (transaction_payload-reads p k code e laws codec ctx t (entry_rows db' code t.reference)
            made own_found))

    accounts_kept : account_rows p db' code ≡ account_rows p db code
    unfolding account_rows
    accounts_kept = rw (appended.0.accounts, append-nil db.accounts) refl

    periods_kept : period_rows p db' code ≡ period_rows p db code
    unfolding period_rows
    periods_kept = rw (appended.0.periods, append-nil db.periods) refl

    -- The payload of a book's row, with the rows of a code.
    abbrev stored_at : Database → BookRow → String → Value
    stored_at d row c =
        payload_of e k (str row.book_code) (str row.name) (str row.base_currency)
          (mapping (field "start_month" (int row.fiscal_start_month) end))
          (str row.legislative_pack) (list (to_items account_payload (account_rows p d c)))
          (list (to_items period_payload (period_rows p d c)))
          (to_items (λ r. transaction_payload r (entry_rows d c r.reference))
            (transaction_rows p d c))

    stored-at_code :
        (d : Database) (row : BookRow)
        → row.book_code ≡ code
        → stored_payload p d row ≡ stored_at d row code
    unfolding stored_payload build_book_payload
    stored-at_code d row same = subst (λ c. stored_payload p d row ≡ stored_at d row c) same refl

    init_keeps : (a b : Book) → book_init e a ≡ ok b → a.transactions ≡ b.transactions
    unfolding book_init
    init_keeps a b h = ground arith

    stored_grown :
        (row : BookRow) (b : Book)
        → row.book_code ≡ code
        → IsTransaction e k laws codec t
        → IsLast db
        → book_from_mapping e k (stored_payload p db row) ≡ ok b
        → book_from_mapping e k (stored_payload p db' row) ≡ append_transaction e b t
    unfolding book_from_mapping append_transaction
    stored_grown row b same made last read =
        let (given, arguments, init) =
          >>=-eq-ok (book_arguments e k (stored_payload p db row)) (book_init e) read in
        let before : book_arguments e k (stored_at db row code) ≡ ok given =
          ap (book_arguments e k) (sym (stored-at_code db row same)) ∙ arguments in
        let (old, others) =
          book_arguments-items e k (str row.book_code) (str row.name) (str row.base_currency)
            (mapping (field "start_month" (int row.fiscal_start_month) end))
            (str row.legislative_pack) (list (to_items account_payload (account_rows p db code)))
            (list (to_items period_payload (period_rows p db code)))
            (to_items (payload_in db) (transaction_rows p db code)) given before in
        let after =
          others (to_items (payload_in db') (transaction_rows p db' code))
            (given.transactions ++ t ∷ []) (items_read given.transactions made last old) in
        rw
          (
            stored-at_code db' row same,
            accounts_kept,
            periods_kept,
            after,
            book_init-transactions e laws given b (given.transactions ++ t ∷ []) init,
            init_keeps given b init,
          )
          refl

    first-selected :
        (rows : List BookRow) (row : BookRow)
        → first (select (λ r. str_eq r.book_code code) rows) ≡ some row
        → row.book_code ≡ code
    first-selected [] row h = absurd (ground arith)
    first-selected (r ∷ rest) row h = elim (Bool-cases (str_eq r.book_code code)) [
      | inl same ↦
          let it : r ≡ row = ground arith in
          subst (λ (z : BookRow). z.book_code ≡ code) it ((str_eq_iff r.book_code code).0 same)
      | inr other ↦ first-selected rest row (ground arith)
    ]

    load_grown :
        (found : Option BookRow) (b : Book)
        → first (select (λ r. str_eq r.book_code code) db.books) ≡ found
        → IsTransaction e k laws codec t
        → IsLast db
        → load_row e p k db code found ≡ ok b
        → load_row e p k db' code found
          ≡ catching (persistence_integrity code) (append_transaction e b t)
    unfolding load_row
    load_grown none b found made last loaded = absurd (ground arith)
    load_grown (some row) b found made last loaded =
        let read : book_from_mapping e k (stored_payload p db row) ≡ ok b =
          catching-ok e p k (persistence_integrity code)
            (book_from_mapping e k (stored_payload p db row)) b
            (sym (load_row_reads e p k db code row) ∙ loaded) in
        load_row_reads e p k db' code row
        ∙ ap (catching (persistence_integrity code))
            (stored_grown row b (first-selected db.books row found) made last read)

    books_kept : db'.books ≡ db.books
    books_kept = appended.0.books ∙ append-nil db.books

  -- After a committed append of a constructed transaction that comes last in the order of the store,
  -- its numbers written in full and its amounts formatted by default, the book is loaded as
  -- `Book.append_transaction` returns it from the book that was loaded before, or the refusal of that
  -- constructor is raised as a persistence error; in a store that keeps its keys and for an engine and a
  -- codec that keep the laws.
  pub load_book-append_transaction :
      (s s' : Store) (receipt : Receipt) (b : Book)
      → IsTransaction e k laws codec t
      → IsLast s.db
      → HasKeys s.db
      → load_book e p k s.db code ≡ ok b
      → Writes.append_transaction p k code t ctx s ≡ (ok receipt, s')
      → load_book e p k s'.db code
        ≡ catching (persistence_integrity code) (append_transaction e b t)
  unfolding load_book
  load_book-append_transaction s s' receipt b made last whole loaded done =
      let (appended, same) = subst (Ends Appended s) done (
        append_transaction-Commits Appended p k code t ctx s
          (transact-Commits _ insert_transaction_rows-Appended)) in
      ap
        (λ (rows : List BookRow).
          load_row e p k s'.db code (first (select (λ r. str_eq r.book_code code) rows)))
        (books_kept s.db s'.db whole appended)
      ∙ (load_grown s.db s'.db whole appended _ b refl made last loaded)
