-- ===== src/Persistence/Load/Created.antt =====
-- A created book is loaded as it was given.
use finest_vx.Prelude.{
  String, ◌≡◌, refl, Bool, false, List, [], ◌∷◌, ◌++◌, map, All, select, first, some, order_by,
  str_eq, str_eq_refl, ok, >>=-eq-ok, ap, subst,
}
use finest_vx.Core.Chart.{validate_chart_of_accounts}
use finest_vx.Core.Codec.{Codec, CodecLaws}
use finest_vx.Core.Engine.{Engine, EngineLaws}
use finest_vx.Core.Serialization.{account_to_mapping, book_period_to_mapping}
use finest_vx.Core.Serialization.Read.{account_from_mapping, transaction_from_mapping}
use finest_vx.Core.Serialization.ReadBook.{
  book_period_from_mapping, book_arguments, book_from_mapping,
}
use finest_vx.Core.Serialization.RoundTrip.{
  read_items-to_items, normalize_currency-require, IsTransaction,
}
use finest_vx.Core.Serialization.BookRoundTrip.{
  IsConstructed, book_fields, accounts_round, periods_round,
}
use finest_vx.Core.Types.{JournalTransaction, Book}
use finest_vx.Persistence.Load.{
  account_le, period_le, transaction_le, account_rows, period_rows, transaction_rows,
  stored_payload, load_book, catching,
}
use finest_vx.Persistence.Load.Adding.{Adds}
use finest_vx.Persistence.Load.Added.{
  rows_of_book, row_of_book, all_entries, rows_of_entries, create_operation-Adds,
}
use finest_vx.Persistence.Load.Loaded.{load_row_reads}
use finest_vx.Persistence.Load.Reread.{
  account_payload-account_row, to_items-map, read_items-map, period_payload-period_row,
  transaction_payload-reads,
}
use finest_vx.Persistence.Load.Selected.{
  select_new, exists_in-none, All-map, rows_elsewhere, entries_elsewhere, is_entry_of, NoneOf,
  own_entries, lines_ordered,
}
use finest_vx.Persistence.Payload.{
  build_book_payload, account_payload, period_payload, transaction_payload, entry_rows,
}
use finest_vx.Persistence.Platform.{Platform}
use finest_vx.Persistence.Rows.{BookRow, EntryRow, Database, AuditContext}
use finest_vx.Persistence.Schema.{has_book, insert_book}
use finest_vx.Persistence.Schema.Inserts.{insert_book-ok}
use finest_vx.Persistence.Store.{Store, Receipt, transaction_row}
use finest_vx.Persistence.Store.Atomic.{Ends, after-Ends, execute_write-Ends}
use finest_vx.Persistence.Store.Induction.{Commits, create_operation-Commits, transact-Commits}
use finest_vx.Persistence.Store.Integrity.{
  HasKeys, AllDifferent, same_reference, KeepsKeys, KeepsKeys-IsKept,
}
use finest_vx.Persistence.Store.Writes.{create_operation, create_book, account_row, period_row}

AllDifferent-behind :
    {A : Type 0} (same : A → A → Bool) (xs ys : List A)
    → AllDifferent same (xs ++ ys)
    → AllDifferent same ys
AllDifferent-behind same [] ys h = h
AllDifferent-behind same (x ∷ xs) ys (h, hs) = AllDifferent-behind same xs ys hs

entries_of_others :
    (code reference : String) (entries : List EntryRow)
    → All (λ r. str_eq r.book_code code ≡ false) entries
    → NoneOf code reference entries
entries_of_others code reference [] h = tt
entries_of_others code reference (x ∷ xs) (h, hs) =
    (rw h refl, entries_of_others code reference xs hs)

module _ (e : Engine) (p : Platform) (k : Codec) (laws : EngineLaws e) (codec : CodecLaws e k)
    (b : Book) (ctx : AuditContext) where
  -- The parts stand in the order in which the store reads them.
  pub record InOrder : Type 0 where
    pub accounts :
        order_by (account_le p) (map (account_row b.code) b.accounts)
        ≡ map (account_row b.code) b.accounts
    pub periods :
        order_by (period_le p) (map (period_row p k b.code) b.periods)
        ≡ map (period_row p k b.code) b.periods
    pub transactions :
        order_by (transaction_le p) (map (transaction_row p k b.code) b.transactions)
        ≡ map (transaction_row p k b.code) b.transactions

  -- What a committed creation has done.
  abbrev Created : Database → Database → Type 0
  Created db db' =
      Adds (rows_of_book p k ctx b) db db' × (has_book db b.code ≡ false) × KeepsKeys db db'

  create_operation-Created : Commits Created (create_operation p k b ctx)
  unfolding create_operation
  create_operation-Created = record {
    at = λ db db' h.
        let (mid, booked, others) = >>=-eq-ok (insert_book p ctx (row_of_book p k ctx b) db) _ h in
        (
          create_operation-Adds p k ctx b db db' h,
          (insert_book-ok p ctx db (row_of_book p k ctx b) mid booked).1,
          (create_operation-Commits p k ctx (KeepsKeys-IsKept p ctx) b).at db db' h,
        );
  }

  create_book-Created : (s : Store) → Ends Created s (create_book p k b ctx s)
  unfolding create_book
  create_book-Created s = after-Ends Created (validate_chart_of_accounts b.accounts) _ s (λ u h.
      execute_write-Ends Created p (create_operation p k b) ctx s
        (transact-Commits _ create_operation-Created))

  module _ (db db' : Database) (whole : HasKeys db) (created : Created db db') where
    abbrev adds : Adds (rows_of_book p k ctx b) db db'
    adds = created.0

    found_book :
        first (select (λ r. str_eq r.book_code b.code) db'.books) ≡ some (row_of_book p k ctx b)
    found_book = ap first (
        select_new (λ (r : BookRow). str_eq r.book_code b.code) db'.books db.books
          (row_of_book p k ctx b ∷ []) adds.books
          (exists_in-none (λ (r : BookRow). str_eq r.book_code b.code) db.books created.1)
          (str_eq_refl b.code, tt))

    found_accounts :
        select (λ r. str_eq r.book_code b.code) db'.accounts ≡ map (account_row b.code) b.accounts
    found_accounts =
        select_new _ db'.accounts db.accounts _ adds.accounts
          (rows_elsewhere db b.code (λ r. r.book_code) db.accounts created.1 whole.accounts)
          (All-map _ (account_row b.code) b.accounts (λ a. str_eq_refl b.code))

    found_periods :
        select (λ r. str_eq r.book_code b.code) db'.periods ≡ map (period_row p k b.code) b.periods
    found_periods =
        select_new _ db'.periods db.periods _ adds.periods
          (rows_elsewhere db b.code (λ r. r.book_code) db.periods created.1 whole.periods)
          (All-map _ (period_row p k b.code) b.periods (λ q. str_eq_refl b.code))

    old_transactions : All (λ r. str_eq r.book_code b.code ≡ false) db.transactions
    old_transactions =
        rows_elsewhere db b.code (λ r. r.book_code) db.transactions created.1 whole.transactions

    found_transactions :
        select (λ r. str_eq r.book_code b.code) db'.transactions
        ≡ map (transaction_row p k b.code) b.transactions
    found_transactions =
        select_new _ db'.transactions db.transactions _ adds.transactions old_transactions
          (All-map _ (transaction_row p k b.code) b.transactions (λ t. str_eq_refl b.code))

    old_entries : All (λ r. str_eq r.book_code b.code ≡ false) db.entries
    old_entries = entries_elsewhere db b.code db.entries old_transactions whole.entry_transactions

    different : AllDifferent same_reference (map (transaction_row p k b.code) b.transactions)
    different =
        AllDifferent-behind same_reference db.transactions _
          (subst (AllDifferent same_reference) adds.transactions (created.2 whole).references)

    none_before :
        (ts : List JournalTransaction) → All (λ t. NoneOf b.code t.reference db.entries) ts
    none_before [] = tt
    none_before (t ∷ rest) =
        (entries_of_others b.code t.reference db.entries old_entries, none_before rest)

    -- The entries of each transaction, in their order.
    found_entries :
        All
          (λ t.
            entry_rows db' b.code t.reference
            ≡ rows_of_entries p k ctx b.code t.reference 0 t.entries)
          b.transactions
    unfolding entry_rows
    found_entries = in_order b.transactions (
        own_entries p k ctx b.code db.entries b.transactions different (none_before b.transactions))
      where
        in_order :
            (ts : List JournalTransaction)
            → All
                (λ t.
                  select
                    (is_entry_of b.code t.reference)
                    (db.entries ++ all_entries p k ctx b.code b.transactions)
                  ≡ rows_of_entries p k ctx b.code t.reference 0 t.entries)
                ts
            → All
                (λ t.
                  entry_rows db' b.code t.reference
                  ≡ rows_of_entries p k ctx b.code t.reference 0 t.entries)
                ts
        in_order [] h = tt
        in_order (t ∷ rest) (h, hs) = (
          rw (adds.entries, h) (lines_ordered p k ctx b.code t.reference 0 t.entries),
          in_order rest hs,
        )

    read_transactions :
        (ts : List JournalTransaction)
        → All (IsTransaction e k laws codec) ts
        → All
            (λ t.
              entry_rows db' b.code t.reference
              ≡ rows_of_entries p k ctx b.code t.reference 0 t.entries)
            ts
        → All
            (λ t.
              transaction_from_mapping e k (
                transaction_payload
                  (transaction_row p k b.code t)
                  (entry_rows db' b.code t.reference))
              ≡ ok t)
            ts
    read_transactions [] h own = tt
    read_transactions (t ∷ rest) (h, hs) (own, others) = (
      transaction_payload-reads p k b.code e laws codec ctx t (entry_rows db' b.code t.reference) h
          own,
      read_transactions rest hs others,
    )

    stored_reads :
        IsConstructed e k laws codec b
        → InOrder
        → book_from_mapping e k (stored_payload p db' (row_of_book p k ctx b)) ≡ ok b
    unfolding book_from_mapping book_arguments stored_payload build_book_payload account_rows
        period_rows transaction_rows
    stored_reads h order =
        let (code, name, currency, pack) = book_fields e k laws codec b h.made in
        rw
          (
            found_accounts,
            order.accounts,
            found_periods,
            order.periods,
            found_transactions,
            order.transactions,
            code,
            name,
            normalize_currency-require e k laws codec b.base_currency currency,
            codec.int_round b.fiscal_calendar,
            h.calendar,
            pack,
            to_items-map account_payload (account_row b.code) account_to_mapping b.accounts
                (account_payload-account_row b.code),
            read_items-to_items (account_from_mapping e) account_to_mapping b.accounts
                (accounts_round e k laws codec b.accounts h.accounts),
            to_items-map period_payload (period_row p k b.code) (book_period_to_mapping k) b.periods
                (period_payload-period_row p k b.code),
            read_items-to_items (book_period_from_mapping e k) (book_period_to_mapping k) b.periods
                (periods_round e k laws codec b.periods h.periods),
            read_items-map (transaction_from_mapping e k)
                (λ r. transaction_payload r (entry_rows db' b.code r.reference))
                (transaction_row p k b.code) b.transactions
                (read_transactions b.transactions h.transactions found_entries),
          )
          h.made

    load_created : IsConstructed e k laws codec b → InOrder → load_book e p k db' b.code ≡ ok b
    unfolding load_book catching
    load_created h order =
        rw
          (
            found_book,
            load_row_reads e p k db' b.code (row_of_book p k ctx b),
            stored_reads h order,
          )
          refl

  -- A constructed book, its parts in the order of the store, its numbers written in full and its amounts
  -- formatted by default, is loaded after its creation as it was given, from a store that keeps its keys
  -- and for an engine and a codec that keep the laws.
  pub load_book-create_book :
      (s s' : Store) (receipt : Receipt)
      → IsConstructed e k laws codec b
      → InOrder
      → HasKeys s.db
      → create_book p k b ctx s ≡ (ok receipt, s')
      → load_book e p k s'.db b.code ≡ ok b
  load_book-create_book s s' receipt h order whole done =
      let (created, same) = subst (Ends Created s) done (create_book-Created s) in
      load_created s.db s'.db whole created h order
