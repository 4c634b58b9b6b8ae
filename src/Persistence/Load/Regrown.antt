-- ===== src/Persistence/Load/Regrown.antt =====
-- What an append leaves as it was: the book's other cells, and the references and entries of the
-- transactions before it.
use finest_vx.Prelude.{
  String, ◌≡◌, true, false, ◌&&◌, List, [], ◌∷◌, arith, All, select, str_eq, str_eq_iff, ok, sym,
  ◌∙◌, subst, Bool-cases, inl, inr,
}
use finest_vx.Core.Books.{book_init}
use finest_vx.Core.Codec.{Codec}
use finest_vx.Core.Engine.{Engine, EngineLaws}
use finest_vx.Core.Entities.Normal.{normalize_currency_idem}
use finest_vx.Core.Serialization.Read.{read_items, transaction_from_mapping}
use finest_vx.Core.Serialization.ReadBook.{book_arguments}
use finest_vx.Core.Types.{JournalTransaction, Book}
use finest_vx.Core.Value.{
  Value, Items, list, mapping, field, end, require_mapping, require_sequence,
}
use finest_vx.Persistence.Load.Grown.{All-select}
use finest_vx.Persistence.Load.Selected.{exists_in-none, is_entry_of, NoneOf}
use finest_vx.Persistence.Rows.{TransactionRow, EntryRow, Database}
use finest_vx.Persistence.Schema.{has_transaction}

module _ (e : Engine) (laws : EngineLaws e) where
  -- A book that the constructor has normalized takes other transactions as the given one does.
  pub book_init-transactions :
      (a b : Book) (ts : List JournalTransaction)
      → book_init e a ≡ ok b
      → book_init e (record a { transactions = ts }) ≡ book_init e (record b { transactions = ts })
  unfolding book_init
  book_init-transactions a b ts h = ground (
    arith,
    laws.require_idem a.code b.code,
    laws.require_idem a.name b.name,
    normalize_currency_idem e laws a.base_currency b.base_currency,
    laws.require_idem a.legislative_pack b.legislative_pack,
  )

module _ (e : Engine) (k : Codec) where
  abbrev pub payload_of : Value → Value → Value → Value → Value → Value → Value → Items → Value
  payload_of code name currency calendar pack accounts periods items = mapping (
      field "code" code (
        field "name" name (
          field "base_currency" currency (
            field "fiscal_calendar" calendar (
              field "legislative_pack" pack (
                field "accounts" accounts
                  (field "periods" periods (field "transactions" (list items) end))))))))

  pub book_arguments-items :
      (code name currency calendar pack accounts periods : Value) (old : Items) (given : Book)
      → book_arguments e k (payload_of code name currency calendar pack accounts periods old)
        ≡ ok given
      → (read_items (transaction_from_mapping e k) old ≡ ok given.transactions)
        × ((new : Items) (ts : List JournalTransaction)
            → read_items (transaction_from_mapping e k) new ≡ ok ts
            → book_arguments e k (payload_of code name currency calendar pack accounts periods new)
              ≡ ok (record given { transactions = ts }))
  unfolding book_arguments require_sequence require_mapping
  book_arguments-items code name currency calendar pack accounts periods old given h =
      (ground arith, λ new ts k. ground arith)

module _ {A : Type 0} {P Q : A → Type 0} where
  pub each : ((x : A) → P x → Q x) → (xs : List A) → All P xs → All Q xs
  each f [] h = tt
  each f (x ∷ xs) (h, hs) = (f x h, each f xs hs)

-- The rows of the book have other references than one that is not there.
pub others_referenced :
    (db : Database) (code reference : String)
    → has_transaction db code reference ≡ false
    → All
        (λ (r : TransactionRow). str_eq reference r.reference ≡ false)
        (select (λ r. str_eq r.book_code code) db.transactions)
others_referenced db code reference new =
    All-select _ (λ r. str_eq r.book_code code) db.transactions
      (each
        (λ r h same.
          ground (arith, str_eq_iff reference r.reference, str_eq_iff r.reference reference))
        db.transactions
        (exists_in-none
          (λ (r : TransactionRow). str_eq r.book_code code && str_eq r.reference reference)
          db.transactions new))

-- An entry that refers to a transaction is none of one that is not there.
pub entries_of_others :
    (db : Database) (code reference : String) (entries : List EntryRow)
    → has_transaction db code reference ≡ false
    → All (λ x. has_transaction db x.book_code x.transaction_reference ≡ true) entries
    → NoneOf code reference entries
entries_of_others db code reference [] new h = tt
entries_of_others db code reference (x ∷ xs) new (h, hs) = (
  elim (Bool-cases (is_entry_of code reference x)) [
    | inr other ↦ other
    | inl same ↦
        let book : x.book_code ≡ code = (str_eq_iff x.book_code code).0 (ground arith) in
        let name : x.transaction_reference ≡ reference =
          (str_eq_iff x.transaction_reference reference).0 (ground arith) in
        let known : has_transaction db code reference ≡ true =
          subst (λ c. has_transaction db c reference ≡ true) book
            (subst (λ c. has_transaction db x.book_code c ≡ true) name h) in
        absurd (let both = sym known ∙ new in cc)
  ],
  entries_of_others db code reference xs new hs,
)
