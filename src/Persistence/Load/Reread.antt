-- ===== src/Persistence/Load/Reread.antt =====
-- The payloads that are built from the rows of a constructed book, read back.
use finest_vx.Prelude.{
  ℕ, suc, String, ◌≡◌, refl, Bool, true, false, Option, none, some, List, [], ◌∷◌, map, All, ok,
}
use finest_vx.Core.Codec.{Codec, CodecLaws}
use finest_vx.Core.Engine.{Engine, EngineLaws}
use finest_vx.Core.Decimal.{Decimal}
use finest_vx.Core.Errors.{Result}
use finest_vx.Core.Serialization.{
  optional_str, optional_period, optional_decimal, period_to_mapping, account_to_mapping,
  entry_to_mapping, book_period_to_mapping,
}
use finest_vx.Core.Serialization.Read.{read_items, entry_from_mapping, transaction_from_mapping}
use finest_vx.Core.Serialization.RoundTrip.{
  read_items-to_items, to_transaction_state-value, state_text, read_optional_str-optional_str,
  read_optional_period-round, transaction_fields, entries_round, IsTransaction,
}
use finest_vx.Core.Types.{FiscalPeriod, Account, BookPeriod, LedgerEntry, JournalTransaction}
use finest_vx.Core.Value.{Value, bool, to_items}
use finest_vx.Persistence.Load.Added.{rows_of_entries}
use finest_vx.Persistence.Payload.{
  int_flag, account_payload, period_payload, entry_payload, transaction_payload,
  transaction_period_payload,
}
use finest_vx.Persistence.Platform.{Platform}
use finest_vx.Persistence.Rows.{AuditContext, EntryRow}
use finest_vx.Persistence.Schema.{text_cell}
use finest_vx.Persistence.Store.{transaction_row, entry_row, flag_int, rate_text, period_part}
use finest_vx.Persistence.Store.Writes.{account_row, period_row}

text_cell-optional_str : (o : Option String) → text_cell o ≡ optional_str o
text_cell-optional_str none = refl
text_cell-optional_str (some s) = refl

int_flag-flag_int : (b : Bool) → int_flag (flag_int b) ≡ bool b
int_flag-flag_int true = refl
int_flag-flag_int false = refl

pub account_payload-account_row :
    (book : String) (a : Account) → account_payload (account_row book a) ≡ account_to_mapping a
unfolding account_payload account_to_mapping
account_payload-account_row book a =
    rw
      (
        text_cell-optional_str a.parent_code,
        int_flag-flag_int a.allow_posting,
        int_flag-flag_int a.active,
      )
      refl

-- Items that are built through rows.
pub to_items-map :
    {A B : Type 0} (f : B → Value) (g : A → B) (h : A → Value) (xs : List A)
    → ((x : A) → f (g x) ≡ h x)
    → to_items f (map g xs) ≡ to_items h xs
to_items-map f g h [] same = refl
to_items-map f g h (x ∷ xs) same = rw (same x, to_items-map f g h xs same) refl

pub read_items-map :
    {A B : Type 0} (read : Value → Result A) (f : B → Value) (g : A → B) (xs : List A)
    → All (λ x. read (f (g x)) ≡ ok x) xs
    → read_items read (to_items f (map g xs)) ≡ ok xs
read_items-map read f g [] h = refl
read_items-map read f g (x ∷ xs) (h, hs) = rw (h, read_items-map read f g xs hs)

module _ (p : Platform) (k : Codec) (book : String) where
  pub period_payload-period_row :
      (q : BookPeriod) → period_payload (period_row p k book q) ≡ book_period_to_mapping k q
  unfolding period_payload book_period_to_mapping period_to_mapping
  period_payload-period_row q = refl

  rate_cell_same : (o : Option Decimal) → text_cell (rate_text p k o) ≡ optional_decimal k o
  rate_cell_same none = refl
  rate_cell_same (some d) = refl

  entry_payload-entry_row :
      (reference : String) (line : ℕ) (x : LedgerEntry)
      → entry_payload (entry_row p k book reference line x) ≡ entry_to_mapping k x
  unfolding entry_payload entry_to_mapping
  entry_payload-entry_row reference line x =
      rw (text_cell-optional_str x.description, rate_cell_same x.tax_rate) refl

  entry_items :
      (ctx : AuditContext) (reference : String) (line : ℕ) (xs : List LedgerEntry)
      → to_items entry_payload (rows_of_entries p k ctx book reference line xs)
        ≡ to_items (entry_to_mapping k) xs
  entry_items ctx reference line [] = refl
  entry_items ctx reference line (x ∷ xs) =
      rw (entry_payload-entry_row reference line x, entry_items ctx reference (suc line) xs) refl

  period_cell_same :
      (o : Option FiscalPeriod)
      → transaction_period_payload
          (period_part (λ q. q.fiscal_year) o)
          (period_part (λ q. q.quarter) o)
          (period_part (λ q. q.month) o)
        ≡ optional_period o
  unfolding transaction_period_payload period_to_mapping
  period_cell_same none = refl
  period_cell_same (some q) = refl

  -- The payload of a transaction's rows is read as the transaction.
  pub transaction_payload-reads :
      (e : Engine) (laws : EngineLaws e) (codec : CodecLaws e k) (ctx : AuditContext)
      (t : JournalTransaction) (entries : List EntryRow)
      → IsTransaction e k laws codec t
      → entries ≡ rows_of_entries p k ctx book t.reference 0 t.entries
      → transaction_from_mapping e k (transaction_payload (transaction_row p k book t) entries)
        ≡ ok t
  unfolding transaction_from_mapping transaction_payload
  transaction_payload-reads e laws codec ctx t entries h own =
      let (reference, description, reversal) = transaction_fields e k laws codec t h.made in
      rw
        (
          own,
          reference,
          codec.datetime_round t.posted_at,
          description,
          entry_items ctx t.reference 0 t.entries,
          read_items-to_items (entry_from_mapping e k) (entry_to_mapping k) t.entries
              (entries_round e k laws codec t.entries h.entries),
          period_cell_same t.period,
          read_optional_period-round e k laws codec t.period h.period,
          state_text e k laws codec t.state,
          to_transaction_state-value t.state,
          text_cell-optional_str t.reversal_of,
          read_optional_str-optional_str e k laws codec t.reversal_of "transaction.reversal_of",
          reversal,
        )
        h.made
