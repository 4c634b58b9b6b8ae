-- ===== src/Export/Csv.antt =====
-- export/service.py `to_csv`: the rows of the ledger.
use finest_vx.Prelude.{String, Option, none, some, List, [], ◌∷◌, ◌++◌, map}
use Prim.Native.String.{◌++◌ as str_append}
use finest_vx.Core.Codec.{Codec}
use finest_vx.Core.Serialization.{side_value}
use finest_vx.Core.Decimal.{Decimal}
use finest_vx.Core.Types.{LedgerEntry, JournalTransaction, Book}
use finest_vx.Export.{Library, ExportArtifact}

abbrev pub csv_header : List String
csv_header =
    "book_code" ∷ "transaction_reference" ∷ "posted_at" ∷ "account_code" ∷ "side" ∷ "amount"
    ∷ "currency" ∷ "description" ∷ "tax_rate" ∷ []

-- `entry.description or ""`
abbrev pub or_empty : Option String → String
or_empty none = ""
or_empty (some text) = text

module _ (k : Codec) where
  abbrev pub rate_cell : Option Decimal → String
  rate_cell none = ""
  rate_cell (some rate) = k.format_decimal rate

  unfoldable pub csv_cells : Book → JournalTransaction → LedgerEntry → List String
  csv_cells b t x =
      b.code
      ∷ t.reference
      ∷ k.datetime_isoformat t.posted_at
      ∷ x.account_code
      ∷ side_value x.side
      ∷ k.format_decimal x.amount.decimal_value
      ∷ x.currency
      ∷ or_empty x.description
      ∷ rate_cell x.tax_rate
      ∷ []

  -- The two loops.
  unfoldable pub csv_rows : Book → List JournalTransaction → List (List String)
  csv_rows b [] = []
  csv_rows b (t ∷ rest) = map (csv_cells b t) t.entries ++ csv_rows b rest

  abbrev pub joined : List String → String
  joined [] = ""
  joined (row ∷ rest) = str_append row (joined rest)

  unfoldable pub to_csv : Library → Book → ExportArtifact
  unfolding csv_rows
  to_csv lib b = record {
    format_name = "csv";
    media_type = "text/csv";
    content = joined (map lib.csv_row (csv_header ∷ csv_rows b b.transactions));
  }
