-- ===== src/Export/Pdf.antt =====
-- export/service.py `to_pdf`: the drawing calls, in points from the bottom of the page. `y` goes below 0
-- when nothing stops it.
use finest_vx.Prelude.{ℕ, ◌+◌, ◌*◌, String, List, [], ◌∷◌, ◌++◌, length, if◌then◌else◌}
use Prim.Native.String.{◌++◌ as str_append}
use finest_vx.Prelude.Int.{ℤ, pos, ◌-ℤ◌, ltb_ℤ}
use finest_vx.Core.Codec.{Codec}
use finest_vx.Core.Serialization.{side_value}
use finest_vx.Core.Types.{LedgerEntry, JournalTransaction, Book}
use finest_vx.Export.{Library, ExportArtifact}

pub data Draw : Type 0 where
  set_font : String → ℕ → Draw
  draw_string : ℕ → ℤ → String → Draw
  show_page : Draw

abbrev pub x_origin : ℕ
x_origin = 48

abbrev pub line_height : ℕ
line_height = 16

abbrev pub spaced : List String → String
spaced [] = ""
spaced (word ∷ []) = word
spaced (word ∷ next ∷ rest) = str_append word (str_append " " (spaced (next ∷ rest)))

module _ (lib : Library) (k : Codec) where
  abbrev pub entry_text : LedgerEntry → String
  entry_text x = spaced (
      side_value x.side
      ∷ x.account_code
      ∷ k.format_decimal x.amount.decimal_value
      ∷ x.currency
      ∷ [])

  -- Lines one under the other, and where the next one stands.
  unfoldable pub draw_lines : ℕ → List String → ℤ → List Draw × ℤ
  draw_lines x [] y = ([], y)
  draw_lines x (text ∷ rest) y =
      let (drawn, below) = draw_lines x rest (y -ℤ pos line_height) in
      (draw_string x y text ∷ drawn, below)

  abbrev pub entry_texts : List LedgerEntry → List String
  entry_texts [] = []
  entry_texts (x ∷ rest) = entry_text x ∷ entry_texts rest

  -- The test at the end of a transaction.
  unfoldable pub break_page : ℤ → List Draw × ℤ
  break_page y =
      if ltb_ℤ y (pos 80) then (show_page ∷ set_font "Helvetica" 10 ∷ [], pos 800) else ([], y)

  unfoldable pub draw_transaction : JournalTransaction → ℤ → List Draw × ℤ
  unfolding draw_lines break_page
  draw_transaction t y =
      let second = y -ℤ pos line_height in
      let (entries, below) =
        draw_lines (x_origin + 24) (entry_texts t.entries) (second -ℤ pos line_height) in
      let (turned, next) = break_page (below -ℤ pos 4) in
      (
        set_font "Helvetica-Bold" 10
            ∷ draw_string x_origin y (spaced (t.reference ∷ k.datetime_isoformat t.posted_at ∷ []))
            ∷ set_font "Helvetica" 9
            ∷ draw_string (x_origin + 12) second t.description
            ∷ (entries ++ turned),
        next,
      )

  unfoldable pub draw_transactions : List JournalTransaction → ℤ → List Draw
  unfolding draw_transaction
  draw_transactions [] y = []
  draw_transactions (t ∷ rest) y =
      let (drawn, next) = draw_transaction t y in drawn ++ draw_transactions rest next

  abbrev pub count_text : {A : Type 0} → String → List A → String
  count_text label xs = str_append label (lib.show_int (pos (length xs)))

  abbrev pub header_texts : Book → List String
  header_texts b =
      str_append "Name: " b.name
      ∷ str_append "Base currency: " b.base_currency
      ∷ str_append "Legislative pack: " b.legislative_pack
      ∷ count_text "Accounts: " b.accounts
      ∷ count_text "Periods: " b.periods
      ∷ count_text "Transactions: " b.transactions
      ∷ []

  unfoldable pub draw_book : Book → List Draw
  unfolding draw_lines draw_transactions
  draw_book b =
      let top = pos 800 in
      let (header, below) = draw_lines x_origin (header_texts b) (top -ℤ pos (line_height * 2)) in
      set_font "Helvetica-Bold" 14
      ∷ draw_string x_origin top (str_append "FinestVX Book: " b.code)
      ∷ set_font "Helvetica" 10
      ∷ (header ++ draw_transactions b.transactions (below -ℤ pos line_height))

  -- The canvas writes the document of its drawing calls.
  unfoldable pub to_pdf : (List Draw → String) → Book → ExportArtifact
  unfolding draw_book
  to_pdf render b = record {
    format_name = "pdf";
    media_type = "application/pdf";
    content = render (draw_book b);
  }
