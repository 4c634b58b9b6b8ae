-- ===== src/Export/Pages.antt =====
-- Where the lines of the PDF stand.
use finest_vx.Prelude.{
  ℕ, zero, suc, ◌+◌, ◌*◌, ◌≤◌, String, ◌≡◌, refl, List, [], ◌∷◌, All, All-append, arith, length,
  Bool-cases, inl, inr, ap,
}
use finest_vx.Prelude.Int.{ℤ, pos, pos_part, neg_part, ◌-ℤ◌, ◌≤ℤ◌, ltb_ℤ, int_laws}
use finest_vx.Core.Codec.{Codec}
use finest_vx.Core.Types.{LedgerEntry, JournalTransaction, Book}
use finest_vx.Export.{Library}
use finest_vx.Export.Pdf.{
  Draw, set_font, draw_string, show_page, x_origin, line_height, entry_texts, draw_lines,
  break_page, draw_transaction, draw_transactions, draw_book,
}

-- The line stands at most at 800, and at 64 - 16 n at least.
abbrev pub IsInside : ℕ → Draw → Type 0
IsInside n (set_font name size) = Unit
IsInside n (draw_string x y text) = (y ≤ℤ pos 800) × (64 + neg_part y ≤ pos_part y + 16 * n)
IsInside n show_page = Unit

-- Where a transaction may start.
abbrev IsStart : ℤ → Type 0
IsStart y = (y ≤ℤ pos 800) × (pos 80 ≤ℤ y)

module _ (lib : Library) (k : Codec) (n : ℕ) where
  draw_lines-IsInside :
      (x : ℕ) (texts : List String) (y : ℤ) (m : ℕ)
      → y ≤ℤ pos 800
      → length texts ≤ m
      → 64 + neg_part y + 16 * m ≤ pos_part y + 16 * n + 16
      → All (IsInside n) (draw_lines lib k x texts y).0
  unfolding draw_lines
  draw_lines-IsInside x [] y m top short room = tt
  draw_lines-IsInside x (text ∷ rest) y zero top short room = absurd (omega arith)
  draw_lines-IsInside x (text ∷ rest) y (suc m) top short room = (
    (top, omega arith),
    draw_lines-IsInside x rest (y -ℤ pos line_height) m (omega int_laws) (omega arith)
        (omega int_laws),
  )

  draw_lines_below : (x : ℕ) (texts : List String) (y : ℤ) → (draw_lines lib k x texts y).1 ≤ℤ y
  unfolding draw_lines
  draw_lines_below x [] y = omega arith
  draw_lines_below x (text ∷ rest) y =
      omega (int_laws, draw_lines_below x rest (y -ℤ pos line_height))

  break_page-IsStart :
      (y : ℤ)
      → y ≤ℤ pos 800
      → IsStart (break_page lib k y).1 × All (IsInside n) (break_page lib k y).0
  unfolding break_page
  break_page-IsStart y top = elim (Bool-cases (ltb_ℤ y (pos 80))) [
    | inl low ↦ rw low ((omega arith, omega arith), (tt, (tt, tt)))
    | inr high ↦ rw high ((top, ground arith), tt)
  ]

  length-entry_texts : (xs : List LedgerEntry) → length (entry_texts lib k xs) ≡ length xs
  length-entry_texts [] = refl
  length-entry_texts (x ∷ xs) = ap suc (length-entry_texts xs)

  draw_transaction-IsInside :
      (t : JournalTransaction) (y : ℤ)
      → IsStart y
      → length t.entries ≤ n
      → All (IsInside n) (draw_transaction lib k t y).0 × IsStart (draw_transaction lib k t y).1
  unfolding draw_transaction
  draw_transaction-IsInside t y (top, bottom) few =
      let second = y -ℤ pos line_height in
      let third = second -ℤ pos line_height in
      let below = (draw_lines lib k (x_origin + 24) (entry_texts lib k t.entries) third).1 in
      let down : below ≤ℤ third =
        draw_lines_below (x_origin + 24) (entry_texts lib k t.entries) third in
      let (next, turned) = break_page-IsStart (below -ℤ pos 4) (omega int_laws) in
      (
        (
          tt,
          (
            (top, omega arith),
            (
              tt,
              (
                (omega int_laws, omega int_laws),
                All-append (IsInside n) _ _
                    (draw_lines-IsInside (x_origin + 24) (entry_texts lib k t.entries) third n
                      (omega int_laws) (omega (arith, length-entry_texts t.entries))
                      (omega int_laws))
                    turned,
              ),
            ),
          ),
        ),
        next,
      )

  draw_transactions-IsInside :
      (ts : List JournalTransaction) (y : ℤ)
      → IsStart y
      → All (λ t. length t.entries ≤ n) ts
      → All (IsInside n) (draw_transactions lib k ts y)
  unfolding draw_transactions
  draw_transactions-IsInside [] y start few = tt
  draw_transactions-IsInside (t ∷ rest) y start (h, hs) =
      let (inside, next) = draw_transaction-IsInside t y start h in
      All-append (IsInside n) (draw_transaction lib k t y).0 _ inside
        (draw_transactions-IsInside rest (draw_transaction lib k t y).1 next hs)

  -- When no transaction has more than n entries, every line of the PDF stands between 64 - 16 n and
  -- 800 points: with up to four entries none is below the bottom of the page.
  pub draw_book-IsInside :
      (b : Book)
      → All (λ t. length t.entries ≤ n) b.transactions
      → All (IsInside n) (draw_book lib k b)
  unfolding draw_book draw_lines ◌-ℤ◌
  draw_book-IsInside b few = (
    tt,
    (
      (omega arith, omega arith),
      (
        tt,
        (
          (omega arith, omega arith),
          (
            (omega arith, omega arith),
            (
              (omega arith, omega arith),
              (
                (omega arith, omega arith),
                (
                  (omega arith, omega arith),
                  (
                    (omega arith, omega arith),
                    draw_transactions-IsInside b.transactions (pos 656) (omega arith, omega arith)
                        few,
                  ),
                ),
              ),
            ),
          ),
        ),
      ),
    ),
  )
