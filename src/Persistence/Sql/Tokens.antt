-- ===== src/Persistence/Sql/Tokens.antt =====
-- SQLite reads a quoted text back as one token.
use Prim.Native.Char.{Char, code}
use Prim.Native.String.{[] as empty_text, ◌∷◌ as ◌∷ˢ◌, ◌++◌ as str_append}
use Prim.Native.String.append
use finest_vx.Prelude.{
  ℕ, String, ◌≡◌, refl, Bool, true, false, Option, none, some, arith, ok, ◌==◌, Bool-cases, inl,
  inr, ◌⊎◌, ap, if◌then◌else◌, ◌∙◌,
}
use finest_vx.Persistence.Platform.{Platform}
use finest_vx.Persistence.Sql.{
  str, all_word, is_word, is_identifier, surround, quote_identifier, quote_literal, escape,
}

abbrev pub consed : Char → Option (String × String) → Option (String × String)
consed c none = none
consed c (some (text, rest)) = some (c ∷ˢ text, rest)

-- SQLite's rule for quoted tokens: the token ends at the first quote that stands alone, and two of them
-- are one character. The Boolean says that a quote has just been read.
unfoldable pub token : ℕ → Bool → String → Option (String × String)
token mark true empty_text = some ("", "")
token mark false empty_text = none
token mark true (c ∷ˢ rest) =
    let onward = token mark false rest in
    if code c == mark then consed c onward else some ("", c ∷ˢ rest)
token mark false (c ∷ˢ rest) =
    let closed = token mark true rest in
    let onward = token mark false rest in if code c == mark then closed else consed c onward

-- A token with its opening quote, and what follows it.
abbrev pub quoted_token : ℕ → String → Option (String × String)
unfolding token
quoted_token mark empty_text = none
quoted_token mark (c ∷ˢ rest) = if code c == mark then token mark false rest else none

abbrev pub starts_with_mark : ℕ → String → Bool
starts_with_mark mark empty_text = false
starts_with_mark mark (c ∷ˢ rest) = code c == mark

token_closed :
    (mark : ℕ) (tail : String)
    → starts_with_mark mark tail ≡ false
    → token mark true tail ≡ some ("", tail)
unfolding token
token_closed mark empty_text h = refl
token_closed mark (c ∷ˢ rest) h = rw h refl

-- The clauses of the append, on the texts that quoting makes.
append-cons : (c : Char) (s t : String) → str_append (c ∷ˢ s) t ≡ c ∷ˢ str_append s t
append-cons c s t = append.cons c s t

append-empty : (t : String) → str_append "" t ≡ t
append-empty t = append.nil t

surround-cons :
    (c : Char) (text tail : String)
    → str_append (surround (c ∷ˢ "") text) tail ≡ c ∷ˢ str_append (str_append text (c ∷ˢ "")) tail
surround-cons c text tail =
    let inner = str_append text (c ∷ˢ "") in
    ap (λ (u : String). str_append u tail)
      (append-cons c "" inner ∙ ap (λ (u : String). c ∷ˢ u) (append-empty inner))
    ∙ append-cons c inner tail

token-escape :
    (s tail : String)
    → starts_with_mark 39 tail ≡ false
    → token 39 false (str_append (str_append (escape s) "'") tail) ≡ some (s, tail)
unfolding token escape
token-escape empty_text tail h =
    rw (append-empty "'", append-cons, append-empty tail) (token_closed 39 tail h)
token-escape (c ∷ˢ rest) tail h = elim (Bool-cases (code c == 39)) [
  | inl is ↦
      rw (is, append-cons, append-cons, append-cons, append-cons, token-escape rest tail h, is) refl
  | inr other ↦ rw (other, append-cons, append-cons, other, token-escape rest tail h) refl
]

-- A character of a word is no double quote.
word_unquoted : (c : ℕ) → is_word c ≡ true → (c == 34) ≡ false
word_unquoted c h = ground arith

token-word :
    (s tail : String)
    → all_word s ≡ true
    → starts_with_mark 34 tail ≡ false
    → token 34 false (str_append (str_append s "\"") tail) ≡ some (s, tail)
unfolding token
token-word empty_text tail word h =
    rw (append-empty "\"", append-cons, append-empty tail) (token_closed 34 tail h)
token-word (c ∷ˢ rest) tail word h =
    rw
      (
        append-cons,
        append-cons,
        word_unquoted (code c) (ground arith),
        token-word rest tail (ground arith) h,
      )
      refl

identifier-word : (s : String) → is_identifier s ≡ true → all_word s ≡ true
identifier-word empty_text h = ground arith
identifier-word (c ∷ˢ rest) h = ground arith

module _ (p : Platform) where
  -- The text is quoted as a literal or as an identifier, with the mark of its kind.
  abbrev pub IsQuoted : String → String → ℕ → Type 0
  IsQuoted s out mark =
      ((quote_literal p (str s) ≡ ok out) × (mark ≡ 39))
      ⊎ ((quote_identifier (str s) ≡ ok out) × (mark ≡ 34))

  literal_token :
      (s out tail : String)
      → quote_literal p (str s) ≡ ok out
      → starts_with_mark 39 tail ≡ false
      → quoted_token 39 (str_append out tail) ≡ some (s, tail)
  unfolding quote_literal quoted_token token
  literal_token s out tail h free =
      let same : surround "'" (escape s) ≡ out = ground arith in
      rw (← same)
        (ap (quoted_token 39) (surround-cons "'" (escape s) tail) ∙ token-escape s tail free)

  identifier_token :
      (s out tail : String)
      → quote_identifier (str s) ≡ ok out
      → starts_with_mark 34 tail ≡ false
      → quoted_token 34 (str_append out tail) ≡ some (s, tail)
  unfolding quote_identifier quoted_token token
  identifier_token s out tail h free = elim (Bool-cases (is_identifier s)) [
    | inl valid ↦
        let same : surround "\"" s ≡ out = ground arith in
        rw (← same) (
          ap (quoted_token 34) (surround-cons "\"" s tail)
          ∙ token-word s tail (identifier-word s valid) free)
    | inr bad ↦ absurd (let no = (rw bad at h) in cc)
  ]

  -- A text that is quoted as a literal or as an identifier is one token of SQL, which holds the text that
  -- was given; what follows it, unless that starts with the same mark, is not part of the token.
  pub quoted_token-IsQuoted :
      (s out tail : String) (mark : ℕ)
      → IsQuoted s out mark
      → starts_with_mark mark tail ≡ false
      → quoted_token mark (str_append out tail) ≡ some (s, tail)
  quoted_token-IsQuoted s out tail mark (inl (h, is)) free =
      rw is (literal_token s out tail h (rw is at free))
  quoted_token-IsQuoted s out tail mark (inr (h, is)) free =
      rw is (identifier_token s out tail h (rw is at free))
