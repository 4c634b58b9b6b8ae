-- ===== src/Persistence/Sql.antt =====
-- persistence/sql.py: quoting of identifiers and literals, and the rendering of template strings.
pub mod Tokens
use Prim.Native.Char.{Char, code}
use Prim.Native.String.{[] as empty_text, ◌∷◌ as ◌∷ˢ◌, ◌++◌ as str_append}
use finest_vx.Prelude.{
  ℕ, String, Bool, true, false, ◌&&◌, ◌||◌, Option, none, some, List, [], ◌∷◌, ok, err, ◌>>=◌, ◌==◌,
  leb, str_eq, if◌then◌else◌,
}
use finest_vx.Prelude.Int.{ℤ}
use finest_vx.Core.Errors.{type_error, value_error, malformed, Result}
use finest_vx.Persistence.Platform.{Platform}

-- The Python values that are told apart; any other has no rendering.
pub data SqlValue : Type 0 where
  null : SqlValue
  bool : Bool → SqlValue
  int : ℤ → SqlValue
  str : String → SqlValue
  other : SqlValue

-- An interpolation of a template: its value, its conversion and its format spec.
pub data TemplateItem : Type 0 where
  static : String → TemplateItem
  interpolation : SqlValue → Option String → String → TemplateItem

abbrev pub is_letter : ℕ → Bool
is_letter c = ((leb 65 c && leb c 90) || (leb 97 c && leb c 122)) || c == 95

abbrev pub is_word : ℕ → Bool
is_word c = is_letter c || (leb 48 c && leb c 57)

abbrev pub all_word : String → Bool
all_word empty_text = true
all_word (c ∷ˢ rest) = is_word (code c) && all_word rest

-- `_SQLITE_IDENTIFIER_RE.fullmatch`
abbrev pub is_identifier : String → Bool
is_identifier empty_text = false
is_identifier (c ∷ˢ rest) = is_letter (code c) && all_word rest

abbrev pub surround : String → String → String
surround mark text = str_append mark (str_append text mark)

unfoldable pub quote_identifier : SqlValue → Result String
quote_identifier (str s) =
    if is_identifier s then ok (surround "\"" s) else err (value_error (malformed s))
quote_identifier _ = err (type_error "identifier")

-- `value.replace("'", "''")`
unfoldable pub escape : String → String
escape empty_text = ""
escape (c ∷ˢ rest) =
    let onward = escape rest in if code c == 39 then c ∷ˢ (c ∷ˢ onward) else c ∷ˢ onward

module _ (p : Platform) where
  unfoldable pub quote_literal : SqlValue → Result String
  unfolding escape
  quote_literal null = ok "NULL"
  quote_literal (bool b) = err (type_error "bool")
  quote_literal (int i) = ok (p.show_int i)
  quote_literal (str s) = ok (surround "'" (escape s))
  quote_literal other = err (type_error "literal")

  abbrev pub raw_segment : SqlValue → Result String
  raw_segment (str s) = ok s
  raw_segment _ = err (type_error "raw")

  abbrev pub is_plain : Option String → Bool
  is_plain none = true
  is_plain (some conversion) = str_eq conversion ""

  unfoldable pub render_item : TemplateItem → Result String
  unfolding quote_identifier quote_literal
  render_item (static text) = ok text
  render_item (interpolation value conversion spec) =
      if is_plain conversion
      then if str_eq spec "identifier"
        then quote_identifier value
        else if str_eq spec "literal"
        then quote_literal value
        else if str_eq spec "raw"
        then raw_segment value
        else err (value_error (malformed spec))
      else err (value_error (malformed "conversion"))

  unfoldable pub render_sql : List TemplateItem → Result String
  unfolding render_item
  render_sql [] = ok ""
  render_sql (item ∷ rest) = do
    part ← render_item item
    parts ← render_sql rest
    ok (str_append part parts)
