-- ===== src/Tests/Markup.antt =====
-- A concrete library that keeps the laws: an element is written in prefix order, each symbol with one
-- character behind it, and read from the end with a stack.
use Prim.Native.Char.{Char, code}
use Prim.Native.String.{[] as empty_text, ◌∷◌ as ◌∷ˢ◌}
use finest_vx.Prelude.{
  ℕ, String, true, false, ◌≡◌, refl, ap, ◌==◌, List, [], ◌∷◌, ok, err, if◌then◌else◌,
}
use finest_vx.Prelude.Int.{ℤ, pos, negsuc}
use finest_vx.Core.Errors.{Result, value_error, malformed, xml_error}
use finest_vx.Export.{Library, Element, Elements, element, child, childless}
use finest_vx.Export.SaftRoundTrip.{LibraryLaws}
use finest_vx.Tests.Codecs.{write_number, read_number, read-write, write_sign}

pub data Piece : Type 0 where
  text : String → Piece
  attributes : List (String × String) → Piece
  one : Element → Piece
  several : Elements → Piece

abbrev cons_char : Char → List Piece → List Piece
cons_char c (text s ∷ stack) = text (c ∷ˢ s) ∷ stack
cons_char c _ = []

abbrev add_attribute : List Piece → List Piece
add_attribute (text name ∷ text value ∷ attributes rest ∷ stack) =
    attributes ((name, value) ∷ rest) ∷ stack
add_attribute _ = []

abbrev make_element : List Piece → List Piece
make_element (text tag ∷ attributes xs ∷ several children ∷ stack) =
    one (element tag xs children) ∷ stack
make_element _ = []

abbrev add_child : List Piece → List Piece
add_child (one x ∷ several rest ∷ stack) = several (child x rest) ∷ stack
add_child _ = []

-- The symbols: ' . a n e c z
abbrev step : ℕ → Char → List Piece → List Piece
step symbol c stack =
    if symbol == 39
    then cons_char c stack
    else if symbol == 46
    then text "" ∷ stack
    else if symbol == 97
    then add_attribute stack
    else if symbol == 110
    then attributes [] ∷ stack
    else if symbol == 101
    then make_element stack
    else if symbol == 99
    then add_child stack
    else several childless ∷ stack

unfoldable pub read_stack : String → List Piece
read_stack empty_text = []
read_stack (symbol ∷ˢ empty_text) = []
read_stack (symbol ∷ˢ (c ∷ˢ rest)) = step (code symbol) c (read_stack rest)

unfoldable write_text : String → String → String
write_text empty_text s = "." ∷ˢ (" " ∷ˢ s)
write_text (c ∷ˢ rest) s = "'" ∷ˢ (c ∷ˢ write_text rest s)

unfoldable write_attributes : List (String × String) → String → String
unfolding write_text
write_attributes [] s = "n" ∷ˢ (" " ∷ˢ s)
write_attributes ((name, value) ∷ rest) s =
    "a" ∷ˢ (" " ∷ˢ write_text name (write_text value (write_attributes rest s)))

unfoldable mutual
  unfolding write_text write_attributes

  pub write_element : Element → String → String
  write_element (element tag xs children) s =
      "e" ∷ˢ (" " ∷ˢ write_text tag (write_attributes xs (write_elements children s)))

  write_elements : Elements → String → String
  write_elements childless s = "z" ∷ˢ (" " ∷ˢ s)
  write_elements (child x rest) s = "c" ∷ˢ (" " ∷ˢ write_element x (write_elements rest s))

read_text : (t s : String) → read_stack (write_text t s) ≡ text t ∷ read_stack s
unfolding read_stack write_text
read_text empty_text s = refl
read_text (c ∷ˢ rest) s = rw (read_text rest s) refl

read_attributes :
    (xs : List (String × String)) (s : String)
    → read_stack (write_attributes xs s) ≡ attributes xs ∷ read_stack s
unfolding read_stack write_attributes
read_attributes [] s = refl
read_attributes ((name, value) ∷ rest) s =
    rw
      (
        read_text name (write_text value (write_attributes rest s)),
        read_text value (write_attributes rest s),
        read_attributes rest s,
      )
      refl

mutual
  unfolding read_stack write_element write_elements

  read_element : (x : Element) (s : String) → read_stack (write_element x s) ≡ one x ∷ read_stack s
  read_element (element tag xs children) s =
      rw
        (
          read_text tag (write_attributes xs (write_elements children s)),
          read_attributes xs (write_elements children s),
          read_elements children s,
        )
        refl

  read_elements :
      (xs : Elements) (s : String) → read_stack (write_elements xs s) ≡ several xs ∷ read_stack s
  read_elements childless s = refl
  read_elements (child x rest) s =
      rw (read_element x (write_elements rest s), read_elements rest s) refl

abbrev pub top : List Piece → Result Element
top (one x ∷ stack) = ok x
top _ = err (xml_error "")

unfoldable pub write_int : ℤ → String
write_int (pos n) = write_sign false (write_number n "")
write_int (negsuc n) = write_sign true (write_number n "")

unfoldable pub parse_int : String → Result ℤ
parse_int empty_text = err (value_error (malformed ""))
parse_int (c ∷ˢ rest) =
    let (n, s) = read_number rest in if code c == 45 then ok (negsuc n) else ok (pos n)

abbrev pub library : Library
library = record {
  show_int = write_int;
  read_int = parse_int;
  is_xml_text = λ s. true;
  tostring = λ x. write_element x "";
  parse = λ s. top (read_stack s);
  conforms = λ x. true;
  json_dumps = λ v. "";
  csv_row = λ cells. "";
}

int_round : (i : ℤ) → parse_int (write_int i) ≡ ok i
unfolding parse_int write_int write_sign
int_round (pos n) = rw (read-write n "") refl
int_round (negsuc n) = rw (read-write n "") refl

pub library_laws : LibraryLaws library
library_laws = record { int_round = int_round; xml_round = λ x h. ap top (read_element x "") }
