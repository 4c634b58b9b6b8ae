-- ===== src/Export.antt =====
-- export/service.py: the artifacts of a book. lxml, csv, json and reportlab are libraries: an artifact
-- is the text or the drawing calls that they are given, and `Library` is what the code uses of them.
pub mod Xml
pub mod Saft
pub mod SaftRoundTrip
pub mod Csv
pub mod Pdf
pub mod Pages
use finest_vx.Prelude.{String, Bool, true, ◌&&◌, Option, none, some, List, [], ◌∷◌}
use finest_vx.Prelude.Int.{ℤ}
use finest_vx.Core.Codec.{Codec}
use finest_vx.Core.Errors.{Result}
use finest_vx.Core.Serialization.{book_to_mapping}
use finest_vx.Core.Types.{Book}
use finest_vx.Core.Value.{Value}

mutual
  -- An lxml element: tag, attributes in the order of `set`, children.
  pub data Element : Type 0 where
    element : String → List (String × String) → Elements → Element

  pub data Elements : Type 0 where
    child : Element → Elements → Elements
    childless : Elements

pub record Library : Type 0 where
  -- `str(number)` and `int(text)`, a ValueError for text that is no number
  pub show_int : ℤ → String
  pub read_int : String → Result ℤ
  -- whether an attribute can be set to the text: a ValueError for control characters and NUL
  pub is_xml_text : String → Bool
  -- `etree.tostring` and `etree.parse`, an XMLSyntaxError for text that does not parse
  pub tostring : Element → String
  pub parse : String → Result Element
  -- whether `assertValid` of the schema passes
  pub conforms : Element → Bool
  -- `json.dumps(payload, ensure_ascii=False, separators=(",", ":"), sort_keys=True)`
  pub json_dumps : Value → String
  -- one row of `csv.writer`
  pub csv_row : List String → String

module _ (lib : Library) where
  unfoldable pub attributes_settable : List (String × String) → Bool
  attributes_settable [] = true
  attributes_settable ((name, text) ∷ rest) = lib.is_xml_text text && attributes_settable rest

  -- Every `set` that builds the element succeeds.
  unfoldable mutual
    unfolding attributes_settable

    pub is_settable : Element → Bool
    is_settable (element tag attributes children) =
        attributes_settable attributes && are_settable children

    pub are_settable : Elements → Bool
    are_settable childless = true
    are_settable (child x rest) = is_settable x && are_settable rest

pub record ExportArtifact : Type 0 where
  pub format_name : String
  pub media_type : String
  pub content : String

unfoldable pub to_json : Library → Codec → Book → ExportArtifact
to_json lib k b = record {
  format_name = "json";
  media_type = "application/json";
  content = lib.json_dumps (book_to_mapping k b);
}
