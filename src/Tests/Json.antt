-- ===== src/Tests/Json.antt =====
-- Two objects: one gives a name twice, the other gives NULL and a name of its own. A value is a text
-- or NULL.
use draco.Base.{if◌then◌else◌, Result, err, ok, ◌≡◌, refl, Bool, Option, none, some, List, [], ◌∷◌}
use draco.Text.{Text, codes, text_eq, strip_prefix}
use draco.Text.Assoc.{get, remove, insert}
use draco.Import.{ParsedImport, ImportParseError, json_not_array_of_objects}
use draco.Import.Csv.{strip_bom}
use draco.Import.Json.{
  JsonKind, null, text_value, replace_at, put_field, visit_map, add_keys, collect_objects, fill_row,
  fill_rows, rows_of_items, parse_json,
}
use draco.Import.Json.Imported.{IsImported, parse_json-IsImported}

abbrev sample_kind : Option Text → JsonKind
sample_kind none = null
sample_kind (some text) = text_value text

abbrev sample_string : Option Text → Text
sample_string none = codes "null"
sample_string (some text) = text

abbrev sample_items : List (Option (List (Text × Option Text)))
sample_items =
    some (
      (codes "id", some (codes "1"))
      ∷ (codes "name", some (codes "ana"))
      ∷ (codes "id", some (codes "2"))
      ∷ [])
    ∷ some ((codes "name", none) ∷ (codes "mail", some (codes "x")) ∷ [])
    ∷ []

abbrev sample_from_str : Text → Option (List (Option (List (Text × Option Text))))
sample_from_str text =
    if text_eq text (codes "[two]")
    then some sample_items
    else if text_eq text (codes "[1]")
    then some (none ∷ [])
    else none

abbrev sample_is_json : Text → Bool
sample_is_json text = text_eq text (codes "{}")

abbrev sample_json : Text → Result ImportParseError (Option ParsedImport)
sample_json = parse_json sample_kind sample_string sample_from_str sample_is_json

abbrev sample_answer : Option ParsedImport
sample_answer = some (record {
  columns = codes "id" ∷ codes "name" ∷ codes "mail" ∷ [];
  rows =
      (some (codes "2") ∷ some (codes "ana") ∷ none ∷ [])
      ∷ (none ∷ none ∷ some (codes "x") ∷ [])
      ∷ [];
})

two_objects : sample_json (0xfeff ∷ codes "[two]") ≡ ok sample_answer
unfolding parse_json strip_bom strip_prefix text_eq visit_map put_field rows_of_items
    collect_objects add_keys get insert remove fill_rows fill_row replace_at
two_objects = refl

a_number : sample_json (codes "[1]") ≡ err (json_not_array_of_objects 1)
unfolding parse_json strip_bom strip_prefix text_eq rows_of_items collect_objects
a_number = refl

no_array : sample_json (codes "{}") ≡ err (json_not_array_of_objects 0)
unfolding parse_json strip_bom strip_prefix text_eq
no_array = refl

parse_json-IsImported_example :
    IsImported sample_kind sample_string
      (sample_from_str (strip_bom (0xfeff ∷ codes "[two]")))
      sample_answer
parse_json-IsImported_example =
    parse_json-IsImported sample_kind sample_string sample_from_str sample_is_json
      (0xfeff ∷ codes "[two]") sample_answer two_objects
