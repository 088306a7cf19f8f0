-- ===== src/Tests/Rows.antt =====
-- A row with one key column and two values; a JSON value is its text, and `null` is null.
use draco.Base.{length, All, ok, ◌≡◌, refl, Bool, false, Option, some, List, [], ◌∷◌}
use draco.Text.{Text, codes, text_eq, is_whitespace, is_control, byte_len, trim, contains}
use draco.Text.Assoc.{get, remove, insert}
use draco.Import.{member, AreDistinct}
use draco.RowEdit.{
  TableCellInput, validate_schema_object_name, validate_table_column, parse_json_value, check_cells,
  validate_table_values, supply, take_keys, validate_row_keys,
}
use draco.RowEdit.Keys.{columns_of, IsGiven, validate_row_keys_complete}
use draco.RowEdit.Values.{cell_columns, AllKnown, validate_table_values_sound}

abbrev as_text : Text → Option Text
as_text s = some s

abbrev is_null_text : Text → Bool
is_null_text s = text_eq s (codes "null")

abbrev cell : Text → Text → TableCellInput
cell column value = record { column = column; value_json = value }

abbrev a_key : List TableCellInput
a_key = cell (codes "id") (codes "7") ∷ []

abbrev some_values : List TableCellInput
some_values = cell (codes "id") (codes "7") ∷ cell (codes "name") (codes "null") ∷ []

validate_row_keys-a_key :
    validate_row_keys as_text is_null_text a_key (codes "id" ∷ [])
    ≡ ok (some ((codes "id", codes "7") ∷ []))
unfolding validate_row_keys supply take_keys validate_schema_object_name parse_json_value get insert
    remove text_eq trim is_whitespace contains is_control byte_len
validate_row_keys-a_key = refl

id-distinct : AreDistinct (codes "id" ∷ [])
unfolding member
id-distinct = (refl, tt)

validate_row_keys_complete_example :
    (length a_key ≡ 1)
    × (r : List (Text × Text)) × (some ((codes "id", codes "7") ∷ []) ≡ some r)
    × (columns_of r ≡ (codes "id" ∷ []))
    × All (λ (e : Text × Text). (is_null_text e.1 ≡ false) × IsGiven as_text a_key e.0 e.1) r
validate_row_keys_complete_example =
    validate_row_keys_complete as_text is_null_text a_key (codes "id" ∷ [])
      (some ((codes "id", codes "7") ∷ [])) id-distinct validate_row_keys-a_key

abbrev table_columns : List Text
table_columns = codes "id" ∷ codes "name" ∷ []

abbrev checked_values : List (Text × Text)
checked_values = (codes "id", codes "7") ∷ (codes "name", codes "null") ∷ []

validate_table_values-some_values :
    validate_table_values as_text is_null_text some_values table_columns ≡ ok checked_values
unfolding validate_table_values check_cells validate_table_column validate_schema_object_name
    parse_json_value member text_eq trim is_whitespace contains is_control byte_len
validate_table_values-some_values = refl

validate_table_values_sound_example :
    (columns_of checked_values ≡ cell_columns some_values)
    × AreDistinct (cell_columns some_values)
    × AllKnown table_columns (cell_columns some_values)
validate_table_values_sound_example =
    validate_table_values_sound as_text is_null_text some_values table_columns checked_values
      validate_table_values-some_values
