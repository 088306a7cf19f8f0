-- ===== src/Import/Mapping.antt =====
-- draco-app/src/table_import.rs: the delimiter that `load_source` reads, `validate_mapping`,
-- `encode_rows` and `normalize_column_name`.
pub mod Checked
pub mod Delivered
use mathlib.Core.Option.{map as map_option}
use draco.Base.{
  leb, ◌==◌, if◌then◌else◌, length, get_elem?, is_empty, retain, Result, ok, err, ◌>>=◌, ◌>>◌,
  reject_if, ℕ, ◌*◌, Bool, true, false, not, ◌&&◌, ◌||◌, Option, none, some, List, [], ◌∷◌, ◌++◌,
  map,
}
use draco.Text.{Text, codes, text_eq, is_whitespace, to_ascii_lowercase, trim, str_bytes, join}
use draco.Error.{validation, with_param, ApplicationError, invalid_input}
use draco.Import.{member}
use draco.Import.Copy.{Bytes, push_copy_text_row}

pub record TableImportColumnView : Type 0 where
  pub name : Text
  pub data_type : Text
  pub nullable : Bool
  pub has_default : Bool

pub record TableImportMappingInput : Type 0 where
  pub source_column : ℕ
  pub table_column : Text

-- The delimiter of `load_source`: a comma by default, `\t` for a tab, else one character.
unfoldable pub read_delimiter : Option Text → Result ApplicationError ℕ
read_delimiter none = ok b','
read_delimiter (some []) = ok b','
read_delimiter (some (c ∷ [])) =
    if c == b'"' || c == b'\n' || c == b'\r'
    then err (invalid_input (validation "validation.importDelimiterInvalid"))
    else ok c
read_delimiter (some (c ∷ d ∷ s)) =
    if text_eq (c ∷ d ∷ s) (codes "\\t")
    then ok b'\t'
    else err (invalid_input (validation "validation.importDelimiterInvalid"))

unfoldable pub column_names : List TableImportColumnView → List Text
column_names [] = []
column_names (column ∷ columns) = column.name ∷ column_names columns

-- The loop over the mapping. `used` is the set of the table columns taken so far.
unfoldable pub map_entries :
    List Text
    → ℕ
    → List Text
    → List ℕ
    → List Text
    → List TableImportMappingInput
    → Result ApplicationError (List ℕ × List Text)
map_entries known sources used indexes targets [] = ok (indexes, targets)
map_entries known sources used indexes targets (entry ∷ rest) = do
  reject_if (leb sources entry.source_column || not (member entry.table_column known))
      (invalid_input (validation "validation.importMappingMismatch"))
  reject_if (member entry.table_column used) (
      invalid_input
        (with_param (validation "validation.importMappingDuplicate") "name" entry.table_column))
  map_entries known sources (entry.table_column ∷ used) (indexes ++ entry.source_column ∷ [])
      (targets ++ entry.table_column ∷ []) rest

-- `targets` lists what the set `used` holds at the end of the loop.
-- A column that the table cannot fill by itself and the mapping does not fill.
unfoldable pub is_missing : List Text → TableImportColumnView → Bool
is_missing used column =
    not column.nullable && not column.has_default && not (member column.name used)

unfoldable pub validate_mapping :
    List TableImportMappingInput
    → List Text
    → List TableImportColumnView
    → Result ApplicationError (List ℕ × List Text)
unfolding map_entries is_missing
validate_mapping mapping source_columns table_columns = do
  reject_if (is_empty mapping) (invalid_input (validation "validation.importMappingEmpty"))
  (indexes, targets) ←
      map_entries (column_names table_columns) (length source_columns) [] [] [] mapping
  reject_if (not (is_empty (retain (is_missing targets) table_columns))) (
      invalid_input (
        with_param (validation "validation.importRequiredColumnsUnmapped") "names"
          (join (codes ", ") (column_names (retain (is_missing targets) table_columns)))))
  ok (indexes, targets)

-- `COPY_CHUNK_BYTES`
abbrev pub copy_chunk_bytes : ℕ
copy_chunk_bytes = 1024 * 1024

-- The values of one row that the mapping reads, as bytes; `none` is the panic of an index that is
-- out of range.
unfoldable pub select_values : List (Option Text) → List ℕ → Option (List (Option Bytes))
select_values row [] = some []
select_values row (index ∷ indexes) = elim (get_elem? row index) [
  | none ↦ none
  | some value ↦
      map_option (λ values. map_option str_bytes value ∷ values) (select_values row indexes)
]

-- The loop over the rows, with the buffer that is being filled, and what follows the loop.
unfoldable pub encode_from : Bytes → List (List (Option Text)) → List ℕ → Option (List Bytes)
unfolding select_values
encode_from buffer [] indexes = some (if is_empty buffer then [] else buffer ∷ [])
encode_from buffer (row ∷ rows) indexes = elim (select_values row indexes) [
  | none ↦ none
  | some values ↦
      let filled = push_copy_text_row buffer values in
      elim (leb copy_chunk_bytes (length filled)) [
        | true ↦ map_option (λ chunks. filled ∷ chunks) (encode_from [] rows indexes)
        | false ↦ encode_from filled rows indexes
      ]
]

unfoldable pub encode_rows : List (List (Option Text)) → List ℕ → Option (List Bytes)
unfolding encode_from
encode_rows rows indexes = encode_from [] rows indexes

-- `Customer ID` and `customer_id` match the same column.
unfoldable pub normalize_column_name : Text → Text
normalize_column_name name =
    map (λ c. if is_whitespace c || c == b'-' then b'_' else to_ascii_lowercase c) (trim name)
