-- ===== src/RowEdit.antt =====
-- The checks of an edited table row in draco-app/src/lib.rs: `validate_schema_object_name`,
-- `validate_table_column`, `parse_json_value`, `validate_table_values` and `validate_row_keys`.
-- JSON values and their parser are parameters.
pub mod Keys
pub mod Values
use mathlib.Core.Option.{map as map_option}
use draco.Base.{
  ltb, ◌==◌, is_some, length, is_empty, any, Result, ok, ◌>>=◌, ◌>>◌, ok_or, reject_if, String,
  Bool, not, ◌||◌, Option, none, some, List, [], ◌∷◌,
}
use draco.Text.{Text, codes, is_control, byte_len, trim, contains}
use draco.Text.Assoc.{HashMap, get, remove, insert}
use draco.Error.{validation, with_param, ApplicationError, invalid_input}
use draco.Import.{member}

pub record TableCellInput : Type 0 where
  pub column : Text
  pub value_json : Text

abbrev rejected : String → ApplicationError
rejected key = invalid_input (validation key)

-- `label` is the catalog key that `Validation::label` makes of its words.
unfoldable pub validate_schema_object_name : Text → Text → Result ApplicationError (Unit {0})
validate_schema_object_name value label = do
  reject_if (is_empty (trim value) || contains 0 value || any is_control value)
      (invalid_input (with_param (validation "validation.objectNameRequired") "label" label))
  reject_if (ltb 63 (byte_len value))
      (invalid_input (with_param (validation "validation.objectNameTooLong") "label" label))

unfoldable pub validate_table_column : Text → List Text → Result ApplicationError (Unit {0})
validate_table_column column columns = do
  validate_schema_object_name column (codes "label.column")
  reject_if (not (member column columns)) (rejected "validation.columnDoesNotBelongToThe")

-- `serde_json::from_str` and `Value::is_null`.
module _ {V : Type 0} (from_str : Text → Option V) (is_null : V → Bool) where
  unfoldable pub parse_json_value : Text → Result ApplicationError V
  parse_json_value value = do
    reject_if (ltb 1048576 (byte_len value)) (rejected "validation.tableValuesMustBeAtMost")
    ok_or (from_str value) (rejected "validation.tableValuesMustUseValidJson")

  -- The loop over the cells. `seen` is the set of the columns so far.
  unfoldable pub check_cells :
      List Text → List Text → List TableCellInput → Result ApplicationError (List (Text × V))
  check_cells columns seen [] = ok []
  check_cells columns seen (cell ∷ cells) = do
    validate_table_column cell.column columns
    reject_if (member cell.column seen) (rejected "validation.tableRowContainsADuplicateColumn")
    value ← parse_json_value cell.value_json
    rest ← check_cells columns (cell.column ∷ seen) cells
    ok ((cell.column, value) ∷ rest)

  unfoldable pub validate_table_values :
      List TableCellInput → List Text → Result ApplicationError (List (Text × V))
  unfolding check_cells
  validate_table_values values columns = do
    reject_if (ltb (length columns) (length values))
        (rejected "validation.tableRowContainsTooManyColumns")
    check_cells columns [] values

  -- The loop that fills the map of the supplied keys.
  unfoldable pub supply : HashMap V → List TableCellInput → Result ApplicationError (HashMap V)
  supply supplied [] = ok supplied
  supply supplied (key ∷ keys) = do
    validate_schema_object_name key.column (codes "label.primaryKeyColumn")
    value ← parse_json_value key.value_json
    reject_if (is_null value) (rejected "validation.primaryKeyValuesCannotBeNull")
    reject_if (is_some (get key.column supplied))
        (rejected "validation.primaryKeyContainsADuplicateColumn")
    supply (insert key.column value supplied) keys

  -- The values of the key columns, each taken out of the map; `none` is the panic of `expect`.
  unfoldable pub take_keys : HashMap V → List Text → Option (List (Text × V))
  take_keys supplied [] = some []
  take_keys supplied (column ∷ columns) = elim (get column supplied) [
    | none ↦ none
    | some value ↦
        map_option (λ rest. (column, value) ∷ rest) (take_keys (remove column supplied) columns)
  ]

  unfoldable pub validate_row_keys :
      List TableCellInput → List Text → Result ApplicationError (Option (List (Text × V)))
  unfolding supply take_keys
  validate_row_keys keys primary_keys = do
    reject_if (is_empty primary_keys) (rejected "validation.editingRequiresAPrimaryKeyOn")
    supplied ← supply [] keys
    reject_if
        (not (length supplied == length primary_keys)
          || any (λ column. not (is_some (get column supplied))) primary_keys)
        (rejected "validation.aCompletePrimaryKeyIsRequired")
    ok (take_keys supplied primary_keys)
