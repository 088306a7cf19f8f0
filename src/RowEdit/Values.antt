-- ===== src/RowEdit/Values.antt =====
-- The values of a new or an edited row.
use draco.Base.{
  ltb, length, All, ok, >>=-eq-ok, reject_if-eq-ok, ◌≡◌, Bool, true, Option, List, [], ◌∷◌, arith,
}
use draco.Text.{Text, codes}
use draco.Import.{member, AreDistinct, AreNew, AreNew-cons}
use draco.RowEdit.{
  TableCellInput, validate_schema_object_name, validate_table_column, parse_json_value, check_cells,
  validate_table_values,
}
use draco.RowEdit.Keys.{columns_of}

abbrev pub cell_columns : List TableCellInput → List Text
cell_columns [] = []
cell_columns (cell ∷ cells) = cell.column ∷ cell_columns cells

abbrev pub AllKnown : List Text → List Text → Type 0
AllKnown columns names = All (λ name. member name columns ≡ true) names

validate_table_column-member :
    (column : Text) (columns : List Text)
    → validate_table_column column columns ≡ ok tt
    → member column columns ≡ true
unfolding validate_table_column
validate_table_column-member column columns h =
    let (_, named, h1) =
      >>=-eq-ok (validate_schema_object_name column (codes "label.column")) _ h in
    ground arith

module _ {V : Type 0} (from_str : Text → Option V) (is_null : V → Bool) where
  check_cells-ok :
      (columns seen : List Text) (cells : List TableCellInput) (r : List (Text × V))
      → check_cells from_str is_null columns seen cells ≡ ok r
      → (columns_of r ≡ cell_columns cells)
        × AreDistinct (cell_columns cells)
        × AreNew seen (cell_columns cells)
        × AllKnown columns (cell_columns cells)
  unfolding check_cells
  check_cells-ok columns seen [] r h = (ground arith, tt, tt, tt)
  check_cells-ok columns seen (cell ∷ cells) r h =
      let (done, known, h1) = >>=-eq-ok (validate_table_column cell.column columns) _ h in
      let (new, h2) = reject_if-eq-ok (member cell.column seen) _ _ h1 in
      let (value, parsed, h3) =
        >>=-eq-ok (parse_json_value from_str is_null cell.value_json) _ h2 in
      let (rest, checked, h4) =
        >>=-eq-ok (check_cells from_str is_null columns (cell.column ∷ seen) cells) _ h3 in
      let (same, distinct, fresh, all_known) =
        check_cells-ok columns (cell.column ∷ seen) cells rest checked in
      let (apart, absent) = AreNew-cons cell.column seen (cell_columns cells) fresh in
      (
        cc (h4, same),
        (absent, distinct),
        (new, apart),
        (validate_table_column-member cell.column columns known, all_known),
      )

-- A row that is accepted has a value for exactly the columns that were sent, in their order, all of
-- them columns of the table and none twice.
pub validate_table_values_sound :
    {V : Type 0} (from_str : Text → Option V) (is_null : V → Bool) (cells : List TableCellInput)
    (columns : List Text) (r : List (Text × V))
    → validate_table_values from_str is_null cells columns ≡ ok r
    → (columns_of r ≡ cell_columns cells)
      × AreDistinct (cell_columns cells)
      × AllKnown columns (cell_columns cells)
unfolding validate_table_values
validate_table_values_sound from_str is_null cells columns r h =
    let (few, h1) = reject_if-eq-ok (ltb (length columns) (length cells)) _ _ h in
    let (same, distinct, _, known) = check_cells-ok from_str is_null columns [] cells r h1 in
    (same, distinct, known)
