-- ===== src/TableEditor.antt =====
-- draco-core/src/postgres/queries/alter_table.rs: the columns of the table editor's form, the
-- checks of their names and SQL fragments, and the statement that creates a table. Sending a
-- statement to the server is not modelled.
pub mod Alter
pub mod Maintenance
pub mod Destructive
pub mod Unchanged
pub mod Server
pub mod Executed
pub mod Applied
pub mod Accepted
pub mod Previewed
pub mod Promised
pub mod Printed
pub mod Sent
use draco.Base.{
  ltb, if◌then◌else◌, is_empty, any, retain, Result, err, ok, ◌>>=◌, ◌>>◌, reject_if, String, Bool,
  ◌||◌, Option, none, some, List, [], ◌∷◌, ◌++◌, map,
}
use draco.Text.{
  Text, codes, is_control, to_ascii_uppercase, byte_len, trim, contains, contains_text, join,
}
use draco.Error.{CoreError, other}
use draco.Import.{member}
use draco.SchemaDiff.Ident.{double_quotes}
use draco.SchemaDiff.Render.{format}

pub record NewColumnReference : Type 0 where
  pub schema : Text
  pub table : Text
  pub column : Text
  pub on_delete : Option Text

pub record NewTableColumn : Type 0 where
  pub name : Text
  pub data_type : Text
  pub nullable : Bool
  pub primary_key : Bool
  pub unique : Bool
  pub default : Option Text
  pub references : Option NewColumnReference

-- `quote_ident` of queries/helpers.rs, which quotes every name.
unfoldable pub quote_name : Text → Text
unfolding double_quotes
quote_name ident = b'"' ∷ (double_quotes ident ++ b'"' ∷ [])

-- `CoreError::Other(format!("{label} ..."))`
abbrev labelled : String → String → CoreError
labelled label message = other (codes label ++ codes message)

unfoldable pub validate_identifier : Text → String → Result CoreError (Unit {0})
validate_identifier value label = do
  reject_if (is_empty (trim value) || contains 0 value || any is_control value)
      (labelled label " name is invalid")
  reject_if (ltb 63 (byte_len value)) (labelled label " name must be at most 63 bytes")

-- A text that is not trimmed to nothing.
abbrev pub written_text : Text → Option Text
written_text value = if is_empty (trim value) then none else some value

-- The test of `validate_sql_fragment`, on the trimmed text.
unfoldable pub is_bad_fragment : Text → Bool
is_bad_fragment value =
    is_empty value
    || ltb 1000 (byte_len value)
    || contains 0 value
    || contains b';' value
    || contains_text (codes "--") value
    || contains_text (codes "/*") value
    || contains_text (codes "*/") value

unfoldable pub validate_sql_fragment : Text → String → Result CoreError (Unit {0})
validate_sql_fragment value label =
    reject_if (is_bad_fragment (trim value)) (labelled label " is invalid")

-- A default counts as given if it is not blank.
abbrev pub given : Option Text → Option Text
given none = none
given (some value) = written_text value

abbrev pub check_default : Option Text → Result CoreError (Unit {0})
check_default none = ok tt
check_default (some value) = validate_sql_fragment value "column default"

unfoldable pub validate_table_column_definition :
    Text → Text → Option Text → Result CoreError (Unit {0})
validate_table_column_definition name data_type default = do
  validate_identifier name "column"
  validate_sql_fragment data_type "column type"
  check_default (given default)

-- `format!("{}.{}", quote_ident(schema), quote_ident(name))`
unfoldable pub qualified_name : Text → Text → Text
qualified_name schema name = quote_name schema ++ (b'.' ∷ quote_name name)

abbrev delete_actions : List Text
delete_actions =
    codes "NO ACTION"
    ∷ codes "RESTRICT"
    ∷ codes "CASCADE"
    ∷ codes "SET NULL"
    ∷ codes "SET DEFAULT"
    ∷ []

unfoldable pub delete_clause : Option Text → Result CoreError Text
delete_clause none = ok []
delete_clause (some action) =
    let upper = map to_ascii_uppercase (trim action) in
    if is_empty upper
    then ok []
    else if member upper delete_actions
    then ok (codes " ON DELETE " ++ upper)
    else err (other (codes "invalid foreign-key delete action"))

unfoldable pub references_clause : Option NewColumnReference → Result CoreError Text
references_clause none = ok []
references_clause (some reference) = do
  validate_identifier reference.schema "referenced schema"
  validate_identifier reference.table "referenced table"
  validate_identifier reference.column "referenced column"
  action ← delete_clause reference.on_delete
  ok (
      format (
        codes " REFERENCES "
        ∷ qualified_name reference.schema reference.table
        ∷ codes "("
        ∷ quote_name reference.column
        ∷ codes ")"
        ∷ action
        ∷ []))

unfoldable pub default_clause : Option Text → Result CoreError Text
default_clause none = ok []
default_clause (some value) = do
  validate_sql_fragment value "column default"
  ok (codes " DEFAULT " ++ trim value)

-- The definition of one column, in the loop's order of checks.
unfoldable pub new_column_definition : List Text → NewTableColumn → Result CoreError Text
new_column_definition seen column = do
  validate_identifier column.name "column"
  reject_if (member column.name seen) (other (codes "duplicate table column: " ++ column.name))
  validate_sql_fragment column.data_type "column type"
  default ← default_clause (given column.default)
  references ← references_clause column.references
  ok (
      format (
        quote_name column.name
        ∷ codes " "
        ∷ trim column.data_type
        ∷ (if column.nullable then [] else codes " NOT NULL")
        ∷ (if column.unique then codes " UNIQUE" else [])
        ∷ default
        ∷ references
        ∷ []))

-- The loop over the columns. `seen` is the set of the names so far.
unfoldable pub new_definitions : List Text → List NewTableColumn → Result CoreError (List Text)
unfolding new_column_definition
new_definitions seen [] = ok []
new_definitions seen (column ∷ columns) = do
  definition ← new_column_definition seen column
  rest ← new_definitions (column.name ∷ seen) columns
  ok (definition ∷ rest)

abbrev key_names : List NewTableColumn → List Text
key_names columns = map (λ (c : NewTableColumn). c.name) (retain (λ c. c.primary_key) columns)

abbrev key_definition : List Text → List Text
key_definition [] = []
key_definition (k ∷ ks) =
    format (codes "PRIMARY KEY (" ∷ join (codes ", ") (map quote_name (k ∷ ks)) ∷ codes ")" ∷ [])
    ∷ []

unfoldable pub build_create_table_statement :
    Text → Text → List NewTableColumn → Result CoreError Text
unfolding new_definitions
build_create_table_statement schema table columns = do
  validate_identifier schema "schema"
  validate_identifier table "table"
  reject_if (is_empty columns) (other (codes "at least one table column is required"))
  definitions ← new_definitions [] columns
  ok (
      format (
        codes "CREATE TABLE "
        ∷ qualified_name schema table
        ∷ codes " (\n  "
        ∷ join (codes ",\n  ") (definitions ++ key_definition (key_names columns))
        ∷ codes "\n)"
        ∷ []))
