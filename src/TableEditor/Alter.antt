-- ===== src/TableEditor/Alter.antt =====
-- draco-core/src/postgres/queries/alter_table.rs: the statements that bring a table to the state
-- of the form; and `build_alter_table_preview` of draco-app/src/lib.rs.
use draco.Base.{
  ltb, ◌==◌, if◌then◌else◌, unwrap_or, length, is_empty, any, all, retain, find, Result, err, ok,
  ◌>>=◌, ◌>>◌, reject_if, String, Bool, true, false, not, ◌&&◌, ◌||◌, Option, none, some, List, [],
  ◌∷◌, ◌++◌, map,
}
use draco.Text.{Text, codes, text_eq, trim, contains_text, join}
use draco.Error.{CoreError, validation, ApplicationError, invalid_input, core}
use draco.Import.{member}
use draco.RowEdit.{validate_schema_object_name}
use draco.SchemaDiff.{same_bool}
use draco.SchemaDiff.Render.{format}
use draco.TableEditor.{quote_name, given, validate_table_column_definition, qualified_name}

-- The fields of a column that the editor reads.
pub record TableDetailColumn : Type 0 where
  pub name : Text
  pub full_type : Text
  pub is_nullable : Bool
  pub column_default : Option Text
  pub is_primary_key : Bool

pub record ColumnEdit : Type 0 where
  pub original_name : Option Text
  pub name : Text
  pub data_type : Text
  pub nullable : Bool
  pub default : Option Text
  pub primary_key : Bool
  pub removed : Bool

-- What one statement does to the table.
pub data AlterAction : Type 0 where
  drop_constraint : Text → AlterAction
  add_column : Text → Text → Bool → Option Text → AlterAction
  drop_column : Text → AlterAction
  rename_column : Text → Text → AlterAction
  set_type : Text → Text → AlterAction
  set_nullable : Text → Bool → AlterAction
  set_default : Text → Text → AlterAction
  add_primary_key : List Text → AlterAction
  rename_table : Text → AlterAction

-- The part of a statement behind the table's name.
unfoldable pub clause : AlterAction → Text
clause (drop_constraint name) = codes "DROP CONSTRAINT " ++ quote_name name
clause (add_column name data_type nullable default) = format (
    codes "ADD COLUMN "
    ∷ quote_name name
    ∷ codes " "
    ∷ data_type
    ∷ (if nullable then [] else codes " NOT NULL")
    ∷ elim default [ none ↦ [] | some value ↦ codes " DEFAULT " ++ value ]
    ∷ [])
clause (drop_column name) = codes "DROP COLUMN " ++ quote_name name
clause (rename_column old new) =
    format (codes "RENAME COLUMN " ∷ quote_name old ∷ codes " TO " ∷ quote_name new ∷ [])
clause (set_type name data_type) = format (
    codes "ALTER COLUMN "
    ∷ quote_name name
    ∷ codes " TYPE "
    ∷ data_type
    ∷ codes " USING "
    ∷ quote_name name
    ∷ codes "::"
    ∷ data_type
    ∷ [])
clause (set_nullable name nullable) = format (
    codes "ALTER COLUMN "
    ∷ quote_name name
    ∷ (if nullable then codes " DROP NOT NULL" else codes " SET NOT NULL")
    ∷ [])
clause (set_default name value) = format (
    codes "ALTER COLUMN "
    ∷ quote_name name
    ∷ (if is_empty value then codes " DROP DEFAULT" else codes " SET DEFAULT " ++ value)
    ∷ [])
clause (add_primary_key names) =
    format (codes "ADD PRIMARY KEY (" ∷ join (codes ", ") (map quote_name names) ∷ codes ")" ∷ [])
clause (rename_table name) = codes "RENAME TO " ++ quote_name name

unfoldable pub statement : Text → Text → AlterAction → Text
unfolding clause
statement schema table action =
    format (codes "ALTER TABLE " ∷ qualified_name schema table ∷ codes " " ∷ clause action ∷ [])

-- `if test { statements.push(statement) }`
abbrev pub when {ℓ} : {A : Type ℓ} → Bool → A → List A
when test a = if test then a ∷ [] else []

abbrev pub trimmed_or_empty : Option Text → Text
trimmed_or_empty default = trim (unwrap_or default [])

-- A kept column against its current state.
unfoldable pub changes : Text → TableDetailColumn → ColumnEdit → List AlterAction
changes orig_name current edit =
    let new_default = trimmed_or_empty edit.default in
    let old_default = trimmed_or_empty current.column_default in
    when (not (text_eq edit.name orig_name)) (rename_column orig_name edit.name)
    ++ (when (not (text_eq current.full_type edit.data_type)) (set_type edit.name edit.data_type)
        ++ (when (not (same_bool current.is_nullable edit.nullable))
              (set_nullable edit.name edit.nullable)
            ++ when (not (text_eq old_default new_default)) (set_default edit.name new_default)))

abbrev pub has_column_name : Text → TableDetailColumn → Bool
has_column_name name c = text_eq c.name name

unfoldable pub edit_existing : List TableDetailColumn → Text → ColumnEdit → List AlterAction
unfolding changes
edit_existing original orig_name edit =
    if edit.removed
    then drop_column orig_name ∷ []
    else elim (find (has_column_name orig_name) original) [
      | none ↦ []
      | some current ↦ changes orig_name current edit
    ]

abbrev pub added : ColumnEdit → List AlterAction
added edit =
    if edit.removed
    then []
    else add_column edit.name edit.data_type edit.nullable (given edit.default) ∷ []

abbrev pub edited : List TableDetailColumn → Option Text → ColumnEdit → List AlterAction
edited original none edit = added edit
edited original (some orig_name) edit = edit_existing original orig_name edit

-- The body of the loop over the edits.
unfoldable pub edit_column : List TableDetailColumn → ColumnEdit → List AlterAction
unfolding edit_existing
edit_column original edit = edited original edit.original_name edit

unfoldable pub edit_columns : List TableDetailColumn → List ColumnEdit → List AlterAction
unfolding edit_column
edit_columns original [] = []
edit_columns original (edit ∷ edits) = edit_column original edit ++ edit_columns original edits

unfoldable pub original_primary_key : List TableDetailColumn → List Text
original_primary_key original =
    map (λ (c : TableDetailColumn). c.name) (retain (λ c. c.is_primary_key) original)

unfoldable pub edited_primary_key : List ColumnEdit → List Text
edited_primary_key edits =
    map (λ (e : ColumnEdit). e.name) (retain (λ e. e.primary_key && not e.removed) edits)

abbrev pub named_by : Option Text → Text → Bool
named_by none name = false
named_by (some original_name) name = text_eq original_name name

abbrev pub keeps_name : Text → Text → ColumnEdit → Bool
keeps_name original_name edited_name edit =
    named_by edit.original_name original_name && (text_eq edit.name edited_name && not edit.removed)

-- `zip` and `all`: what is longer has a rest that is not looked at.
unfoldable pub keys_kept : List ColumnEdit → List Text → List Text → Bool
keys_kept edits (o ∷ os) (e ∷ es) = any (keeps_name o e) edits && keys_kept edits os es
keys_kept edits _ _ = true

unfoldable pub primary_key_unchanged : List TableDetailColumn → List ColumnEdit → Bool
unfolding original_primary_key edited_primary_key keys_kept
primary_key_unchanged original edits =
    let old = original_primary_key original in
    let new = edited_primary_key edits in length old == length new && keys_kept edits old new

abbrev pub dropped_key : Bool → Option Text → List AlterAction
dropped_key unchanged none = []
dropped_key unchanged (some constraint) = when (not unchanged) (drop_constraint constraint)

abbrev pub added_key : Bool → List Text → List AlterAction
added_key unchanged names = when (not unchanged && not (is_empty names)) (add_primary_key names)

unfoldable pub alter_actions :
    Text → Text → List TableDetailColumn → List ColumnEdit → Option Text → List AlterAction
unfolding primary_key_unchanged edit_columns
alter_actions table new_table_name original edits primary_key_constraint =
    let unchanged = primary_key_unchanged original edits in
    dropped_key unchanged primary_key_constraint
    ++ (edit_columns original edits
        ++ (added_key unchanged (edited_primary_key edits)
            ++ when (not (text_eq (trim new_table_name) table))
                (rename_table (trim new_table_name))))

unfoldable pub build_alter_table_statements :
    Text → Text → Text → List TableDetailColumn → List ColumnEdit → Option Text → List Text
unfolding alter_actions statement
build_alter_table_statements schema table new_table_name original edits primary_key_constraint =
    map (statement schema table)
      (alter_actions table new_table_name original edits primary_key_constraint)

unfoldable pub is_destructive_statement : Text → Bool
is_destructive_statement s =
    contains_text (codes "DROP COLUMN") s
    || contains_text (codes " TYPE ") s
    || contains_text (codes "DROP CONSTRAINT") s
    || contains_text (codes "ADD PRIMARY KEY") s

unfoldable pub alter_table_is_destructive : List Text → Bool
unfolding is_destructive_statement
alter_table_is_destructive statements = any is_destructive_statement statements

-- The batch that `alter_table` sends; without statements it sends none.
unfoldable pub alter_table_batch : List Text → Option Text
alter_table_batch [] = none
alter_table_batch (s ∷ statements) =
    some (format (codes "BEGIN;\n" ∷ join (codes ";\n") (s ∷ statements) ∷ codes ";\nCOMMIT;" ∷ []))

-- The request of the interface. Its columns have the fields of `ColumnEdit`, which the source
-- copies one by one.
pub record AlterTableInput : Type 0 where
  pub new_table_name : Text
  pub columns : List ColumnEdit

pub record ConstraintInfo : Type 0 where
  pub name : Text
  pub kind : Text

pub record TableDetail : Type 0 where
  pub columns : List TableDetailColumn
  pub constraints : List ConstraintInfo

pub record AlterTablePreviewView : Type 0 where
  pub statements : List Text
  pub sql : Text
  pub destructive : Bool

-- `CoreError` as an `ApplicationError`, for `?`.
unfoldable pub in_application {ℓ} : {A : Type ℓ} → Result CoreError A → Result ApplicationError A
in_application (ok a) = ok a
in_application (err e) = err (core e)

abbrev pub rejected_edit : String → ApplicationError
rejected_edit key = invalid_input (validation key)

abbrev pub column_names : List TableDetailColumn → List Text
column_names columns = map (λ (c : TableDetailColumn). c.name) columns

-- The first check of an edit: the column that it names is there and has no earlier edit. The
-- result is the set of the columns that have an edit so far.
unfoldable pub supply_original :
    List Text → List Text → Option Text → Result ApplicationError (List Text)
supply_original originals supplied none = ok supplied
supply_original originals supplied (some name) =
    if not (member name originals) || member name supplied
    then err (rejected_edit "validation.editedColumnsDoNotMatchThe")
    else ok (name ∷ supplied)

-- The second: a kept column is well formed, and its new name is not taken.
unfoldable pub resulting_name : List Text → ColumnEdit → Result ApplicationError (List Text)
resulting_name resulting edit = if edit.removed then ok resulting else do
  in_application (validate_table_column_definition edit.name edit.data_type edit.default)
  reject_if (member edit.name resulting)
      (rejected_edit "validation.theEditedTableContainsDuplicateColumn")
  ok (edit.name ∷ resulting)

-- The loop over the edits, which gives the set of the columns that have one.
unfoldable pub check_edits :
    List Text → List Text → List Text → List ColumnEdit → Result ApplicationError (List Text)
unfolding supply_original resulting_name
check_edits originals supplied resulting [] = ok supplied
check_edits originals supplied resulting (edit ∷ edits) = do
  supplied' ← supply_original originals supplied edit.original_name
  resulting' ← resulting_name resulting edit
  check_edits originals supplied' resulting' edits

-- `supplied_originals != original_names`, as sets.
unfoldable pub same_set : List Text → List Text → Bool
same_set xs ys = all (λ x. member x ys) xs && all (λ y. member y xs) ys

abbrev pub is_key_constraint : ConstraintInfo → Bool
is_key_constraint c = text_eq c.kind (codes "PRIMARY KEY")

abbrev pub constraint_name : Option ConstraintInfo → Option Text
constraint_name none = none
constraint_name (some c) = some c.name

abbrev sql_of : List Text → Text
sql_of [] = codes "-- No changes"
sql_of (s ∷ statements) = join (codes ";\n") (s ∷ statements) ++ codes ";"

unfoldable pub build_alter_table_preview :
    Text → Text → AlterTableInput → TableDetail → Result ApplicationError AlterTablePreviewView
unfolding check_edits same_set build_alter_table_statements alter_table_is_destructive
build_alter_table_preview schema table input detail = do
  validate_schema_object_name input.new_table_name (codes "label.table")
  reject_if (is_empty input.columns || ltb 512 (length input.columns))
      (rejected_edit "validation.anEditedTableRequiresBetween1")
  let originals = column_names detail.columns
  supplied ← check_edits originals [] [] input.columns
  reject_if (not (same_set supplied originals))
      (rejected_edit "validation.everyCurrentTableColumnMustBe")
  let key_constraint = constraint_name (find is_key_constraint detail.constraints)
  let statements =
      build_alter_table_statements schema table input.new_table_name detail.columns input.columns
        key_constraint
  ok (record {
    statements = statements;
    sql = sql_of statements;
    destructive = alter_table_is_destructive statements;
  })
