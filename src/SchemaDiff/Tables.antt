-- ===== src/SchemaDiff/Tables.antt =====
-- `create_table` and `alter_table` of draco-core/src/schema_diff.rs.
use draco.Base.{
  ◌==◌, if◌then◌else◌, is_some, or_else, retain, Bool, true, false, not, ◌&&◌, Option, none, some,
  List, [], ◌∷◌, ◌++◌, map,
}
use draco.Text.{Text, codes, text_eq}
use draco.Text.Sorted.{BTreeMap}
use draco.Import.{member}
use draco.SchemaDiff.{
  ColumnSnapshot, ConstraintSnapshot, TableSnapshot, Phase, tables_phase, indexes_phase,
  foreign_keys, triggers_phase, Builder, push, push_note, flag, same_bool, push_if,
}
use draco.SchemaDiff.Ident.{quote_ident}
use draco.SchemaDiff.Render.{format, column_definition, constraint_line, create_table_text, values}

abbrev pub is_foreign_key : Text × ConstraintSnapshot → Bool
is_foreign_key (name, constraint) = constraint.kind == b'f'

-- `ALTER TABLE … ` and the rest of the statement.
abbrev pub alter : Text → List Text → Text
alter qualified parts = format (codes "ALTER TABLE " ∷ qualified ∷ codes " " ∷ parts)

abbrev alter_column : Text → Text → List Text → Text
alter_column qualified name parts =
    alter qualified (codes "ALTER COLUMN " ∷ quote_ident name ∷ codes " " ∷ parts)

abbrev push_foreign_keys : Text → Builder → BTreeMap ConstraintSnapshot → Builder
push_foreign_keys qualified b [] = b
push_foreign_keys qualified b ((name, constraint) ∷ rest) =
    push_foreign_keys qualified
      (push_if (is_foreign_key (name, constraint)) b foreign_keys (
        alter qualified
          (codes "ADD CONSTRAINT " ∷ quote_ident name ∷ codes " " ∷ constraint.definition ∷ [])))
      rest

abbrev push_all : Phase → Builder → List Text → Builder
push_all phase b [] = b
push_all phase b (definition ∷ rest) = push_all phase (push b phase definition) rest

unfoldable pub create_table : Builder → Text → TableSnapshot → Builder
create_table b qualified t =
    let lines =
      map column_definition t.columns
      ++ map constraint_line (retain (λ c. not (is_foreign_key c)) t.constraints) in
    let b1 = push b tables_phase (create_table_text qualified lines t.partition_key) in
    let b2 = push_foreign_keys qualified b1 t.constraints in
    let b3 = push_all indexes_phase b2 (values t.indexes) in
    push_all triggers_phase b3 (values t.triggers)

-- `==` on optional texts and characters, and on constraints.
unfoldable pub same_text : Option Text → Option Text → Bool
same_text none none = true
same_text (some s) (some t) = text_eq s t
same_text _ _ = false

unfoldable pub same_constraint : Option ConstraintSnapshot → Option ConstraintSnapshot → Bool
same_constraint none none = true
same_constraint (some c) (some d) = c.kind == d.kind && text_eq c.definition d.definition
same_constraint _ _ = false

-- `target_columns.get`: a column of the map that is collected from a list. Of two with the same
-- name the map keeps the last.
unfoldable pub find_column : Text → List ColumnSnapshot → Option ColumnSnapshot
find_column name [] = none
find_column name (column ∷ columns) =
    or_else (find_column name columns) (if text_eq column.name name then some column else none)

abbrev set_default : Text → ColumnSnapshot → Text
set_default qualified column = elim column.default [
  | some default ↦ alter_column qualified column.name (codes "SET DEFAULT " ∷ default ∷ [])
  | none ↦ alter_column qualified column.name (codes "DROP DEFAULT" ∷ [])
]

-- The `identity` part: what a column that is an identity in the source needs.
unfoldable pub alter_identity : Builder → Text → ColumnSnapshot → ColumnSnapshot → Builder
alter_identity b qualified column existing = elim column.identity [
  | none ↦ b
  | some identity ↦
      let kind = if identity == b'a' then codes "ALWAYS" else codes "BY DEFAULT" in
      elim existing.identity [
        | none ↦
            push
              (push_if (not existing.not_null) b tables_phase
                (alter_column qualified column.name (codes "SET NOT NULL" ∷ [])))
              tables_phase
              (alter_column qualified column.name
                (codes "ADD GENERATED " ∷ kind ∷ codes " AS IDENTITY" ∷ []))
        | some current ↦
            push_if (not (current == identity)) b tables_phase
              (alter_column qualified column.name (codes "SET GENERATED " ∷ kind ∷ []))
      ]
]

unfoldable pub retype : Builder → Text → ColumnSnapshot → ColumnSnapshot → Builder
retype b qualified column existing =
    if text_eq existing.data_type column.data_type
    then b
    else flag (
        push b tables_phase (
          alter_column qualified column.name (
            codes "TYPE "
            ∷ column.data_type
            ∷ codes " USING "
            ∷ quote_ident column.name
            ∷ codes "::"
            ∷ column.data_type
            ∷ [])))

unfoldable pub drop_identity : Builder → Text → ColumnSnapshot → ColumnSnapshot → Builder
drop_identity b qualified column existing =
    push_if (is_some existing.identity && not (is_some column.identity)) b tables_phase
      (alter_column qualified column.name (codes "DROP IDENTITY" ∷ []))

unfoldable pub change_default : Builder → Text → ColumnSnapshot → ColumnSnapshot → Builder
change_default b qualified column existing =
    push_if (not (same_text existing.default column.default) && not (is_some column.generated)) b
      tables_phase (set_default qualified column)

unfoldable pub change_null : Builder → Text → ColumnSnapshot → ColumnSnapshot → Builder
change_null b qualified column existing =
    push_if (not (same_bool existing.not_null column.not_null) && not (is_some column.identity)) b
      tables_phase
      (alter_column qualified column.name
        ((if column.not_null then codes "SET" else codes "DROP") ∷ codes " NOT NULL" ∷ []))

-- What follows the guard on the generation expression, for a column that exists.
unfoldable pub alter_existing : Builder → Text → ColumnSnapshot → ColumnSnapshot → Builder
unfolding retype drop_identity change_default alter_identity change_null
alter_existing b qualified column existing =
    let b1 = retype b qualified column existing in
    let b2 = drop_identity b1 qualified column existing in
    let b3 = change_default b2 qualified column existing in
    let b4 = alter_identity b3 qualified column existing in change_null b4 qualified column existing

-- One column of the source, and the column of the target that has its name.
unfoldable pub alter_found : Builder → Text → ColumnSnapshot → Option ColumnSnapshot → Builder
unfolding alter_existing
alter_found b qualified column none =
    push b tables_phase (alter qualified (codes "ADD COLUMN " ∷ column_definition column ∷ []))
alter_found b qualified column (some existing) =
    if not (same_text existing.generated column.generated)
    then push_note b (
        format (
          codes "column "
          ∷ column.name
          ∷ codes " changes its generation expression; adjust it manually"
          ∷ []))
    else alter_existing b qualified column existing

unfoldable pub alter_columns : Builder → Text → List ColumnSnapshot → List ColumnSnapshot → Builder
unfolding alter_found find_column
alter_columns b qualified existing_columns [] = b
alter_columns b qualified existing_columns (column ∷ columns) =
    alter_columns (alter_found b qualified column (find_column column.name existing_columns))
      qualified existing_columns columns

abbrev pub column_names : List ColumnSnapshot → List Text
column_names [] = []
column_names (column ∷ columns) = column.name ∷ column_names columns

-- The loop over the target's columns that the source does not have.
unfoldable pub drop_one : Builder → Text → List Text → ColumnSnapshot → Builder
drop_one b qualified wanted column =
    if member column.name wanted
    then b
    else flag (
        push b tables_phase (alter qualified (codes "DROP COLUMN " ∷ quote_ident column.name ∷ [])))

unfoldable pub drop_columns : Builder → Text → List Text → List ColumnSnapshot → Builder
unfolding drop_one
drop_columns b qualified wanted [] = b
drop_columns b qualified wanted (column ∷ columns) =
    drop_columns (drop_one b qualified wanted column) qualified wanted columns
