-- ===== src/SchemaDiff/Render.antt =====
-- The definitions that draco-core/src/schema_diff.rs writes as SQL text.
use draco.Base.{
  ◌==◌, if◌then◌else◌, is_some, is_empty, Bool, not, ◌&&◌, Option, none, some, List, [], ◌∷◌, ◌++◌,
  map,
}
use draco.Text.{Text, codes, trim_end, trim, join}
use draco.Text.Sorted.{BTreeMap}
use draco.SchemaDiff.{
  ColumnSnapshot, ConstraintSnapshot, TableSnapshot, ViewSnapshot, SequenceSnapshot,
}
use draco.SchemaDiff.Ident.{quote_ident}

-- `format!`: the parts one after the other.
abbrev pub format : List Text → Text
format [] = []
format (part ∷ parts) = part ++ format parts

unfoldable pub sequence_options : SequenceSnapshot → Text
sequence_options s = format (
    codes "AS "
    ∷ s.data_type
    ∷ codes " INCREMENT BY "
    ∷ s.increment
    ∷ codes " MINVALUE "
    ∷ s.min
    ∷ codes " MAXVALUE "
    ∷ s.max
    ∷ codes " START WITH "
    ∷ s.start
    ∷ codes " CACHE "
    ∷ s.cache
    ∷ codes " "
    ∷ (if s.cycle then codes "CYCLE" else codes "NO CYCLE")
    ∷ [])

unfoldable pub create_sequence : Text → SequenceSnapshot → Text
unfolding sequence_options
create_sequence qualified s =
    format (codes "CREATE SEQUENCE " ∷ qualified ∷ codes " " ∷ sequence_options s ∷ [])

-- What stands behind the type: the generation, the identity or the default.
column_source : ColumnSnapshot → Text
column_source column = elim column.generated [
  | some expression ↦ format (codes " GENERATED ALWAYS AS (" ∷ expression ∷ codes ") STORED" ∷ [])
  | none ↦ elim column.identity [
    | some identity ↦
        if identity == b'a'
        then codes " GENERATED ALWAYS AS IDENTITY"
        else codes " GENERATED BY DEFAULT AS IDENTITY"
    | none ↦ elim column.default [ some default ↦ codes " DEFAULT " ++ default | none ↦ [] ]
  ]
]

unfoldable pub column_definition : ColumnSnapshot → Text
unfolding column_source
column_definition column = format (
    quote_ident column.name
    ∷ codes " "
    ∷ column.data_type
    ∷ column_source column
    ∷ (if column.not_null && not (is_some column.identity) then codes " NOT NULL" else [])
    ∷ [])

-- The line of a constraint in a CREATE TABLE.
abbrev pub constraint_line : Text × ConstraintSnapshot → Text
constraint_line (name, constraint) =
    format (codes "CONSTRAINT " ∷ quote_ident name ∷ codes " " ∷ constraint.definition ∷ [])

abbrev pub partition_clause : Option Text → Text
partition_clause none = []
partition_clause (some key) = codes " PARTITION BY " ++ key

-- CREATE TABLE with these lines.
abbrev pub create_table_text : Text → List Text → Option Text → Text
create_table_text qualified lines partition_key = format (
    codes "CREATE TABLE "
    ∷ qualified
    ∷ codes " (\n    "
    ∷ join (codes ",\n    ") lines
    ∷ codes "\n)"
    ∷ partition_clause partition_key
    ∷ [])

abbrev pub values : BTreeMap Text → List Text
values [] = []
values ((k, v) ∷ m) = v ∷ values m

abbrev terminated : List Text → Text
terminated [] = []
terminated (definition ∷ rest) = codes "\n" ++ (definition ++ (codes ";" ++ terminated rest))

unfoldable pub table_ddl : Text → TableSnapshot → Text
table_ddl qualified t = format (
    create_table_text qualified
      (map column_definition t.columns ++ map constraint_line t.constraints) t.partition_key
    ∷ codes ";"
    ∷ terminated (values t.indexes ++ values t.triggers)
    ∷ [])

-- `trim_end_matches(';')`
trim_semicolons : Text → Text
trim_semicolons [] = []
trim_semicolons (c ∷ s) =
    let rest = trim_semicolons s in if c == b';' && is_empty rest then [] else c ∷ rest

unfoldable pub normalize_body : Text → Text
unfolding trim_semicolons
normalize_body definition = trim_end (trim_semicolons (trim definition))

unfoldable pub create_view : Text → ViewSnapshot → Bool → Text
create_view qualified v replace = format (
    (if v.materialized
      then codes "CREATE MATERIALIZED VIEW "
      else if replace
      then codes "CREATE OR REPLACE VIEW "
      else codes "CREATE VIEW ")
    ∷ qualified
    ∷ codes " AS\n"
    ∷ normalize_body v.definition
    ∷ [])

unfoldable pub drop_view : Text → ViewSnapshot → Text
drop_view qualified v =
    (if v.materialized then codes "DROP MATERIALIZED VIEW " else codes "DROP VIEW ") ++ qualified
