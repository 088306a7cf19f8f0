-- ===== src/Tests/Diffs.antt =====
-- A schema with one table, and the same table with a column more.
use draco.Base.{is_some, ◌≡◌, refl, true, false, none, List, [], ◌∷◌, ◌++◌, arith}
use draco.Text.{Text, codes, text_eq, is_ascii_digit, is_ascii_lowercase}
use draco.Text.Sorted.{insert_sorted, sorted_set}
use draco.Import.{member}
use draco.SchemaDiff.{ColumnSnapshot, TableSnapshot, SchemaSnapshot, same_bool, union_keys}
use draco.SchemaDiff.Ident.{is_reserved, quote_ident, requalify_from, requalify}
use draco.SchemaDiff.Ident.Requalified.{requalify-same, requalify-fuel}
use draco.SchemaDiff.Tables.{
  same_text, find_column, alter_identity, retype, drop_identity, change_default, change_null,
  alter_existing, alter_found, alter_columns, drop_one, drop_columns,
}
use draco.SchemaDiff.Alter.{alter_constraints, alter_keyed, alter_table}
use draco.SchemaDiff.Objects.{diff_table}
use draco.SchemaDiff.Script.{
  requalify_snapshot, diff_names, diff_map, diff_entries, summarise, diff_schemas,
}
use draco.SchemaDiff.Script.Same.{AllDistinctColumns, no_difference, diff_schemas-same}
use draco.SchemaDiff.Script.Kept.{IsKept, diff_schemas-IsKept}
use draco.Text.Assoc.{get}

abbrev a_column : Text → ColumnSnapshot
a_column name = record {
  name = name;
  data_type = codes "text";
  not_null = true;
  default = none;
  identity = none;
  generated = none;
}

abbrev a_table : List ColumnSnapshot → TableSnapshot
a_table columns = record {
  columns = columns;
  partition_key = none;
  constraints = [];
  indexes = [];
  triggers = [];
}

abbrev narrow : TableSnapshot
narrow = a_table (a_column (codes "id") ∷ [])

abbrev wide : TableSnapshot
wide = a_table (a_column (codes "id") ∷ a_column (codes "name") ∷ [])

abbrev a_schema : TableSnapshot → SchemaSnapshot
a_schema t = record {
  schema = codes "shop";
  tables = (codes "users", t) ∷ [];
  views = [];
  routines = [];
  sequences = [];
}

wide-distinct : AllDistinctColumns (a_schema wide).tables
unfolding member text_eq
wide-distinct = ((refl, (refl, tt)), tt)

diff_schemas-same_example :
    diff_schemas (λ c. is_ascii_digit c) (a_schema wide) (a_schema wide)
    ≡ no_difference (codes "shop")
diff_schemas-same_example = diff_schemas-same (λ c. is_ascii_digit c) (a_schema wide) wide-distinct

-- PostgreSQL takes no bare `left` for the name of a column.
left_is_bare : quote_ident (codes "left") ≡ codes "left"
unfolding quote_ident is_reserved member text_eq is_ascii_lowercase
left_is_bare = refl

abbrev a_default : Text
a_default = codes "nextval('shop.ids'::regclass)"

requalify-same_example :
    requalify (λ c. is_ascii_digit c) a_default (codes "shop") (codes "shop") ≡ a_default
requalify-same_example = requalify-same (λ c. is_ascii_digit c) a_default (codes "shop")

requalify-fuel_example :
    requalify_from
      (λ c. is_ascii_digit c)
      100
      (quote_ident (codes "shop") ++ b'.' ∷ [])
      (quote_ident (codes "test") ++ b'.' ∷ [])
      []
      a_default
    ≡ requalify (λ c. is_ascii_digit c) a_default (codes "shop") (codes "test")
requalify-fuel_example =
    requalify-fuel (λ c. is_ascii_digit c) a_default (codes "shop") (codes "test") 100 (omega arith)

diff_schemas-calm :
    (diff_schemas (λ c. is_ascii_digit c) (a_schema wide) (a_schema narrow)).destructive ≡ false
unfolding diff_schemas summarise requalify_snapshot diff_entries diff_map diff_names diff_table get
    quote_ident alter_table same_text alter_columns alter_found alter_existing retype drop_identity
    change_default alter_identity change_null same_bool find_column text_eq drop_columns drop_one
    member alter_constraints alter_keyed union_keys sorted_set insert_sorted
diff_schemas-calm = refl

diff_schemas-IsKept_example :
    IsKept
      (is_some (get (codes "users") (a_schema narrow).tables))
      (is_some (get (codes "users") (a_schema wide).tables))
    × IsKept
        (is_some (get (codes "users") (a_schema narrow).sequences))
        (is_some (get (codes "users") (a_schema wide).sequences))
diff_schemas-IsKept_example =
    diff_schemas-IsKept (λ c. is_ascii_digit c) (a_schema wide) (a_schema narrow) (codes "users")
      diff_schemas-calm
