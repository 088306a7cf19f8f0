-- ===== src/SchemaDiff/Script.antt =====
-- `requalify_snapshot` and `diff_schemas` of draco-core/src/schema_diff.rs.
pub mod Same
pub mod Ordered
pub mod Flagged
pub mod Dropless
pub mod Unflagged
pub mod Kept
use mathlib.Core.Option.{map as map_option}
use draco.Base.{leb, if◌then◌else◌, is_empty, any, ℕ, Bool, Option, List, [], ◌∷◌, ◌++◌, map}
use draco.Text.{Text, codes, text_eq}
use draco.Text.Assoc.{get}
use draco.Text.Sorted.{BTreeMap}
use draco.SchemaDiff.{
  ColumnSnapshot, ConstraintSnapshot, TableSnapshot, ViewSnapshot, RoutineSnapshot, SchemaSnapshot,
  ObjectDiff, SchemaDiff, Phase, rank, union_keys,
}
use draco.SchemaDiff.Ident.{quote_ident, requalify}
use draco.SchemaDiff.Render.{format}
use draco.SchemaDiff.Objects.{Entry, qualify, diff_sequence, diff_table, diff_view, diff_routine}

abbrev pub map_values {ℓ κ} : {V : Type ℓ} → {W : Type κ} → (V → W) → BTreeMap V → BTreeMap W
map_values f [] = []
map_values f ((name, v) ∷ m) = (name, f v) ∷ map_values f m

-- The parts of a snapshot, every text rewritten that may name the schema.
module _ (rewrite : Text → Text) where
  abbrev rewrite_column : ColumnSnapshot → ColumnSnapshot
  rewrite_column column = record column {
    data_type = rewrite column.data_type;
    default = map_option rewrite column.default;
    generated = map_option rewrite column.generated;
  }

  abbrev rewrite_constraint : ConstraintSnapshot → ConstraintSnapshot
  rewrite_constraint constraint = record constraint { definition = rewrite constraint.definition }

  abbrev rewrite_table : TableSnapshot → TableSnapshot
  rewrite_table t = record {
    columns = map rewrite_column t.columns;
    partition_key = map_option rewrite t.partition_key;
    constraints = map_values rewrite_constraint t.constraints;
    indexes = map_values rewrite t.indexes;
    triggers = map_values rewrite t.triggers;
  }

  abbrev rewrite_view : ViewSnapshot → ViewSnapshot
  rewrite_view v = record v { definition = rewrite v.definition }

  abbrev rewrite_routine : RoutineSnapshot → RoutineSnapshot
  rewrite_routine r = record r {
    identity_arguments = rewrite r.identity_arguments;
    definition = rewrite r.definition;
  }

unfoldable pub requalify_snapshot : (ℕ → Bool) → SchemaSnapshot → Text → SchemaSnapshot
requalify_snapshot is_alphanumeric source target_schema =
    let rewrite = λ (text : Text). requalify is_alphanumeric text source.schema target_schema in
    if text_eq source.schema target_schema then source else record {
      schema = target_schema;
      tables = map_values (rewrite_table rewrite) source.tables;
      views = map_values (rewrite_view rewrite) source.views;
      routines = map_values (rewrite_routine rewrite) source.routines;
      sequences = source.sequences;
    }

-- One loop: what every name of the union contributes, in order.
unfoldable pub diff_names {ℓ} :
    {V : Type ℓ}
    → (Text → Option V → Option V → List Entry)
    → BTreeMap V
    → BTreeMap V
    → List Text
    → List Entry
diff_names one source target [] = []
diff_names one source target (name ∷ names) =
    one name (get name source) (get name target) ++ diff_names one source target names

unfoldable pub diff_map {ℓ} :
    {V : Type ℓ} → (Text → Option V → Option V → List Entry) → BTreeMap V → BTreeMap V → List Entry
unfolding diff_names
diff_map one source target = diff_names one source target (union_keys source target)

-- The four loops, over a source that is already written for the target schema.
unfoldable pub diff_entries : SchemaSnapshot → SchemaSnapshot → List Entry
unfolding diff_map
diff_entries source target =
    let schema = quote_ident target.schema in
    diff_map (λ name. diff_sequence (qualify schema name) name) source.sequences target.sequences
    ++ (diff_map (λ name. diff_table (qualify schema name) name) source.tables target.tables
        ++ (diff_map (λ name. diff_view (qualify schema name) name) source.views target.views
            ++ diff_map (diff_routine schema) source.routines target.routines))

-- The statements of all entries in the order of the entries.
unfoldable pub collected : List Entry → List (Phase × Text)
collected [] = []
collected (e ∷ entries) = e.1 ++ collected entries

-- `sort_by_key` keeps the order of equal keys: on the phase, since the statements are already in
-- the order of their entry.
unfoldable pub insert_statement : Phase × Text → List (Phase × Text) → List (Phase × Text)
insert_statement s [] = s ∷ []
insert_statement s (t ∷ ts) =
    let rest = insert_statement s ts in if leb (rank s.0) (rank t.0) then s ∷ t ∷ ts else t ∷ rest

unfoldable pub sort_by_phase : List (Phase × Text) → List (Phase × Text)
unfolding insert_statement
sort_by_phase [] = []
sort_by_phase (s ∷ ss) = insert_statement s (sort_by_phase ss)

abbrev objects_of : List Entry → List ObjectDiff
objects_of [] = []
objects_of (e ∷ entries) = e.0 ∷ objects_of entries

abbrev any_destructive : List Entry → Bool
any_destructive entries = any (λ e. e.0.destructive) entries

abbrev note_lines : Text → List Text → Text
note_lines name [] = []
note_lines name (note ∷ notes) =
    format (codes "-- " ∷ name ∷ codes ": " ∷ note ∷ codes "\n" ∷ note_lines name notes ∷ [])

abbrev all_notes : List Entry → Text
all_notes [] = []
all_notes (e ∷ entries) = note_lines e.0.name e.0.notes ++ all_notes entries

abbrev statement_lines : List (Phase × Text) → Text
statement_lines [] = []
statement_lines (s ∷ ss) = format (codes "\n" ∷ s.1 ∷ codes ";\n" ∷ statement_lines ss ∷ [])

-- What `diff_schemas` makes of the entries.
unfoldable pub summarise : Text → List Entry → SchemaDiff
unfolding sort_by_phase collected
summarise target_schema entries =
    let ordered = sort_by_phase (collected entries) in
    record {
      objects = objects_of entries;
      script = format (
          codes "-- Draco schema diff: makes "
          ∷ quote_ident target_schema
          ∷ codes
              " match the source schema.\n-- Review before running. A script run in the SQL editor executes as one transaction.\n"
          ∷ all_notes entries
          ∷ (if is_empty ordered then codes "-- No differences\n" else [])
          ∷ statement_lines ordered
          ∷ []);
      destructive = any_destructive entries;
    }

unfoldable pub diff_schemas : (ℕ → Bool) → SchemaSnapshot → SchemaSnapshot → SchemaDiff
unfolding diff_entries summarise
diff_schemas is_alphanumeric source target =
    summarise target.schema
      (diff_entries (requalify_snapshot is_alphanumeric source target.schema) target)
