-- ===== src/SchemaDiff/Objects.antt =====
-- The four loops of `diff_schemas` of draco-core/src/schema_diff.rs: what one name contributes. The
-- statements go with their phases, from which the script is ordered.
use draco.Base.{
  if◌then◌else◌, is_empty, Bool, true, false, ◌&&◌, ◌||◌, Option, none, some, List, [], ◌∷◌, ◌++◌,
}
use draco.Text.{Text, codes, text_eq, trim_end}
use draco.Text.Sorted.{BTreeMap}
use draco.SchemaDiff.{
  ConstraintSnapshot, TableSnapshot, ViewSnapshot, RoutineSnapshot, SequenceSnapshot,
  DiffObjectKind, sequence, table, view, materialized_view, function, procedure_kind, DiffStatus,
  added, removed, changed, ObjectDiff, Phase, drop_foreign_keys, drop_views, sequences_phase,
  routines_phase, views_phase, drop_routines, drop_tables, drop_sequences, Builder, empty_builder,
  push, push_note, flag, same_bool, push_if,
}
use draco.SchemaDiff.Ident.{quote_ident}
use draco.SchemaDiff.Render.{
  format, sequence_options, create_sequence, table_ddl, normalize_body, create_view, drop_view,
}
use draco.SchemaDiff.Tables.{is_foreign_key, alter, create_table}
use draco.SchemaDiff.Alter.{alter_table}

abbrev pub Entry : Type 0
Entry = ObjectDiff × List (Phase × Text)

abbrev pub texts : List (Phase × Text) → List Text
texts [] = []
texts ((phase, statement) ∷ rest) = statement ∷ texts rest

-- The closure `add`.
abbrev pub entry : DiffObjectKind → Text → DiffStatus → Option Text → Option Text → Builder → Entry
entry kind name status source_ddl target_ddl b = (
  record {
    kind = kind;
    name = name;
    status = status;
    source_ddl = source_ddl;
    target_ddl = target_ddl;
    statements = texts b.statements;
    destructive = b.destructive;
    notes = b.notes;
  },
  b.statements,
)

abbrev pub qualify : Text → Text → Text
qualify schema name = format (schema ∷ codes "." ∷ quote_ident name ∷ [])

-- `!=` on sequences.
unfoldable pub same_sequence : SequenceSnapshot → SequenceSnapshot → Bool
same_sequence s t =
    text_eq s.data_type t.data_type
    && text_eq s.start t.start
    && text_eq s.increment t.increment
    && text_eq s.min t.min
    && text_eq s.max t.max
    && text_eq s.cache t.cache
    && same_bool s.cycle t.cycle

abbrev sequence_ddl : Text → SequenceSnapshot → Text
sequence_ddl qualified s = create_sequence qualified s ++ codes ";"

unfoldable pub diff_sequence :
    Text → Text → Option SequenceSnapshot → Option SequenceSnapshot → List Entry
diff_sequence qualified name none none = []
diff_sequence qualified name (some s) none =
    entry sequence name added (some (sequence_ddl qualified s)) none
      (push empty_builder sequences_phase (create_sequence qualified s))
    ∷ []
diff_sequence qualified name none (some t) =
    entry sequence name removed none (some (sequence_ddl qualified t))
      (flag (push empty_builder drop_sequences (codes "DROP SEQUENCE " ++ qualified)))
    ∷ []
diff_sequence qualified name (some s) (some t) =
    if same_sequence s t
    then []
    else entry sequence name changed (some (sequence_ddl qualified s))
        (some (sequence_ddl qualified t))
        (push empty_builder sequences_phase
          (format (codes "ALTER SEQUENCE " ∷ qualified ∷ codes " " ∷ sequence_options s ∷ [])))
      ∷ []

-- The foreign keys of a table that is dropped.
abbrev push_key_drops : Builder → Text → BTreeMap ConstraintSnapshot → Builder
push_key_drops b qualified [] = b
push_key_drops b qualified ((name, constraint) ∷ rest) =
    push_key_drops
      (push_if (is_foreign_key (name, constraint)) b drop_foreign_keys
        (alter qualified (codes "DROP CONSTRAINT " ∷ quote_ident name ∷ [])))
      qualified rest

unfoldable pub diff_table : Text → Text → Option TableSnapshot → Option TableSnapshot → List Entry
diff_table qualified name none none = []
diff_table qualified name (some s) none =
    entry table name added (some (table_ddl qualified s)) none
      (create_table empty_builder qualified s)
    ∷ []
diff_table qualified name none (some t) =
    entry table name removed none (some (table_ddl qualified t)) (
      flag (
        push (push_key_drops empty_builder qualified t.constraints) drop_tables
          (codes "DROP TABLE " ++ qualified)))
    ∷ []
diff_table qualified name (some s) (some t) =
    let b = alter_table empty_builder qualified s t in
    if is_empty b.statements && is_empty b.notes
    then []
    else entry table name changed (some (table_ddl qualified s)) (some (table_ddl qualified t)) b
      ∷ []

abbrev view_kind : ViewSnapshot → DiffObjectKind
view_kind v = if v.materialized then materialized_view else view

abbrev view_ddl : Text → ViewSnapshot → Text
view_ddl qualified v = create_view qualified v false ++ codes ";"

-- A view that differs is replaced, or dropped and made again where a materialized view is
-- involved.
change_view : Text → ViewSnapshot → ViewSnapshot → Builder
change_view qualified s t =
    if s.materialized || t.materialized
    then push (push empty_builder drop_views (drop_view qualified t)) views_phase
        (create_view qualified s false)
    else push_note (push empty_builder views_phase (create_view qualified s true)) (
        codes
          "CREATE OR REPLACE VIEW fails if columns are removed or retyped; drop and recreate the view (and its dependents) in that case")

unfoldable pub diff_view : Text → Text → Option ViewSnapshot → Option ViewSnapshot → List Entry
unfolding change_view
diff_view qualified name none none = []
diff_view qualified name (some s) none =
    entry (view_kind s) name added (some (view_ddl qualified s)) none
      (push empty_builder views_phase (create_view qualified s false))
    ∷ []
diff_view qualified name none (some t) =
    entry (view_kind t) name removed none (some (view_ddl qualified t))
      (push empty_builder drop_views (drop_view qualified t))
    ∷ []
diff_view qualified name (some s) (some t) =
    if text_eq (normalize_body s.definition) (normalize_body t.definition)
      && same_bool s.materialized t.materialized
    then []
    else entry (view_kind s) name changed (some (view_ddl qualified s))
        (some (view_ddl qualified t)) (change_view qualified s t)
      ∷ []

abbrev routine_kind : RoutineSnapshot → DiffObjectKind
routine_kind r = if r.procedure then procedure_kind else function

abbrev routine_ddl : RoutineSnapshot → Text
routine_ddl r = trim_end r.definition ++ codes ";"

unfoldable pub diff_routine :
    Text → Text → Option RoutineSnapshot → Option RoutineSnapshot → List Entry
diff_routine schema key none none = []
diff_routine schema key (some s) none =
    entry (routine_kind s) key added (some (routine_ddl s)) none
      (push empty_builder routines_phase (trim_end s.definition))
    ∷ []
diff_routine schema key none (some t) =
    entry (routine_kind t) key removed none (some (routine_ddl t)) (
      push empty_builder drop_routines (
        format (
          codes "DROP "
          ∷ (if t.procedure then codes "PROCEDURE" else codes "FUNCTION")
          ∷ codes " "
          ∷ qualify schema t.name
          ∷ codes "("
          ∷ t.identity_arguments
          ∷ codes ")"
          ∷ [])))
    ∷ []
diff_routine schema key (some s) (some t) =
    if text_eq (normalize_body s.definition) (normalize_body t.definition)
    then []
    else entry (routine_kind s) key changed (some (routine_ddl s)) (some (routine_ddl t)) (
        push_note (push empty_builder routines_phase (trim_end s.definition)) (
          codes
            "CREATE OR REPLACE cannot change the return type or argument names; drop the routine first in that case"))
      ∷ []
