-- ===== src/SchemaDiff/Alter.antt =====
-- `alter_table` of draco-core/src/schema_diff.rs: the constraints, indexes and triggers, and the
-- whole.
pub mod Unchanged
use draco.Base.{◌==◌, if◌then◌else◌, is_some, Option, none, some, List, [], ◌∷◌}
use draco.Text.{Text, codes, rsplit_once}
use draco.Text.Assoc.{get}
use draco.Text.Sorted.{BTreeMap}
use draco.SchemaDiff.{
  ConstraintSnapshot, TableSnapshot, Phase, drop_triggers, drop_foreign_keys, drop_indexes,
  tables_phase, indexes_phase, foreign_keys, triggers_phase, Builder, push, push_note, push_if,
  union_keys,
}
use draco.SchemaDiff.Ident.{quote_ident}
use draco.SchemaDiff.Render.{format}
use draco.SchemaDiff.Tables.{
  alter, same_text, same_constraint, alter_columns, column_names, drop_columns,
}

unfoldable pub drop_constraint : Builder → Text → Text → Option ConstraintSnapshot → Builder
drop_constraint b qualified name none = b
drop_constraint b qualified name (some existing) =
    push b (if existing.kind == b'f' then drop_foreign_keys else tables_phase)
      (alter qualified (codes "DROP CONSTRAINT " ∷ quote_ident name ∷ []))

unfoldable pub add_constraint : Builder → Text → Text → Option ConstraintSnapshot → Builder
add_constraint b qualified name none = b
add_constraint b qualified name (some wanted) =
    push b (if wanted.kind == b'f' then foreign_keys else tables_phase) (
      alter qualified
        (codes "ADD CONSTRAINT " ∷ quote_ident name ∷ codes " " ∷ wanted.definition ∷ []))

-- The loop over the names of the constraints of either table.
unfoldable pub alter_constraint :
    Builder → Text → Text → Option ConstraintSnapshot → Option ConstraintSnapshot → Builder
unfolding drop_constraint add_constraint
alter_constraint b qualified name wanted existing =
    if same_constraint wanted existing
    then b
    else add_constraint (drop_constraint b qualified name existing) qualified name wanted

unfoldable pub alter_constraints :
    Builder → Text → BTreeMap ConstraintSnapshot → BTreeMap ConstraintSnapshot → List Text → Builder
unfolding alter_constraint
alter_constraints b qualified source target [] = b
alter_constraints b qualified source target (name ∷ names) =
    alter_constraints (alter_constraint b qualified name (get name source) (get name target))
      qualified source target names

unfoldable pub push_some : Builder → Phase → Option Text → Builder
push_some b phase none = b
push_some b phase (some definition) = push b phase definition

-- The loops over the indexes and the triggers: what differs is dropped, where it exists, and
-- made, where it is wanted. `drop` writes the statement that drops one.
unfoldable pub alter_definition :
    Phase → Phase → Text → Builder → Option Text → Option Text → Builder
unfolding push_some
alter_definition drop_phase make_phase drop_text b wanted existing =
    if same_text wanted existing
    then b
    else push_some (push_if (is_some existing) b drop_phase drop_text) make_phase wanted

unfoldable pub alter_keyed :
    Phase → Phase → (Text → Text) → Builder → BTreeMap Text → BTreeMap Text → List Text → Builder
unfolding alter_definition
alter_keyed drop_phase make_phase drop b source target [] = b
alter_keyed drop_phase make_phase drop b source target (name ∷ names) =
    alter_keyed drop_phase make_phase drop
      (alter_definition drop_phase make_phase (drop name) b (get name source) (get name target))
      source target names

-- The schema of a qualified name: `rsplit_once('.')`.
abbrev schema_of : Text → Text
schema_of qualified = elim (rsplit_once b'.' qualified) [ none ↦ [] | some parts ↦ parts.0 ]

unfoldable pub drop_index_text : Text → Text → Text
drop_index_text qualified name =
    format (codes "DROP INDEX " ∷ schema_of qualified ∷ codes "." ∷ quote_ident name ∷ [])

unfoldable pub drop_trigger_text : Text → Text → Text
drop_trigger_text qualified name =
    format (codes "DROP TRIGGER " ∷ quote_ident name ∷ codes " ON " ∷ qualified ∷ [])

unfoldable pub alter_table : Builder → Text → TableSnapshot → TableSnapshot → Builder
unfolding alter_constraints alter_keyed drop_index_text drop_trigger_text
alter_table b qualified source target =
    let b1 =
      if same_text source.partition_key target.partition_key
      then b
      else push_note b (codes "the partitioning differs; recreate the table to change it") in
    let b2 = alter_columns b1 qualified target.columns source.columns in
    let b3 = drop_columns b2 qualified (column_names source.columns) target.columns in
    let b4 =
      alter_constraints b3 qualified source.constraints target.constraints
        (union_keys source.constraints target.constraints) in
    let b5 =
      alter_keyed drop_indexes indexes_phase (drop_index_text qualified) b4 source.indexes
        target.indexes (union_keys source.indexes target.indexes) in
    alter_keyed drop_triggers triggers_phase (drop_trigger_text qualified) b5 source.triggers
      target.triggers (union_keys source.triggers target.triggers)
