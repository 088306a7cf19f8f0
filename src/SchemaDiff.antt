-- ===== src/SchemaDiff.antt =====
-- draco-core/src/schema_diff.rs: the snapshots that are compared and the result. The comparison
-- is `diff_schemas` of SchemaDiff/Script.
pub mod Ident
pub mod Render
pub mod Tables
pub mod Alter
pub mod Objects
pub mod Script
use draco.Base.{if◌then◌else◌, ℕ, Bool, true, false, not, Option, List, [], ◌∷◌, ◌++◌}
use draco.Text.{Text}
use draco.Text.Sorted.{BTreeMap, keys, sorted_set}

pub record ColumnSnapshot : Type 0 where
  pub name : Text
  pub data_type : Text
  pub not_null : Bool
  pub default : Option Text
  pub identity : Option ℕ
  pub generated : Option Text

pub record ConstraintSnapshot : Type 0 where
  pub kind : ℕ
  pub definition : Text

pub record TableSnapshot : Type 0 where
  pub columns : List ColumnSnapshot
  pub partition_key : Option Text
  pub constraints : BTreeMap ConstraintSnapshot
  pub indexes : BTreeMap Text
  pub triggers : BTreeMap Text

pub record ViewSnapshot : Type 0 where
  pub materialized : Bool
  pub definition : Text

pub record RoutineSnapshot : Type 0 where
  pub name : Text
  pub identity_arguments : Text
  pub procedure : Bool
  pub definition : Text

pub record SequenceSnapshot : Type 0 where
  pub data_type : Text
  pub start : Text
  pub increment : Text
  pub min : Text
  pub max : Text
  pub cache : Text
  pub cycle : Bool

pub record SchemaSnapshot : Type 0 where
  pub schema : Text
  pub tables : BTreeMap TableSnapshot
  pub views : BTreeMap ViewSnapshot
  pub routines : BTreeMap RoutineSnapshot
  pub sequences : BTreeMap SequenceSnapshot

pub data DiffObjectKind : Type 0 where
  sequence : DiffObjectKind
  table : DiffObjectKind
  view : DiffObjectKind
  materialized_view : DiffObjectKind
  function : DiffObjectKind
  procedure_kind : DiffObjectKind

pub data DiffStatus : Type 0 where
  added : DiffStatus
  removed : DiffStatus
  changed : DiffStatus

pub record ObjectDiff : Type 0 where
  pub kind : DiffObjectKind
  pub name : Text
  pub status : DiffStatus
  pub source_ddl : Option Text
  pub target_ddl : Option Text
  pub statements : List Text
  pub destructive : Bool
  pub notes : List Text

pub record SchemaDiff : Type 0 where
  pub objects : List ObjectDiff
  pub script : Text
  pub destructive : Bool

-- The place of a statement in the script, in the order of the source.
pub data Phase : Type 0 where
  drop_triggers : Phase
  drop_foreign_keys : Phase
  drop_views : Phase
  drop_indexes : Phase
  sequences_phase : Phase
  tables_phase : Phase
  routines_phase : Phase
  views_phase : Phase
  indexes_phase : Phase
  foreign_keys : Phase
  triggers_phase : Phase
  drop_routines : Phase
  drop_tables : Phase
  drop_sequences : Phase

unfoldable pub rank : Phase → ℕ
rank drop_triggers = 0
rank drop_foreign_keys = 1
rank drop_views = 2
rank drop_indexes = 3
rank sequences_phase = 4
rank tables_phase = 5
rank routines_phase = 6
rank views_phase = 7
rank indexes_phase = 8
rank foreign_keys = 9
rank triggers_phase = 10
rank drop_routines = 11
rank drop_tables = 12
rank drop_sequences = 13

pub record Builder : Type 0 where
  pub statements : List (Phase × Text)
  pub destructive : Bool
  pub notes : List Text

abbrev pub empty_builder : Builder
empty_builder = record { statements = []; destructive = false; notes = [] }

-- `Builder::push`, `builder.notes.push` and `builder.destructive = true`.
abbrev pub push : Builder → Phase → Text → Builder
push b phase statement = record b { statements = b.statements ++ (phase, statement) ∷ [] }

abbrev pub push_note : Builder → Text → Builder
push_note b note = record b { notes = b.notes ++ note ∷ [] }

abbrev pub flag : Builder → Builder
flag b = record b { destructive = true }

unfoldable pub same_bool : Bool → Bool → Bool
same_bool a b = if a then b else not b

-- `push` under a test.
abbrev pub push_if : Bool → Builder → Phase → Text → Builder
push_if test b phase statement = if test then push b phase statement else b

unfoldable pub union_keys {ℓ} : {V : Type ℓ} → BTreeMap V → BTreeMap V → List Text
union_keys left right = sorted_set (keys left ++ keys right)
