-- ===== src/SchemaDiff/Script/Flagged.antt =====
-- What the flag `destructive` of a table's changes says.
use draco.Base.{
  if◌then◌else◌, Bool-cases, All, ◌≡◌, refl, ◌⊎◌, inl, inr, true, false, Option, none, some, List,
  [], ◌∷◌, arith,
}
use draco.Text.{Text, codes, text_eq_iff}
use draco.Text.Assoc.{get}
use draco.Text.Sorted.{BTreeMap}
use draco.Import.{member}
use draco.SchemaDiff.{
  ColumnSnapshot, ConstraintSnapshot, TableSnapshot, Phase, drop_triggers, drop_indexes,
  indexes_phase, triggers_phase, Builder, push_note, union_keys,
}
use draco.SchemaDiff.Tables.{
  same_text, find_column, alter_identity, retype, drop_identity, change_default, change_null,
  alter_existing, alter_found, alter_columns, column_names, drop_one, drop_columns,
}
use draco.SchemaDiff.Alter.{
  alter_constraint, alter_constraints, alter_definition, alter_keyed, drop_index_text,
  drop_trigger_text, alter_table,
}

-- A column of the source whose type the target has already, unless the target has no such column
-- or generates it differently.
abbrev pub KeepsType : Option ColumnSnapshot → ColumnSnapshot → Type 0
KeepsType none column = Unit
KeepsType (some existing) column =
    (same_text existing.generated column.generated ≡ false)
    ⊎ (existing.data_type ≡ column.data_type)

retype-flag :
    (b : Builder) (q : Text) (c existing : ColumnSnapshot)
    → (retype b q c existing).destructive ≡ false
    → (b.destructive ≡ false) × (existing.data_type ≡ c.data_type)
unfolding retype
retype-flag b q c existing h = ground (arith, text_eq_iff existing.data_type c.data_type)

alter_identity-flag :
    (b : Builder) (q : Text) (c existing : ColumnSnapshot)
    → (alter_identity b q c existing).destructive ≡ b.destructive
unfolding alter_identity
alter_identity-flag b q c existing = ground arith

drop_identity-flag :
    (b : Builder) (q : Text) (c existing : ColumnSnapshot)
    → (drop_identity b q c existing).destructive ≡ b.destructive
unfolding drop_identity
drop_identity-flag b q c existing = ground arith

change_default-flag :
    (b : Builder) (q : Text) (c existing : ColumnSnapshot)
    → (change_default b q c existing).destructive ≡ b.destructive
unfolding change_default
change_default-flag b q c existing = ground arith

change_null-flag :
    (b : Builder) (q : Text) (c existing : ColumnSnapshot)
    → (change_null b q c existing).destructive ≡ b.destructive
unfolding change_null
change_null-flag b q c existing = ground arith

alter_existing-flag :
    (b : Builder) (q : Text) (c existing : ColumnSnapshot)
    → (alter_existing b q c existing).destructive ≡ (retype b q c existing).destructive
unfolding alter_existing
alter_existing-flag b q c existing =
    let b1 = retype b q c existing in
    let b2 = drop_identity b1 q c existing in
    let b3 = change_default b2 q c existing in
    cc (
      drop_identity-flag b1 q c existing,
      change_default-flag b2 q c existing,
      alter_identity-flag b3 q c existing,
      change_null-flag (alter_identity b3 q c existing) q c existing,
    )

alter_found-flag :
    (b : Builder) (q : Text) (c : ColumnSnapshot) (met : Option ColumnSnapshot)
    → (alter_found b q c met).destructive ≡ false
    → (b.destructive ≡ false) × KeepsType met c
unfolding alter_found
alter_found-flag b q c none h = (h, tt)
alter_found-flag b q c (some existing) h =
    elim (Bool-cases (same_text existing.generated c.generated)) [
      | inl same ↦
          let flagged : (alter_existing b q c existing).destructive ≡ false = ground arith in
          let (before, kept) =
            retype-flag b q c existing (cc (flagged, alter_existing-flag b q c existing)) in
          (before, inr kept)
      | inr differs ↦ (ground arith, inl differs)
    ]

alter_columns-flag :
    (b : Builder) (q : Text) (columns cs : List ColumnSnapshot)
    → (alter_columns b q columns cs).destructive ≡ false
    → (b.destructive ≡ false) × All (λ c. KeepsType (find_column c.name columns) c) cs
unfolding alter_columns
alter_columns-flag b q columns [] h = (h, tt)
alter_columns-flag b q columns (c ∷ cs) h =
    let met = find_column c.name columns in
    let (before, rest) = alter_columns-flag (alter_found b q c met) q columns cs h in
    let (start, here) = alter_found-flag b q c met before in (start, (here, rest))

drop_one-flag :
    (b : Builder) (q : Text) (wanted : List Text) (c : ColumnSnapshot)
    → (drop_one b q wanted c).destructive ≡ false
    → (b.destructive ≡ false) × (member c.name wanted ≡ true)
unfolding drop_one
drop_one-flag b q wanted c h = ground arith

pub drop_columns-flag :
    (b : Builder) (q : Text) (wanted : List Text) (cs : List ColumnSnapshot)
    → (drop_columns b q wanted cs).destructive ≡ false
    → (b.destructive ≡ false) × All (λ c. member c.name wanted ≡ true) cs
unfolding drop_columns
drop_columns-flag b q wanted [] h = (h, tt)
drop_columns-flag b q wanted (c ∷ cs) h =
    let (before, rest) = drop_columns-flag (drop_one b q wanted c) q wanted cs h in
    let (start, here) = drop_one-flag b q wanted c before in (start, (here, rest))

alter_constraint-flag :
    (b : Builder) (q name : Text) (wanted existing : Option ConstraintSnapshot)
    → (alter_constraint b q name wanted existing).destructive ≡ b.destructive
unfolding alter_constraint
alter_constraint-flag b q name wanted existing = ground arith

pub alter_constraints-flag :
    (b : Builder) (q : Text) (s t : BTreeMap ConstraintSnapshot) (names : List Text)
    → (alter_constraints b q s t names).destructive ≡ b.destructive
unfolding alter_constraints
alter_constraints-flag b q s t [] = refl
alter_constraints-flag b q s t (name ∷ names) = cc (
  alter_constraints-flag (alter_constraint b q name (get name s) (get name t)) q s t names,
  alter_constraint-flag b q name (get name s) (get name t),
)

alter_definition-flag :
    (drop_phase make_phase : Phase) (drop_text : Text) (b : Builder) (wanted existing : Option Text)
    → (alter_definition drop_phase make_phase drop_text b wanted existing).destructive
      ≡ b.destructive
unfolding alter_definition
alter_definition-flag drop_phase make_phase drop_text b wanted existing = ground arith

pub alter_keyed-flag :
    (drop_phase make_phase : Phase) (drop : Text → Text) (b : Builder) (s t : BTreeMap Text)
    (names : List Text)
    → (alter_keyed drop_phase make_phase drop b s t names).destructive ≡ b.destructive
unfolding alter_keyed
alter_keyed-flag drop_phase make_phase drop b s t [] = refl
alter_keyed-flag drop_phase make_phase drop b s t (name ∷ names) =
    let b' = alter_definition drop_phase make_phase (drop name) b (get name s) (get name t) in
    cc (
      alter_keyed-flag drop_phase make_phase drop b' s t names,
      alter_definition-flag drop_phase make_phase (drop name) b (get name s) (get name t),
    )

-- If the changes to a table are not flagged as destructive, every column of the target is also one
-- of the source, and every column of the source has in the target the type that it has in the
-- source, unless it is new or its generation expression differs.
pub alter_table-flag :
    (b : Builder) (q : Text) (s t : TableSnapshot)
    → (alter_table b q s t).destructive ≡ false
    → All (λ c. member c.name (column_names s.columns) ≡ true) t.columns
      × All (λ c. KeepsType (find_column c.name t.columns) c) s.columns
unfolding alter_table
alter_table-flag b q s t h =
    let b1 =
      if same_text s.partition_key t.partition_key
      then b
      else push_note b (codes "the partitioning differs; recreate the table to change it") in
    let b2 = alter_columns b1 q t.columns s.columns in
    let b3 = drop_columns b2 q (column_names s.columns) t.columns in
    let constraint_names = union_keys s.constraints t.constraints in
    let b4 = alter_constraints b3 q s.constraints t.constraints constraint_names in
    let index_names = union_keys s.indexes t.indexes in
    let trigger_names = union_keys s.triggers t.triggers in
    let f5 =
      alter_keyed-flag drop_indexes indexes_phase (drop_index_text q) b4 s.indexes t.indexes
        index_names in
    let b5 =
      alter_keyed drop_indexes indexes_phase (drop_index_text q) b4 s.indexes t.indexes
        index_names in
    let f6 =
      alter_keyed-flag drop_triggers triggers_phase (drop_trigger_text q) b5 s.triggers t.triggers
        trigger_names in
    let f4 = alter_constraints-flag b3 q s.constraints t.constraints constraint_names in
    let calm : b3.destructive ≡ false = cc (h, f6, f5, f4) in
    let (before, members) = drop_columns-flag b2 q (column_names s.columns) t.columns calm in
    (members, (alter_columns-flag b1 q t.columns s.columns before).1)
