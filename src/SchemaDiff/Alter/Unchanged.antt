-- ===== src/SchemaDiff/Alter/Unchanged.antt =====
-- `alter_table` where nothing changes.
use draco.Base.{All, ◌≡◌, refl, Bool, true, false, Option, none, some, List, [], ◌∷◌, arith}
use draco.Text.{Text, text_eq_refl}
use draco.Text.Assoc.{get}
use draco.Text.Sorted.{BTreeMap}
use draco.Import.{member, AreDistinct}
use draco.SchemaDiff.{
  ColumnSnapshot, ConstraintSnapshot, TableSnapshot, Phase, drop_triggers, drop_indexes,
  indexes_phase, triggers_phase, Builder, same_bool, union_keys,
}
use draco.SchemaDiff.Tables.{
  same_text, same_constraint, find_column, alter_identity, retype, drop_identity, change_default,
  change_null, alter_existing, alter_found, alter_columns, column_names, drop_one, drop_columns,
}
use draco.SchemaDiff.Alter.{
  alter_constraint, alter_constraints, alter_definition, alter_keyed, drop_index_text,
  drop_trigger_text, alter_table,
}

same_text_refl : (o : Option Text) → same_text o o ≡ true
unfolding same_text
same_text_refl none = refl
same_text_refl (some s) = text_eq_refl s

pub same_bool_refl : (b : Bool) → same_bool b b ≡ true
unfolding same_bool
same_bool_refl true = refl
same_bool_refl false = refl

same_constraint_refl : (c : Option ConstraintSnapshot) → same_constraint c c ≡ true
unfolding same_constraint
same_constraint_refl none = refl
same_constraint_refl (some c) = ground (arith, text_eq_refl c.definition)

-- Names under which a column is found again.
abbrev IsFoundIn : List ColumnSnapshot → ColumnSnapshot → Type 0
IsFoundIn columns c = find_column c.name columns ≡ some c

find_column-absent :
    (name : Text) (columns : List ColumnSnapshot)
    → member name (column_names columns) ≡ false
    → find_column name columns ≡ none
unfolding find_column member
find_column-absent name [] h = refl
find_column-absent name (c ∷ cs) h = rw (find_column-absent name cs (ground arith)) (ground arith)

IsFoundIn-cons :
    (c : ColumnSnapshot) (columns cs : List ColumnSnapshot)
    → All (IsFoundIn columns) cs
    → All (IsFoundIn (c ∷ columns)) cs
unfolding find_column
IsFoundIn-cons c columns [] h = tt
IsFoundIn-cons c columns (d ∷ ds) h = (rw h.0 refl, IsFoundIn-cons c columns ds h.1)

All-IsFoundIn :
    (columns : List ColumnSnapshot)
    → AreDistinct (column_names columns)
    → All (IsFoundIn columns) columns
unfolding find_column
All-IsFoundIn [] h = tt
All-IsFoundIn (c ∷ cs) h = (
  rw (find_column-absent c.name cs h.0, text_eq_refl c.name) refl,
  IsFoundIn-cons c cs cs (All-IsFoundIn cs h.1),
)

alter_identity-same : (b : Builder) (q : Text) (c : ColumnSnapshot) → alter_identity b q c c ≡ b
unfolding alter_identity
alter_identity-same b q c = ground arith

retype-same : (b : Builder) (q : Text) (c : ColumnSnapshot) → retype b q c c ≡ b
unfolding retype
retype-same b q c = rw (text_eq_refl c.data_type) refl

drop_identity-same : (b : Builder) (q : Text) (c : ColumnSnapshot) → drop_identity b q c c ≡ b
unfolding drop_identity
drop_identity-same b q c = ground arith

change_default-same : (b : Builder) (q : Text) (c : ColumnSnapshot) → change_default b q c c ≡ b
unfolding change_default
change_default-same b q c = rw (same_text_refl c.default) refl

change_null-same : (b : Builder) (q : Text) (c : ColumnSnapshot) → change_null b q c c ≡ b
unfolding change_null
change_null-same b q c = rw (same_bool_refl c.not_null) refl

alter_existing-same : (b : Builder) (q : Text) (c : ColumnSnapshot) → alter_existing b q c c ≡ b
unfolding alter_existing
alter_existing-same b q c =
    rw
      (
        retype-same b q c,
        drop_identity-same b q c,
        change_default-same b q c,
        alter_identity-same b q c,
      )
      (change_null-same b q c)

alter_found-same : (b : Builder) (q : Text) (c : ColumnSnapshot) → alter_found b q c (some c) ≡ b
unfolding alter_found
alter_found-same b q c = rw (same_text_refl c.generated) (alter_existing-same b q c)

alter_columns-same :
    (b : Builder) (q : Text) (columns cs : List ColumnSnapshot)
    → All (IsFoundIn columns) cs
    → alter_columns b q columns cs ≡ b
unfolding alter_columns
alter_columns-same b q columns [] h = refl
alter_columns-same b q columns (c ∷ cs) h =
    rw (h.0, alter_found-same b q c) (alter_columns-same b q columns cs h.1)

drop_columns-same :
    (b : Builder) (q : Text) (wanted : List Text) (cs : List ColumnSnapshot)
    → All (λ c. member c.name wanted ≡ true) cs
    → drop_columns b q wanted cs ≡ b
unfolding drop_columns drop_one
drop_columns-same b q wanted [] h = refl
drop_columns-same b q wanted (c ∷ cs) h = rw h.0 (drop_columns-same b q wanted cs h.1)

members-cons :
    (k : Text) (ks : List Text) (cs : List ColumnSnapshot)
    → All (λ c. member c.name ks ≡ true) cs
    → All (λ c. member c.name (k ∷ ks) ≡ true) cs
unfolding member
members-cons k ks [] h = tt
members-cons k ks (c ∷ cs) h = (ground (arith, h.0), members-cons k ks cs h.1)

All-member : (cs : List ColumnSnapshot) → All (λ c. member c.name (column_names cs) ≡ true) cs
unfolding member
All-member [] = tt
All-member (c ∷ cs) =
    (rw (text_eq_refl c.name) refl, members-cons c.name (column_names cs) cs (All-member cs))

alter_constraints-same :
    (b : Builder) (q : Text) (m : BTreeMap ConstraintSnapshot) (names : List Text)
    → alter_constraints b q m m names ≡ b
unfolding alter_constraints alter_constraint
alter_constraints-same b q m [] = refl
alter_constraints-same b q m (name ∷ names) =
    rw (same_constraint_refl (get name m)) (alter_constraints-same b q m names)

alter_keyed-same :
    (drop_phase make_phase : Phase) (drop : Text → Text) (b : Builder) (m : BTreeMap Text)
    (names : List Text)
    → alter_keyed drop_phase make_phase drop b m m names ≡ b
unfolding alter_keyed alter_definition
alter_keyed-same drop_phase make_phase drop b m [] = refl
alter_keyed-same drop_phase make_phase drop b m (name ∷ names) =
    rw (same_text_refl (get name m)) (alter_keyed-same drop_phase make_phase drop b m names)

abbrev pub HasDistinctColumns : TableSnapshot → Type 0
HasDistinctColumns t = AreDistinct (column_names t.columns)

pub alter_table-same :
    (b : Builder) (q : Text) (t : TableSnapshot) → HasDistinctColumns t → alter_table b q t t ≡ b
unfolding alter_table
alter_table-same b q t h =
    rw
      (
        same_text_refl t.partition_key,
        alter_columns-same b q t.columns t.columns (All-IsFoundIn t.columns h),
        drop_columns-same b q (column_names t.columns) t.columns (All-member t.columns),
        alter_constraints-same b q t.constraints (union_keys t.constraints t.constraints),
        alter_keyed-same drop_indexes indexes_phase (drop_index_text q) b t.indexes
            (union_keys t.indexes t.indexes),
      )
      (alter_keyed-same drop_triggers triggers_phase (drop_trigger_text q) b t.triggers
        (union_keys t.triggers t.triggers))
