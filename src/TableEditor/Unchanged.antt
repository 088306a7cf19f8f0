-- ===== src/TableEditor/Unchanged.antt =====
-- A form that was not changed.
use mathlib.Core.Bool.{cond}
use draco.Base.{
  any, retain, find, All, ◌≡◌, refl, ap, ◌∙◌, Bool, true, false, ◌||◌, Option, none, some, List, [],
  ◌∷◌, ◌++◌, map, arith,
}
use draco.Text.{Text, text_eq_iff, text_eq_refl, trim}
use draco.Import.{member, AreDistinct}
use draco.SchemaDiff.{same_bool}
use draco.TableEditor.Alter.{
  TableDetailColumn, ColumnEdit, statement, trimmed_or_empty, changes, has_column_name,
  edit_existing, edit_column, edit_columns, original_primary_key, edited_primary_key, keeps_name,
  keys_kept, primary_key_unchanged, dropped_key, alter_actions, build_alter_table_statements,
}

-- The form as the editor opens it on a column.
unfoldable pub unchanged_edit : TableDetailColumn → ColumnEdit
unchanged_edit c = record {
  original_name = some c.name;
  name = c.name;
  data_type = c.full_type;
  nullable = c.is_nullable;
  default = c.column_default;
  primary_key = c.is_primary_key;
  removed = false;
}

abbrev pub all_names : List TableDetailColumn → List Text
all_names columns = map (λ (c : TableDetailColumn). c.name) columns

changes-unchanged : (c : TableDetailColumn) → changes c.name c (unchanged_edit c) ≡ []
unfolding changes unchanged_edit same_bool
changes-unchanged c = ground (
  arith,
  text_eq_refl c.name,
  text_eq_refl c.full_type,
  text_eq_refl (trimmed_or_empty c.column_default),
)

-- The search for its name finds each column.
abbrev AreFound : List TableDetailColumn → List TableDetailColumn → Type 0
AreFound original cs =
    All (λ (c : TableDetailColumn). find (has_column_name c.name) original ≡ some c) cs

AreFound-cons :
    (d : TableDetailColumn) (original cs : List TableDetailColumn)
    → member d.name (all_names cs) ≡ false
    → AreFound original cs
    → AreFound (d ∷ original) cs
unfolding member
AreFound-cons d original [] apart h = tt
AreFound-cons d original (c ∷ cs) apart h =
    let later = AreFound-cons d original cs (ground arith) h.1 in
    (ground (arith, h.0, text_eq_iff d.name c.name, text_eq_iff c.name d.name), later)

pub AreFound-self : (cs : List TableDetailColumn) → AreDistinct (all_names cs) → AreFound cs cs
AreFound-self [] h = tt
AreFound-self (c ∷ cs) h =
    (rw (text_eq_refl c.name) refl, AreFound-cons c cs cs h.0 (AreFound-self cs h.1))

edit_existing-unchanged :
    (original : List TableDetailColumn) (c : TableDetailColumn)
    → find (has_column_name c.name) original ≡ some c
    → edit_existing original c.name (unchanged_edit c) ≡ []
unfolding edit_existing unchanged_edit
edit_existing-unchanged original c found = rw (found, edit_existing) (changes-unchanged c)

edit_columns-unchanged :
    (original cs : List TableDetailColumn)
    → AreFound original cs
    → edit_columns original (map unchanged_edit cs) ≡ []
unfolding edit_columns edit_column unchanged_edit
edit_columns-unchanged original [] h = refl
edit_columns-unchanged original (c ∷ cs) h =
    ap (λ actions. actions ++ edit_columns original (map unchanged_edit cs))
      (edit_existing-unchanged original c h.0)
    ∙ edit_columns-unchanged original cs h.1

edited_primary_key-unchanged :
    (cs : List TableDetailColumn)
    → edited_primary_key (map unchanged_edit cs) ≡ original_primary_key cs
unfolding edited_primary_key original_primary_key unchanged_edit
edited_primary_key-unchanged [] = refl
edited_primary_key-unchanged (c ∷ cs) = ground (arith, edited_primary_key-unchanged cs)

abbrev AreKept : List ColumnEdit → List Text → Type 0
AreKept edits ks = All (λ k. any (keeps_name k k) edits ≡ true) ks

AreKept-cons :
    (edit : ColumnEdit) (edits : List ColumnEdit) (ks : List Text)
    → AreKept edits ks
    → AreKept (edit ∷ edits) ks
AreKept-cons edit edits [] h = tt
AreKept-cons edit edits (k ∷ ks) h = (ground (arith, h.0), AreKept-cons edit edits ks h.1)

or_true : (a b : Bool) → a ≡ true → (a || b) ≡ true
or_true a b h = ground arith

keeps_name-unchanged : (c : TableDetailColumn) → keeps_name c.name c.name (unchanged_edit c) ≡ true
unfolding unchanged_edit
keeps_name-unchanged c = ground (arith, text_eq_refl c.name)

AreKept-key :
    (c : TableDetailColumn) (cs : List TableDetailColumn) (in_key : Bool)
    → AreKept (map unchanged_edit (c ∷ cs)) (original_primary_key cs)
    → AreKept (map unchanged_edit (c ∷ cs)) (
        map
          (λ (d : TableDetailColumn). d.name)
          (cond in_key (c ∷ retain (λ d. d.is_primary_key) cs) (retain (λ d. d.is_primary_key) cs)))
unfolding original_primary_key
AreKept-key c cs true h = (or_true _ _ (keeps_name-unchanged c), h)
AreKept-key c cs false h = h

AreKept-unchanged :
    (cs : List TableDetailColumn) → AreKept (map unchanged_edit cs) (original_primary_key cs)
unfolding original_primary_key
AreKept-unchanged [] = tt
AreKept-unchanged (c ∷ cs) = AreKept-key c cs c.is_primary_key (
    AreKept-cons (unchanged_edit c) (map unchanged_edit cs) (original_primary_key cs)
      (AreKept-unchanged cs))

keys_kept-AreKept :
    (edits : List ColumnEdit) (ks : List Text) → AreKept edits ks → keys_kept edits ks ks ≡ true
unfolding keys_kept
keys_kept-AreKept edits [] h = refl
keys_kept-AreKept edits (k ∷ ks) h = ground (arith, h.0, keys_kept-AreKept edits ks h.1)

primary_key_unchanged-unchanged :
    (cs : List TableDetailColumn) → primary_key_unchanged cs (map unchanged_edit cs) ≡ true
unfolding primary_key_unchanged
primary_key_unchanged-unchanged cs =
    let kept =
      keys_kept-AreKept (map unchanged_edit cs) (original_primary_key cs) (AreKept-unchanged cs) in
    rw (edited_primary_key-unchanged cs) (ground (arith, kept))

dropped_key-unchanged : (constraint : Option Text) → dropped_key true constraint ≡ []
dropped_key-unchanged none = refl
dropped_key-unchanged (some c) = refl

actions_none :
    (table new_table_name : Text) (original : List TableDetailColumn) (key_constraint : Option Text)
    → AreDistinct (all_names original)
    → trim new_table_name ≡ table
    → alter_actions table new_table_name original (map unchanged_edit original) key_constraint ≡ []
unfolding alter_actions
actions_none table new_table_name original key_constraint distinct same_name =
    rw
      (
        primary_key_unchanged-unchanged original,
        dropped_key-unchanged key_constraint,
        edit_columns-unchanged original original (AreFound-self original distinct),
        same_name,
        text_eq_refl table,
      )
      refl

-- Where no two columns share a name, the form as it is opened on a table, with the table's name,
-- gives no statement at all.
pub alter_unchanged :
    (schema table new_table_name : Text) (original : List TableDetailColumn)
    (key_constraint : Option Text)
    → AreDistinct (all_names original)
    → trim new_table_name ≡ table
    → build_alter_table_statements schema table new_table_name original
        (map unchanged_edit original)
        key_constraint
      ≡ []
unfolding build_alter_table_statements
alter_unchanged schema table new_table_name original key_constraint distinct same_name =
    ap (map (statement schema table))
      (actions_none table new_table_name original key_constraint distinct same_name)
