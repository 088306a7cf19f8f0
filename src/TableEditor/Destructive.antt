-- ===== src/TableEditor/Destructive.antt =====
-- When the editor asks for a confirmation.
use mathlib.Core.List.{append-nil}
use draco.Base.{
  ◌==◌, if◌then◌else◌, ==_iff, Bool-cases, is_some, length, get_elem?, is_empty, any, find, All, ℕ,
  zero, suc, ◌≡◌, refl, ap, ◌∙◌, ◌≢◌, ◌⊎◌, inl, inr, Bool, true, false, not, ◌&&◌, ◌||◌, Option,
  none, some, List, [], ◌∷◌, ◌++◌, map, arith,
}
use draco.Text.{Text, codes, text_eq, text_eq_iff, trim, contains_text}
use draco.SchemaDiff.Render.{format}
use draco.TableEditor.{quote_name, qualified_name}
use draco.TableEditor.Alter.{
  TableDetailColumn, ColumnEdit, AlterAction, drop_constraint, add_column, drop_column,
  rename_column, set_type, set_nullable, set_default, add_primary_key, rename_table, clause,
  statement, when, changes, has_column_name, edit_existing, edited, edit_column, edit_columns,
  original_primary_key, edited_primary_key, named_by, keeps_name, keys_kept, primary_key_unchanged,
  dropped_key, added_key, alter_actions, build_alter_table_statements, is_destructive_statement,
  alter_table_is_destructive,
}

contains_text-append :
    (part before s : Text) → contains_text part s ≡ true → contains_text part (before ++ s) ≡ true
unfolding contains_text
contains_text-append part [] s h = h
contains_text-append part (c ∷ before) s h = ground (arith, contains_text-append part before s h)

-- Statements that lose data, may fail on the rows that are there, or take a key away.
abbrev pub is_lossy : AlterAction → Bool
is_lossy (drop_constraint _) = true
is_lossy (drop_column _) = true
is_lossy (set_type _ _) = true
is_lossy (add_primary_key _) = true
is_lossy _ = false

or_second : (a b : Bool) → b ≡ true → (a || b) ≡ true
or_second a b h = ground arith

or_first : (a b : Bool) → a ≡ true → (a || b) ≡ true
or_first a b h = ground arith

-- What is found in the clause is found in the statement.
statement-contains :
    (schema table part : Text) (action : AlterAction)
    → contains_text part (clause action) ≡ true
    → contains_text part (statement schema table action) ≡ true
unfolding statement
statement-contains schema table part action h = contains_text-append part (codes "ALTER TABLE ") _ (
    contains_text-append part (qualified_name schema table) _
      (contains_text-append part (codes " ") _ (rw (append-nil (clause action)) h)))

clause-drop_constraint :
    (name : Text) → contains_text (codes "DROP CONSTRAINT") (clause (drop_constraint name)) ≡ true
unfolding clause contains_text
clause-drop_constraint name = refl

clause-drop_column :
    (name : Text) → contains_text (codes "DROP COLUMN") (clause (drop_column name)) ≡ true
unfolding clause contains_text
clause-drop_column name = refl

clause-add_primary_key :
    (names : List Text)
    → contains_text (codes "ADD PRIMARY KEY") (clause (add_primary_key names)) ≡ true
unfolding clause contains_text
clause-add_primary_key names = refl

clause-set_type :
    (name data_type : Text)
    → contains_text (codes " TYPE ") (clause (set_type name data_type)) ≡ true
unfolding clause contains_text
clause-set_type name data_type =
    let using : Text =
      format (data_type ∷ codes " USING " ∷ quote_name name ∷ codes "::" ∷ data_type ∷ []) in
    contains_text-append (codes " TYPE ") (codes "ALTER COLUMN ")
      (quote_name name ++ (codes " TYPE " ++ using))
      (contains_text-append (codes " TYPE ") (quote_name name) (codes " TYPE " ++ using) refl)

lossy-is_destructive :
    (schema table : Text) (action : AlterAction)
    → is_lossy action ≡ true
    → is_destructive_statement (statement schema table action) ≡ true
unfolding is_destructive_statement
lossy-is_destructive schema table (drop_constraint name) h =
    let found =
      statement-contains schema table (codes "DROP CONSTRAINT") (drop_constraint name)
        (clause-drop_constraint name) in
    ground (arith, found)
lossy-is_destructive schema table (drop_column name) h =
    let found =
      statement-contains schema table (codes "DROP COLUMN") (drop_column name)
        (clause-drop_column name) in
    ground (arith, found)
lossy-is_destructive schema table (set_type name data_type) h =
    let found =
      statement-contains schema table (codes " TYPE ") (set_type name data_type)
        (clause-set_type name data_type) in
    ground (arith, found)
lossy-is_destructive schema table (add_primary_key names) h =
    let found =
      statement-contains schema table (codes "ADD PRIMARY KEY") (add_primary_key names)
        (clause-add_primary_key names) in
    ground (arith, found)
lossy-is_destructive schema table (add_column _ _ _ _) h = cc
lossy-is_destructive schema table (rename_column _ _) h = cc
lossy-is_destructive schema table (set_nullable _ _) h = cc
lossy-is_destructive schema table (set_default _ _) h = cc
lossy-is_destructive schema table (rename_table _) h = cc

lossy-any :
    (schema table : Text) (actions : List AlterAction)
    → any is_lossy actions ≡ true
    → any is_destructive_statement (map (statement schema table) actions) ≡ true
lossy-any schema table [] h = h
lossy-any schema table (action ∷ actions) h = elim (Bool-cases (is_lossy action)) [
  | inl lossy ↦ or_first _ _ (lossy-is_destructive schema table action lossy)
  | inr harmless ↦ or_second _ _ (lossy-any schema table actions (ground (arith, harmless, h)))
]

-- An edit that removes a column of the table, or gives a kept one another type.
abbrev pub retypes : Option TableDetailColumn → ColumnEdit → Bool
retypes none edit = false
retypes (some current) edit = not (text_eq current.full_type edit.data_type)

abbrev pub loses_from : List TableDetailColumn → Option Text → ColumnEdit → Bool
loses_from original none edit = false
loses_from original (some name) edit =
    if edit.removed then true else retypes (find (has_column_name name) original) edit

abbrev pub loses : List TableDetailColumn → ColumnEdit → Bool
loses original edit = loses_from original edit.original_name edit

-- A kept edit that gives the column `o` the name `e`.
pub record Takes (o e : Text) (edit : ColumnEdit) : Type 0 where
  pub from : edit.original_name ≡ some o
  pub named : edit.name ≡ e
  pub stays : edit.removed ≡ false

-- The key of the form is another one: it has another number of columns, or some column of the table's
-- key is not the column that stands in its place.
abbrev pub IsRekeyed : List TableDetailColumn → List ColumnEdit → Type 0
IsRekeyed original edits =
    (length (original_primary_key original) ≢ length (edited_primary_key edits))
    ⊎ ((i : ℕ) × (o e : Text) × (get_elem? (original_primary_key original) i ≡ some o)
        × (get_elem? (edited_primary_key edits) i ≡ some e)
        × All (λ edit. ¬ Takes o e edit) edits)

keeps_name-Takes : (o e : Text) (edit : ColumnEdit) → keeps_name o e edit ≡ true → Takes o e edit
keeps_name-Takes o e edit h = record {
  from = from_part edit.original_name (ground arith);
  named = (text_eq_iff edit.name e).0 (ground arith);
  stays = ground arith;
}
  where
    from_part : (name : Option Text) → named_by name o ≡ true → name ≡ some o
    from_part none found = cc (found)
    from_part (some name) found = ap (λ (n : Text). some n) ((text_eq_iff name o).0 found)

none-keeps_name :
    (o e : Text) (edits : List ColumnEdit)
    → All (λ edit. ¬ Takes o e edit) edits
    → any (keeps_name o e) edits ≡ false
none-keeps_name o e [] h = refl
none-keeps_name o e (edit ∷ edits) h = elim (Bool-cases (keeps_name o e edit)) [
  | inl kept ↦ absurd (h.0 (keeps_name-Takes o e edit kept))
  | inr off ↦ rw off (none-keeps_name o e edits h.1)
]

keys_kept-at :
    (edits : List ColumnEdit) (old new : List Text) (i : ℕ) (o e : Text)
    → get_elem? old i ≡ some o
    → get_elem? new i ≡ some e
    → any (keeps_name o e) edits ≡ false
    → keys_kept edits old new ≡ false
unfolding keys_kept
keys_kept-at edits [] new i o e at_old at_new h = cc (at_old)
keys_kept-at edits (a ∷ old) [] i o e at_old at_new h = cc (at_new)
keys_kept-at edits (a ∷ old) (b ∷ new) zero o e at_old at_new h =
    let same_old : a ≡ o = cc (at_old) in
    let same_new : b ≡ e = cc (at_new) in rw same_old (rw same_new (rw h refl))
keys_kept-at edits (a ∷ old) (b ∷ new) (suc i) o e at_old at_new h =
    ground (arith, keys_kept-at edits old new i o e at_old at_new h)

IsRekeyed-changed :
    (original : List TableDetailColumn) (edits : List ColumnEdit)
    → IsRekeyed original edits
    → primary_key_unchanged original edits ≡ false
unfolding primary_key_unchanged
IsRekeyed-changed original edits (inl longer) =
    let differ : (length (original_primary_key original) == length (edited_primary_key edits))
        ≡ false =
      ground (
        arith,
        ==_iff (length (original_primary_key original)) (length (edited_primary_key edits)),
        longer,
      ) in
    ground (arith, differ)
IsRekeyed-changed original edits (inr (i, o, e, at_old, at_new, none_takes)) =
    let off =
      keys_kept-at edits (original_primary_key original) (edited_primary_key edits) i o e at_old
        at_new (none-keeps_name o e edits none_takes) in
    ground (arith, off)

any-append :
    (xs ys : List AlterAction) → any is_lossy (xs ++ ys) ≡ (any is_lossy xs || any is_lossy ys)
any-append [] ys = refl
any-append (x ∷ xs) ys = ground (arith, any-append xs ys)

changes-lossy :
    (name : Text) (current : TableDetailColumn) (edit : ColumnEdit)
    → any is_lossy (changes name current edit) ≡ retypes (some current) edit
unfolding changes
changes-lossy name current edit = ground arith

existing-lossy :
    (removed : Bool) (name : Text) (found : Option TableDetailColumn) (edit : ColumnEdit)
    → any is_lossy (
        if removed then drop_column name ∷ [] else elim found as (λ _. List AlterAction) [
          | none ↦ []
          | some current ↦ changes name current edit
        ])
      ≡ (if removed then true else retypes found edit)
existing-lossy true name found edit = refl
existing-lossy false name none edit = refl
existing-lossy false name (some current) edit = changes-lossy name current edit

edited-lossy :
    (original : List TableDetailColumn) (name : Option Text) (edit : ColumnEdit)
    → any is_lossy (edited original name edit) ≡ loses_from original name edit
unfolding edit_existing
edited-lossy original none edit = ground arith
edited-lossy original (some name) edit =
    existing-lossy edit.removed name (find (has_column_name name) original) edit

edit_columns-lossy :
    (original : List TableDetailColumn) (edits : List ColumnEdit)
    → any is_lossy (edit_columns original edits) ≡ any (loses original) edits
unfolding edit_columns edit_column
edit_columns-lossy original [] = refl
edit_columns-lossy original (edit ∷ edits) =
    any-append (edited original edit.original_name edit) (edit_columns original edits)
    ∙ ap (λ b. b || any is_lossy (edit_columns original edits))
        (edited-lossy original edit.original_name edit)
    ∙ ap (λ b. loses original edit || b) (edit_columns-lossy original edits)

-- The statements on the key are lossy, and so is the whole if a part of it is.
key-lossy :
    (unchanged : Bool) (constraint : Option Text) (names : List Text)
    → (any is_lossy (dropped_key unchanged constraint) || any is_lossy (added_key unchanged names))
      ≡ (not unchanged && (is_some constraint || not (is_empty names)))
key-lossy unchanged none names = ground arith
key-lossy unchanged (some c) names = ground arith

any-parts :
    (dropped edits_part added_part renamed : List AlterAction)
    → (any is_lossy edits_part || (any is_lossy dropped || any is_lossy added_part)) ≡ true
    → any is_lossy (dropped ++ (edits_part ++ (added_part ++ renamed))) ≡ true
any-parts dropped edits_part added_part renamed h = ground (
  arith,
  any-append dropped (edits_part ++ (added_part ++ renamed)),
  any-append edits_part (added_part ++ renamed),
  any-append added_part renamed,
)

-- A form that removes a column of the table, gives a kept column another type, or has another
-- primary key than the table, where there is a constraint to drop or a key to add, is reported as
-- destructive.
pub destructive_reported :
    (schema table new_table_name : Text) (original : List TableDetailColumn)
    (edits : List ColumnEdit) (key_constraint : Option Text)
    → (any (loses original) edits ≡ true)
      ⊎ (IsRekeyed original edits
          × ((is_some key_constraint || not (is_empty (edited_primary_key edits))) ≡ true))
    → alter_table_is_destructive
        (build_alter_table_statements schema table new_table_name original edits key_constraint)
      ≡ true
unfolding alter_table_is_destructive build_alter_table_statements alter_actions
destructive_reported schema table new_table_name original edits key_constraint h =
    let unchanged = primary_key_unchanged original edits in
    let names = edited_primary_key edits in
    let dropped = dropped_key unchanged key_constraint in
    let added_part = added_key unchanged names in
    let lossy : (any is_lossy (edit_columns original edits)
          || (any is_lossy dropped || any is_lossy added_part))
        ≡ true =
      rw (edit_columns-lossy original edits, key-lossy unchanged key_constraint names) (cause h) in
    lossy-any schema table (alter_actions table new_table_name original edits key_constraint) (
      any-parts dropped (edit_columns original edits) added_part
        (when (not (text_eq (trim new_table_name) table)) (rename_table (trim new_table_name)))
        lossy)
  where
    cause :
        (any (loses original) edits ≡ true)
          ⊎ (IsRekeyed original edits
              × ((is_some key_constraint || not (is_empty (edited_primary_key edits))) ≡ true))
        → (any (loses original) edits
            || (not (primary_key_unchanged original edits)
                && (is_some key_constraint || not (is_empty (edited_primary_key edits)))))
          ≡ true
    cause (inl lost) = rw lost refl
    cause (inr (rekeyed, present)) =
        let changed = IsRekeyed-changed original edits rekeyed in ground (arith, changed, present)
