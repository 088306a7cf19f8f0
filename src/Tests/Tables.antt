-- ===== src/Tests/Tables.antt =====
-- A table of two columns in the table editor.
use draco.Base.{
  if◌then◌else◌, Option-cases, is_some, any, all, All, Result, err, ok, ◌≡◌, refl, sym, ap, ◌∙◌,
  ◌⊎◌, inl, inr, Bool, true, false, not, ◌&&◌, Option, none, some, List, [], ◌∷◌, map, arith,
}
use draco.Text.{
  Text, codes, text_eq, text_eq_iff, text_eq_refl, is_whitespace, is_control, byte_len, trim,
  contains, contains_text, join,
}
use draco.Error.{ApplicationError}
use draco.Import.{member, AreDistinct}
use draco.RowEdit.{validate_schema_object_name}
use draco.SchemaDiff.{same_bool}
use draco.SchemaDiff.Ident.{double_quotes}
use draco.TableEditor.{
  NewTableColumn, quote_name, validate_identifier, is_bad_fragment, validate_sql_fragment,
  validate_table_column_definition, qualified_name, references_clause, default_clause,
  new_column_definition, new_definitions, build_create_table_statement,
}
use draco.TableEditor.Alter.{
  TableDetailColumn, ColumnEdit, AlterAction, drop_constraint, add_column, drop_column,
  rename_column, set_type, set_nullable, set_default, add_primary_key, rename_table, changes,
  edit_existing, edit_column, edit_columns, original_primary_key, edited_primary_key, keys_kept,
  primary_key_unchanged, alter_actions, build_alter_table_statements, alter_table_is_destructive,
  AlterTableInput, TableDetail, AlterTablePreviewView, in_application, supply_original,
  resulting_name, check_edits, same_set, build_alter_table_preview,
}
use draco.TableEditor.Destructive.{loses, destructive_reported}
use draco.TableEditor.Unchanged.{unchanged_edit, all_names, alter_unchanged}
use draco.TableEditor.Server.{ColumnState, Columns, effect, introduces}
use draco.TableEditor.Previewed.{opened}
use draco.TableEditor.Promised.{form_actions, preview-statements, FitsKey, AreAsEdited}
use draco.TableEditor.Printed.{target_name, documented, statements-documented}
use draco.TableEditor.Sent.{SqlServer, send_all, preview-AreAsEdited}

abbrev id_column : TableDetailColumn
id_column = record {
  name = codes "id";
  full_type = codes "integer";
  is_nullable = false;
  column_default = none;
  is_primary_key = true;
}

abbrev note_column : TableDetailColumn
note_column = record {
  name = codes "note";
  full_type = codes "text";
  is_nullable = true;
  column_default = none;
  is_primary_key = false;
}

abbrev a_table : List TableDetailColumn
a_table = id_column ∷ note_column ∷ []

a_table-distinct : AreDistinct (all_names a_table)
unfolding member text_eq
a_table-distinct = (refl, (refl, tt))

notes-trimmed : trim (codes " notes ") ≡ codes "notes"
unfolding trim is_whitespace
notes-trimmed = refl

alter_unchanged_example :
    build_alter_table_statements
      (codes "public")
      (codes "notes")
      (codes " notes ")
      a_table
      (map unchanged_edit a_table)
      (some (codes "notes_pkey"))
    ≡ []
alter_unchanged_example =
    alter_unchanged (codes "public") (codes "notes") (codes " notes ") a_table
      (some (codes "notes_pkey")) a_table-distinct notes-trimmed

-- The note becomes a required text of another type under another name, and a column is added.
abbrev kept_id : ColumnEdit
kept_id = record {
  original_name = some (codes "id");
  name = codes "id";
  data_type = codes "integer";
  nullable = false;
  default = none;
  primary_key = true;
  removed = false;
}

abbrev moved_note : ColumnEdit
moved_note = record {
  original_name = some (codes "note");
  name = codes "body";
  data_type = codes "varchar";
  nullable = false;
  default = some (codes " '' ");
  primary_key = false;
  removed = false;
}

abbrev new_column : ColumnEdit
new_column = record {
  original_name = none;
  name = codes "at";
  data_type = codes "date";
  nullable = true;
  default = some (codes "now()");
  primary_key = false;
  removed = false;
}

abbrev some_edits : List ColumnEdit
some_edits = kept_id ∷ moved_note ∷ new_column ∷ []

some_edits-lossy : any (loses a_table) some_edits ≡ true
unfolding text_eq
some_edits-lossy = refl

destructive_reported_example :
    alter_table_is_destructive (
      build_alter_table_statements
        (codes "public")
        (codes "notes")
        (codes "notes")
        a_table
        some_edits
        none)
    ≡ true
destructive_reported_example =
    destructive_reported (codes "public") (codes "notes") (codes "notes") a_table some_edits none
      (inl some_edits-lossy)

-- The note gets another name and may no longer be null.
abbrev required_note : ColumnEdit
required_note = record {
  original_name = some (codes "note");
  name = codes "body";
  data_type = codes "text";
  nullable = false;
  default = none;
  primary_key = false;
  removed = false;
}

abbrev two_edits : List ColumnEdit
two_edits = kept_id ∷ required_note ∷ []

abbrev notes_target : Text
notes_target = target_name (codes "public") (codes "notes")

abbrev renaming : AlterAction
renaming = rename_column (codes "note") (codes "body")

abbrev requiring : AlterAction
requiring = set_nullable (codes "body") false

-- A server that knows two statements, and fails where a name is taken.
execute_on : Text → Columns → Option Columns
execute_on s f =
    if text_eq s (documented notes_target renaming)
    then if is_some (f (codes "body")) then none else some (effect renaming f)
    else if text_eq s (documented notes_target requiring)
    then some (effect requiring f)
    else none

reads_two : AlterAction → Bool
reads_two (rename_column old new) = text_eq old (codes "note") && text_eq new (codes "body")
reads_two (set_nullable name nullable) = text_eq name (codes "body") && not nullable
reads_two _ = false

execute_on-renaming :
    (f : Columns)
    → execute_on (documented notes_target renaming) f
      ≡ (if is_some (f (codes "body")) then none else some (effect renaming f))
unfolding execute_on
execute_on-renaming f = rw (text_eq_refl (documented notes_target renaming)) refl

statements-differ :
    text_eq (documented notes_target requiring) (documented notes_target renaming) ≡ false
unfolding text_eq documented target_name
statements-differ = refl

execute_on-requiring :
    (f : Columns) → execute_on (documented notes_target requiring) f ≡ some (effect requiring f)
unfolding execute_on
execute_on-requiring f =
    rw statements-differ (rw (text_eq_refl (documented notes_target requiring)) refl)

-- An action that is read is one of the two.
reads_two-cases :
    (action : AlterAction) → reads_two action ≡ true → (action ≡ renaming) ⊎ (action ≡ requiring)
unfolding reads_two
reads_two-cases (rename_column old new) h =
    let same_old : old ≡ codes "note" = (text_eq_iff old (codes "note")).0 (ground arith) in
    let same_new : new ≡ codes "body" = (text_eq_iff new (codes "body")).0 (ground arith) in
    inl (rw same_old (rw same_new refl))
reads_two-cases (set_nullable name true) h = ground arith
reads_two-cases (set_nullable name false) h =
    let same : name ≡ codes "body" = (text_eq_iff name (codes "body")).0 (ground arith) in
    inr (rw same refl)
reads_two-cases (drop_constraint name) h = cc (h)
reads_two-cases (add_column name data_type nullable default) h = cc (h)
reads_two-cases (drop_column name) h = cc (h)
reads_two-cases (set_type name data_type) h = cc (h)
reads_two-cases (set_default name value) h = cc (h)
reads_two-cases (add_primary_key names) h = cc (h)
reads_two-cases (rename_table name) h = cc (h)

renamed_free :
    (f f' : Columns)
    → (if is_some (f (codes "body")) then none else some (effect renaming f)) ≡ some f'
    → (f' ≡ effect renaming f) × (f (codes "body") ≡ none)
renamed_free f f' h = elim (Option-cases (f (codes "body"))) [
  | inl free ↦ (some_same (sym (if_free free) ∙ h), free)
  | inr (state, held) ↦ cc (sym (if_held held) ∙ h)
]
  where
    some_same : {x y : Columns} → ◌≡◌ {A = Option Columns} (some x) (some y) → y ≡ x
    some_same e = sym (cc (e))

    if_free :
        f (codes "body") ≡ none
        → (if is_some (f (codes "body")) then none else some (effect renaming f))
          ≡ some (effect renaming f)
    if_free free = rw free refl

    if_held :
        {state : ColumnState}
        → f (codes "body") ≡ some state
        → (if is_some (f (codes "body")) then none else some (effect renaming f)) ≡ none
    if_held held = rw held refl

execute_on-executed :
    (action : AlterAction) (f f' : Columns)
    → reads_two action ≡ true
    → execute_on (documented notes_target action) f ≡ some f'
    → f' ≡ effect action f
execute_on-executed action f f' read h = elim (reads_two-cases action read) [
  | inl same ↦ rw same (renamed_free f f' (sym (execute_on-renaming f) ∙ rw (← same) h)).0
  | inr same ↦ rw same (required f f' (sym (execute_on-requiring f) ∙ rw (← same) h))
]
  where
    required :
        (g g' : Columns)
        → ◌≡◌ {A = Option Columns} (some (effect requiring g)) (some g')
        → g' ≡ effect requiring g
    required g g' e = sym (cc (e))

execute_on-free :
    (action : AlterAction) (name : Text) (f f' : Columns)
    → reads_two action ≡ true
    → introduces action ≡ some name
    → execute_on (documented notes_target action) f ≡ some f'
    → f name ≡ none
execute_on-free action name f f' read introduced h = elim (reads_two-cases action read) [
  | inl same ↦
      let named : codes "body" ≡ name = name_of (sym (ap introduces same) ∙ introduced) in
      rw (← named) (renamed_free f f' (sym (execute_on-renaming f) ∙ rw (← same) h)).1
  | inr same ↦ cc (sym (ap introduces same) ∙ introduced)
]
  where
    name_of : {x y : Text} → ◌≡◌ {A = Option Text} (some x) (some y) → x ≡ y
    name_of e = cc (e)

abbrev a_server : SqlServer notes_target
a_server = record {
  Table = Columns;
  columns = λ f. f;
  execute = execute_on;
  reads = reads_two;
  executed = execute_on-executed;
  found_free = execute_on-free;
}

abbrev a_detail : TableDetail
a_detail = record { columns = a_table; constraints = [] }

abbrev an_input : AlterTableInput
an_input = record { new_table_name = codes "notes"; columns = two_edits }

abbrev no_view : AlterTablePreviewView
no_view = record { statements = []; sql = []; destructive = false }

abbrev view_of : Result ApplicationError AlterTablePreviewView → AlterTablePreviewView
view_of (ok view) = view
view_of (err e) = no_view

some_view : AlterTablePreviewView
unfolding build_alter_table_preview
some_view = view_of (build_alter_table_preview (codes "public") (codes "notes") an_input a_detail)

some_view-accepted :
    build_alter_table_preview (codes "public") (codes "notes") an_input a_detail ≡ ok some_view
unfolding some_view build_alter_table_preview validate_schema_object_name check_edits
    supply_original resulting_name in_application validate_table_column_definition
    validate_identifier validate_sql_fragment is_bad_fragment contains_text contains trim
    is_whitespace is_control byte_len same_set member text_eq
some_view-accepted = refl

two_actions : form_actions (codes "notes") an_input a_detail ≡ renaming ∷ requiring ∷ []
unfolding alter_actions edit_columns edit_column edit_existing changes primary_key_unchanged
    original_primary_key edited_primary_key keys_kept same_bool text_eq trim is_whitespace
two_actions = refl

two_actions-read : all reads_two (form_actions (codes "notes") an_input a_detail) ≡ true
unfolding reads_two text_eq
two_actions-read = ap (all reads_two) two_actions

some_columns : Columns
some_columns = effect requiring (effect renaming (opened a_table))

two_sent :
    send_all notes_target a_server
      (documented notes_target renaming ∷ documented notes_target requiring ∷ [])
      (opened a_table)
    ≡ some some_columns
unfolding send_all some_columns
two_sent =
    rw (execute_on-renaming (opened a_table), send_all)
      (unfold text_eq in
        rw (execute_on-requiring (effect renaming (opened a_table)), send_all) refl)

some_view-sent :
    send_all notes_target a_server some_view.statements (opened a_table) ≡ some some_columns
some_view-sent =
    let printed =
      preview-statements (codes "public") (codes "notes") an_input a_detail some_view
        some_view-accepted
      ∙ statements-documented (codes "public") (codes "notes")
          (form_actions (codes "notes") an_input a_detail)
      ∙ ap (map (documented notes_target)) two_actions in
    ap (λ statements. send_all notes_target a_server statements (opened a_table)) printed ∙ two_sent

two_edits-fit : All (FitsKey (edited_primary_key two_edits)) two_edits
unfolding edited_primary_key member text_eq
two_edits-fit = (λ kept in_key. refl, (λ kept in_key. refl, tt))

preview-AreAsEdited_example : AreAsEdited two_edits some_columns
preview-AreAsEdited_example =
    preview-AreAsEdited (codes "public") (codes "notes") a_server an_input a_detail some_view
      (opened a_table) some_columns some_view-accepted (λ j. refl) two_edits-fit two_actions-read
      some_view-sent

-- A type that ends within a text and a name that closes it: the statement that is accepted creates
-- a table and goes on with another statement.
abbrev column_named : Text → Text → NewTableColumn
column_named name data_type = record {
  name = name;
  data_type = data_type;
  nullable = true;
  primary_key = false;
  unique = false;
  default = none;
  references = none;
}

open_text_accepted :
    build_create_table_statement (codes "s") (codes "t") (
      column_named (codes "a") (codes "text default '")
      ∷ column_named (codes "'); drop table x; --") (codes "int")
      ∷ [])
    ≡ ok (
        codes
          "CREATE TABLE \"s\".\"t\" (\n  \"a\" text default ',\n  \"'); drop table x; --\" int\n)")
unfolding build_create_table_statement new_definitions new_column_definition validate_identifier
    validate_sql_fragment is_bad_fragment contains_text contains trim is_whitespace is_control
    byte_len member text_eq qualified_name quote_name double_quotes references_clause default_clause
    join
open_text_accepted = refl
