-- ===== src/TableEditor/Promised.antt =====
-- A previewed form and the table that its statements leave.
use mathlib.Core.Path.{subst}
use draco.Base.{
  ltb, if◌then◌else◌, Bool-cases, length, is_empty, any, all, find, All, Result, ok, >>=-eq-ok,
  >>-eq-ok, reject_if-eq-ok, ◌≡◌, refl, sym, ap, ◌∙◌, inl, inr, Bool, true, false, not, ◌&&◌, ◌||◌,
  Option, none, some, List, [], ◌∷◌, ◌++◌, map, arith,
}
use draco.Text.{Text, codes, text_eq, text_eq_iff, trim}
use draco.Error.{ApplicationError}
use draco.Import.{member}
use draco.RowEdit.{validate_schema_object_name}
use draco.TableEditor.Alter.{
  ColumnEdit, AlterAction, drop_constraint, add_primary_key, rename_table, statement, when,
  edit_columns, edited_primary_key, primary_key_unchanged, dropped_key, added_key, alter_actions,
  build_alter_table_statements, AlterTableInput, TableDetail, AlterTablePreviewView, column_names,
  check_edits, same_set, is_key_constraint, constraint_name, build_alter_table_preview,
}
use draco.TableEditor.Server.{Columns, effect, Server, run, run-nil, run-append, run-when}
use draco.TableEditor.Executed.{declared}
use draco.TableEditor.Accepted.{is_kept, is_about, edits-AreApplied}
use draco.TableEditor.Previewed.{
  check_edits-AreApart, check_edits-covers, state_found, opened, not_member-find,
  check_edits-AreCurrent,
}

-- What a preview was made from.
record IsPreviewed (schema table : Text) (input : AlterTableInput) (detail : TableDetail)
    (view : AlterTablePreviewView) : Type 0 where
  supplied : List Text
  checked : check_edits (column_names detail.columns) [] [] input.columns ≡ ok supplied
  complete : same_set supplied (column_names detail.columns) ≡ true
  statements :
      view.statements
      ≡ build_alter_table_statements schema table input.new_table_name detail.columns input.columns
          (constraint_name (find is_key_constraint detail.constraints))

preview-IsPreviewed :
    (schema table : Text) (input : AlterTableInput) (detail : TableDetail)
    (view : AlterTablePreviewView)
    → build_alter_table_preview schema table input detail ≡ ok view
    → IsPreviewed schema table input detail view
unfolding build_alter_table_preview
preview-IsPreviewed schema table input detail view h =
    let h1 =
      >>-eq-ok (validate_schema_object_name input.new_table_name (codes "label.table")) _ h in
    let (_, h2) =
      reject_if-eq-ok (is_empty input.columns || ltb 512 (length input.columns)) _ _ h1 in
    let (supplied, checked, h3) =
      >>=-eq-ok (check_edits (column_names detail.columns) [] [] input.columns) _ h2 in
    let (complete, h4) =
      reject_if-eq-ok (not (same_set supplied (column_names detail.columns))) _ _ h3 in
    record {
      supplied = supplied;
      checked = checked;
      complete = ground (arith, complete);
      statements = made view h4;
    }
  where
    made :
        (v : AlterTablePreviewView) {w : AlterTablePreviewView}
        → ◌≡◌ {A = Result ApplicationError AlterTablePreviewView} (ok w) (ok v)
        → v.statements ≡ w.statements
    made v h' = cc (h')

-- The actions of a form on the table that it was opened on.
abbrev pub form_actions : Text → AlterTableInput → TableDetail → List AlterAction
form_actions table input detail =
    alter_actions table input.new_table_name detail.columns input.columns
      (constraint_name (find is_key_constraint detail.constraints))

pub preview-statements :
    (schema table : Text) (input : AlterTableInput) (detail : TableDetail)
    (view : AlterTablePreviewView)
    → build_alter_table_preview schema table input detail ≡ ok view
    → view.statements ≡ map (statement schema table) (form_actions table input detail)
unfolding build_alter_table_statements
preview-statements schema table input detail view h =
    (preview-IsPreviewed schema table input detail view h).statements

-- A name in one of two lists with the same elements is in the other.
all-member :
    (xs ys : List Text) (k : Text)
    → all (λ x. member x ys) xs ≡ true
    → member k xs ≡ true
    → member k ys ≡ true
unfolding member
all-member [] ys k h there = cc (there)
all-member (x ∷ xs) ys k h there = elim (Bool-cases (text_eq x k)) [
  | inl here ↦ let same : x ≡ k = (text_eq_iff x k).0 here in ground (arith, h, same)
  | inr away ↦ all-member xs ys k (ground (arith, h)) (ground (arith, away, there))
]

-- A kept column that stands in the new key may not be null, since the key forbids it.
abbrev pub FitsKey : List Text → ColumnEdit → Type 0
FitsKey names e = e.removed ≡ false → member e.name names ≡ true → e.nullable ≡ false

-- What the table's columns are to be: the kept edits, and nothing else.
abbrev pub AreAsEdited : List ColumnEdit → Columns → Type 0
AreAsEdited edits f =
    All (λ e. e.removed ≡ false → f e.name ≡ some (declared e)) edits
    × ((j : Text) → any (is_kept j) edits ≡ false → f j ≡ none)

AreAsEdited-key :
    (names : List Text) (edits : List ColumnEdit) (f : Columns)
    → All (FitsKey names) edits
    → All (λ e. e.removed ≡ false → f e.name ≡ some (declared e)) edits
    → All
        (λ e. e.removed ≡ false → effect (add_primary_key names) f e.name ≡ some (declared e))
        edits
AreAsEdited-key names [] f fits shown = tt
AreAsEdited-key names (e ∷ edits) f (fit, fits) (here, later) =
    (λ kept. keyed (fit kept) (here kept), AreAsEdited-key names edits f fits later)
  where
    keyed :
        (member e.name names ≡ true → e.nullable ≡ false)
        → f e.name ≡ some (declared e)
        → effect (add_primary_key names) f e.name ≡ some (declared e)
    keyed fit' here' = elim (Bool-cases (member e.name names)) [
      | inl in_key ↦ let never = fit' in_key in ground (arith, in_key, never, here')
      | inr off_key ↦ rw off_key here'
    ]

-- A name that no edit is about is that of no column.
untold_absent :
    (detail : TableDetail) (edits : List ColumnEdit) (supplied : List Text) (j : Text)
    → check_edits (column_names detail.columns) [] [] edits ≡ ok supplied
    → same_set supplied (column_names detail.columns) ≡ true
    → any (is_about j) edits ≡ false
    → member j (column_names detail.columns) ≡ false
unfolding same_set member
untold_absent detail edits supplied j checked complete untold =
    elim (Bool-cases (member j (column_names detail.columns))) [
      | inr absent ↦ absent
      | inl there ↦
          let in_supplied =
            all-member (column_names detail.columns) supplied j (ground (arith, complete)) there in
          let told =
            check_edits-covers (column_names detail.columns) [] [] supplied edits j checked
              in_supplied in
          cc (told, untold)
    ]

module _ (server : Server) where
  dropped_key-columns :
      (unchanged : Bool) (constraint : Option Text) (t t' : server.Table)
      → run server (dropped_key unchanged constraint) t ≡ some t'
      → server.columns t' ≡ server.columns t
  dropped_key-columns unchanged none t t' h = ap server.columns (sym (run-nil server t t' h))
  dropped_key-columns unchanged (some c) t t' h =
      run-when server (not unchanged) (drop_constraint c) t t' h
      ∙ same_either (not unchanged) (server.columns t)
    where
      same_either : (b : Bool) (f : Columns) → (if b then f else f) ≡ f
      same_either true f = refl
      same_either false f = refl

  -- The statements behind the edits: the new key, and the table's new name.
  tail-AreAsEdited :
      (unchanged renamed : Bool) (names : List Text) (name : Text) (edits : List ColumnEdit)
      (t t1 t' : server.Table)
      → run server (added_key unchanged names) t ≡ some t1
      → run server (when renamed (rename_table name)) t1 ≡ some t'
      → All (FitsKey names) edits
      → AreAsEdited edits (server.columns t)
      → AreAsEdited edits (server.columns t')
  tail-AreAsEdited unchanged renamed names name edits t t1 t' keyed named fits (shown, gone) =
      subst (AreAsEdited edits)
        (sym (
          run-when server renamed (rename_table name) t1 t' named
          ∙ same_either renamed (server.columns t1)))
        (key_part (not unchanged && not (is_empty names)) keyed)
    where
      still_gone :
          (j : Text)
          → server.columns t j ≡ none
          → effect (add_primary_key names) (server.columns t) j ≡ none
      still_gone j h = ground (arith, h)

      key_part :
          (test : Bool)
          → run server (when test (add_primary_key names)) t ≡ some t1
          → AreAsEdited edits (server.columns t1)
      key_part false h =
          subst (AreAsEdited edits) (sym (run-when server false (add_primary_key names) t t1 h))
            (shown, gone)
      key_part true h =
          subst (AreAsEdited edits) (sym (run-when server true (add_primary_key names) t t1 h)) (
            AreAsEdited-key names edits (server.columns t) fits shown,
            λ j away. still_gone j (gone j away),
          )

      same_either : (b : Bool) (f : Columns) → (if b then f else f) ≡ f
      same_either true f = refl
      same_either false f = refl

  -- The previewed statements are the form's actions in print, and what the actions leave of a table
  -- that stands as it did is what the form says.
  pub actions-AreAsEdited :
      (schema table : Text) (input : AlterTableInput) (detail : TableDetail)
      (view : AlterTablePreviewView) (t t' : server.Table)
      → build_alter_table_preview schema table input detail ≡ ok view
      → ((j : Text) → server.columns t j ≡ opened detail.columns j)
      → All (FitsKey (edited_primary_key input.columns)) input.columns
      → run server
          (alter_actions table input.new_table_name detail.columns input.columns
            (constraint_name (find is_key_constraint detail.constraints)))
          t
        ≡ some t'
      → (view.statements
          ≡ map (statement schema table) (
              alter_actions table input.new_table_name detail.columns input.columns
                (constraint_name (find is_key_constraint detail.constraints))))
        × AreAsEdited input.columns (server.columns t')
  unfolding alter_actions build_alter_table_statements
  actions-AreAsEdited schema table input detail view t t' accepted current fits ran =
      let p = preview-IsPreviewed schema table input detail view accepted in
      let edits = input.columns in
      let key_constraint = constraint_name (find is_key_constraint detail.constraints) in
      let unchanged = primary_key_unchanged detail.columns edits in
      let names = edited_primary_key edits in
      let new_name = trim input.new_table_name in
      let renaming = when (not (text_eq new_name table)) (rename_table new_name) in
      let (t1, dropped, rest1) =
        run-append server (dropped_key unchanged key_constraint)
          (edit_columns detail.columns edits ++ (added_key unchanged names ++ renaming)) t t' ran in
      let (t2, edited_table, rest2) =
        run-append server (edit_columns detail.columns edits)
          (added_key unchanged names ++ renaming) t1 t' rest1 in
      let (t3, keyed, named) = run-append server (added_key unchanged names) renaming t2 t' rest2 in
      let same = dropped_key-columns unchanged key_constraint t t1 dropped in
      let now = λ (j : Text). ap (λ (f : Columns). f j) same ∙ current j in
      let applied =
        edits-AreApplied server detail.columns edits t1 t2 edited_table
          (check_edits-AreCurrent server detail.columns [] [] p.supplied edits (server.columns t1)
            p.checked now)
          (check_edits-AreApart (column_names detail.columns) [] [] p.supplied edits p.checked) in
      let gone = λ (j : Text) (away : any (is_kept j) edits ≡ false).
        applied.gone j
          (λ untold.
            now j
            ∙ ap state_found (
                not_member-find j detail.columns
                  (untold_absent detail edits p.supplied j p.checked p.complete untold)))
          away in
      (
        p.statements,
        tail-AreAsEdited unchanged (not (text_eq new_name table)) names new_name edits t2 t3 t'
            keyed named fits (applied.shown, gone),
      )
