-- ===== src/TableEditor/Executed.antt =====
-- What one edit of the form does to the columns when its statements are executed.
use mathlib.Core.Path.{fun_ext}
use draco.Base.{
  if◌then◌else◌, ◌≡◌, refl, ap, ◌∙◌, Bool, true, false, not, Option, none, some, List, ◌++◌, arith,
}
use draco.Text.{Text, text_eq, text_eq_iff, text_eq_refl}
use draco.SchemaDiff.{same_bool}
use draco.TableEditor.Alter.{
  TableDetailColumn, ColumnEdit, rename_column, set_type, set_nullable, set_default, when,
  trimmed_or_empty, changes,
}
use draco.TableEditor.Server.{
  ColumnState, Columns, at_column, effect, Server, run, run-append, run-when, sent_free,
}

abbrev pub put : Text → Option ColumnState → Columns → Columns
put name v f j = if text_eq name j then v else f j

-- The state of a column of the table, and the one that an edit asks for.
abbrev pub state_of : TableDetailColumn → ColumnState
state_of c = record {
  data_type = c.full_type;
  nullable = c.is_nullable;
  default = trimmed_or_empty c.column_default;
}

abbrev pub declared : ColumnEdit → ColumnState
declared e = record {
  data_type = e.data_type;
  nullable = e.nullable;
  default = trimmed_or_empty e.default;
}

put-put :
    (name : Text) (v w : Option ColumnState) (f : Columns)
    → put name v (put name w f) ≡ put name v f
put-put name v w f = fun_ext (λ j. ground arith)

when-at_column :
    (test : Bool) (name : Text) (u : ColumnState → ColumnState) (f : Columns) (s : ColumnState)
    → f name ≡ some s
    → (if test then at_column name u f else f) ≡ put name (some (if test then u s else s)) f
when-at_column true name u f s h = fun_ext (λ j. ground (arith, h))
when-at_column false name u f s h = fun_ext (λ j. ground (arith, h, text_eq_iff name j))

pub put_self : (name : Text) (v : Option ColumnState) (f : Columns) → put name v f name ≡ v
put_self name v f = rw (text_eq_refl name) refl

-- A further statement on the column that was put last.
when-put :
    (test : Bool) (name : Text) (u : ColumnState → ColumnState) (f g : Columns) (s : ColumnState)
    → f ≡ put name (some s) g
    → (if test then at_column name u f else f) ≡ put name (some (if test then u s else s)) g
when-put test name u f g s h =
    when-at_column test name u f s (ap (λ (k : Columns). k name) h ∙ put_self name (some s) g)
    ∙ ap (put name (some (if test then u s else s))) h
    ∙ put-put name (some (if test then u s else s)) (some s) g

when-rename :
    (old new : Text) (f : Columns) (s : ColumnState)
    → f old ≡ some s
    → (if not (text_eq new old) then effect (rename_column old new) f else f)
      ≡ put new (some s) (put old none f)
when-rename old new f s h =
    fun_ext (λ j. ground (arith, h, text_eq_iff new old, text_eq_iff new j, text_eq_iff old j))

settled_state :
    (c : TableDetailColumn) (e : ColumnEdit)
    → (let typed =
          if not (text_eq c.full_type e.data_type)
          then record (state_of c) { data_type = e.data_type }
          else state_of c in
        let nulled =
          if not (same_bool c.is_nullable e.nullable)
          then record typed { nullable = e.nullable }
          else typed in
        if not (text_eq (trimmed_or_empty c.column_default) (trimmed_or_empty e.default))
        then record nulled { default = trimmed_or_empty e.default }
        else nulled)
      ≡ declared e
unfolding same_bool
settled_state c e = ground (
  arith,
  text_eq_iff c.full_type e.data_type,
  text_eq_iff (trimmed_or_empty c.column_default) (trimmed_or_empty e.default),
)

module _ (server : Server) (original : List TableDetailColumn) where
  pub changes_effect :
      (o : Text) (c : TableDetailColumn) (e : ColumnEdit) (t t' : server.Table)
      → run server (changes o c e) t ≡ some t'
      → server.columns t o ≡ some (state_of c)
      → server.columns t' ≡ put e.name (some (declared e)) (put o none (server.columns t))
  unfolding changes
  changes_effect o c e t t' h current =
      let renaming = not (text_eq e.name o) in
      let typing = not (text_eq c.full_type e.data_type) in
      let nulling = not (same_bool c.is_nullable e.nullable) in
      let new_default = trimmed_or_empty e.default in
      let defaulting = not (text_eq (trimmed_or_empty c.column_default) new_default) in
      let type_part = when typing (set_type e.name e.data_type) in
      let null_part = when nulling (set_nullable e.name e.nullable) in
      let default_part = when defaulting (set_default e.name new_default) in
      let (t1, renamed, rest1) =
        run-append server (when renaming (rename_column o e.name))
          (type_part ++ (null_part ++ default_part)) t t' h in
      let (t2, typed, rest2) =
        run-append server type_part (null_part ++ default_part) t1 t' rest1 in
      let (t3, nulled, defaulted) = run-append server null_part default_part t2 t' rest2 in
      let g = put o none (server.columns t) in
      let s1 = state_of c in
      let retyped = λ (s : ColumnState). record s { data_type = e.data_type } in
      let renulled = λ (s : ColumnState). record s { nullable = e.nullable } in
      let redefaulted = λ (s : ColumnState). record s { default = new_default } in
      let s2 = if typing then retyped s1 else s1 in
      let s3 = if nulling then renulled s2 else s2 in
      let f1 =
        run-when server renaming (rename_column o e.name) t t1 renamed
        ∙ when-rename o e.name (server.columns t) s1 current in
      let f2 =
        run-when server typing (set_type e.name e.data_type) t1 t2 typed
        ∙ when-put typing e.name retyped (server.columns t1) g s1 f1 in
      let f3 =
        run-when server nulling (set_nullable e.name e.nullable) t2 t3 nulled
        ∙ when-put nulling e.name renulled (server.columns t2) g s2 f2 in
      let f4 =
        run-when server defaulting (set_default e.name new_default) t3 t' defaulted
        ∙ when-put defaulting e.name redefaulted (server.columns t3) g s3 f3 in
      f4 ∙ ap (λ s. put e.name (some s) g) (settled_state c e)

  -- A kept column under a new name has found the name free.
  pub changes_free :
      (o : Text) (c : TableDetailColumn) (e : ColumnEdit) (t t' : server.Table)
      → run server (changes o c e) t ≡ some t'
      → text_eq e.name o ≡ false
      → server.columns t e.name ≡ none
  unfolding changes
  changes_free o c e t t' h moved =
      let rest =
        when (not (text_eq c.full_type e.data_type)) (set_type e.name e.data_type)
        ++ (when (not (same_bool c.is_nullable e.nullable)) (set_nullable e.name e.nullable)
            ++ when (not (text_eq (trimmed_or_empty c.column_default) (trimmed_or_empty e.default)))
                (set_default e.name (trimmed_or_empty e.default))) in
      let (t1, renamed, _) =
        run-append server (when (not (text_eq e.name o)) (rename_column o e.name)) rest t t' h in
      sent_free server (not (text_eq e.name o)) (rename_column o e.name) e.name t t1 refl
        (ground (arith, moved)) renamed
