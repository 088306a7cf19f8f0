-- ===== src/TableEditor/Server.antt =====
-- The server that executes the statements of the table editor on one table, as far as the columns
-- go: of a column, the type, the default and whether it may be null, as the statements give them.
use draco.Base.{
  if◌then◌else◌, Option-cases, ◌≡◌, refl, sym, ap, ◌∙◌, inl, inr, Bool, true, false, Option, none,
  some, List, [], ◌∷◌, ◌++◌,
}
use draco.Text.{Text, text_eq}
use draco.Import.{member}
use draco.TableEditor.Alter.{
  AlterAction, drop_constraint, add_column, drop_column, rename_column, set_type, set_nullable,
  set_default, add_primary_key, rename_table, when, trimmed_or_empty,
}

pub record ColumnState : Type 0 where
  pub data_type : Text
  pub nullable : Bool
  pub default : Text

abbrev pub Columns : Type 0
Columns = Text → Option ColumnState

abbrev pub changed : (ColumnState → ColumnState) → Option ColumnState → Option ColumnState
changed u none = none
changed u (some s) = some (u s)

abbrev pub at_column : Text → (ColumnState → ColumnState) → Columns → Columns
at_column name u f j = if text_eq name j then changed u (f name) else f j

-- The documented effect of a statement that succeeds.
abbrev pub effect : AlterAction → Columns → Columns
effect (drop_constraint _) f = f
effect (add_column name data_type nullable default) f = λ j.
    if text_eq name j
    then some
        (record { data_type = data_type; nullable = nullable; default = trimmed_or_empty default })
    else f j
effect (drop_column name) f = λ j. if text_eq name j then none else f j
effect (rename_column old new) f =
    λ j. if text_eq new j then f old else if text_eq old j then none else f j
effect (set_type name data_type) f = at_column name (λ s. record s { data_type = data_type }) f
effect (set_nullable name nullable) f = at_column name (λ s. record s { nullable = nullable }) f
effect (set_default name value) f = at_column name (λ s. record s { default = value }) f
effect (add_primary_key names) f =
    λ j. if member j names then changed (λ s. record s { nullable = false }) (f j) else f j
effect (rename_table _) f = f

-- The name that a statement introduces, which may not be taken.
abbrev pub introduces : AlterAction → Option Text
introduces (add_column name _ _ _) = some name
introduces (rename_column _ new) = some new
introduces _ = none

-- The server, by the actions that are asked of it. It may fail for any reason. An action that
-- succeeds has its effect, and has found the name that it introduces free.
pub record Server : Type 1 where
  pub Table : Type 0
  pub columns : Table → Columns
  pub execute : AlterAction → Table → Option Table
  pub executed :
      (action : AlterAction) (t t' : Table)
      → execute action t ≡ some t'
      → columns t' ≡ effect action (columns t)
  pub found_free :
      (action : AlterAction) (name : Text) (t t' : Table)
      → introduces action ≡ some name
      → execute action t ≡ some t'
      → columns t name ≡ none

module _ (server : Server) where
  -- The batch is a transaction: it gives a table only if every statement succeeds.
  unfoldable pub run : List AlterAction → server.Table → Option server.Table
  run [] t = some t
  run (s ∷ rest) t = elim (server.execute s t) [ none ↦ none | some t' ↦ run rest t' ]

  pub run-nil : (t t' : server.Table) → run [] t ≡ some t' → t ≡ t'
  unfolding run
  run-nil t t' h = cc (h)

  run-cons_none :
      (s : AlterAction) (rest : List AlterAction) (t : server.Table)
      → server.execute s t ≡ none
      → run (s ∷ rest) t ≡ none
  unfolding run
  run-cons_none s rest t failed = rw (failed, run) refl

  run-cons_some :
      (s : AlterAction) (rest : List AlterAction) (t t1 : server.Table)
      → server.execute s t ≡ some t1
      → run (s ∷ rest) t ≡ run rest t1
  unfolding run
  run-cons_some s rest t t1 done = rw (done, run) refl

  pub run-cons :
      (s : AlterAction) (rest : List AlterAction) (t t' : server.Table)
      → run (s ∷ rest) t ≡ some t'
      → (t1 : server.Table) × (server.execute s t ≡ some t1) × (run rest t1 ≡ some t')
  run-cons s rest t t' h = elim (Option-cases (server.execute s t)) [
    | inl failed ↦ cc (run-cons_none s rest t failed, h)
    | inr (t1, done) ↦ (t1, done, sym (run-cons_some s rest t t1 done) ∙ h)
  ]

  pub run-append :
      (front back : List AlterAction) (t t' : server.Table)
      → run (front ++ back) t ≡ some t'
      → (t1 : server.Table) × (run front t ≡ some t1) × (run back t1 ≡ some t')
  unfolding run
  run-append [] back t t' h = (t, refl, h)
  run-append (s ∷ front) back t t' h =
      let (t1, done, rest) = run-cons s (front ++ back) t t' h in
      let (t2, front_done, back_done) = run-append front back t1 t' rest in
      (t2, run-cons_some s front t t1 done ∙ front_done, back_done)

  -- One statement that is sent if a test holds.
  pub run-when :
      (test : Bool) (action : AlterAction) (t t' : server.Table)
      → run (when test action) t ≡ some t'
      → server.columns t' ≡ (if test then effect action (server.columns t) else server.columns t)
  run-when false action t t' h = let same = run-nil t t' h in ap server.columns (sym same)
  run-when true action t t' h =
      let (t1, done, rest) = run-cons action [] t t' h in
      let same = run-nil t1 t' rest in
      ap server.columns (sym same) ∙ server.executed action t t1 done

  pub sent_free :
      (test : Bool) (action : AlterAction) (name : Text) (t t' : server.Table)
      → introduces action ≡ some name
      → test ≡ true
      → run (when test action) t ≡ some t'
      → server.columns t name ≡ none
  sent_free false action name t t' introduced sent h = cc
  sent_free true action name t t' introduced sent h =
      let (t1, done, _) = run-cons action [] t t' h in
      server.found_free action name t t1 introduced done
