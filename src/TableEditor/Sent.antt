-- ===== src/TableEditor/Sent.antt =====
-- A previewed form, and the table after its statements were sent as texts.
use draco.Base.{
  if◌then◌else◌, all, All, ok, ◌≡◌, refl, sym, ap, ◌∙◌, Bool, true, false, ◌&&◌, Option, none, some,
  List, [], ◌∷◌, map,
}
use draco.Text.{Text}
use draco.TableEditor.Alter.{
  AlterAction, edited_primary_key, AlterTableInput, TableDetail, AlterTablePreviewView,
  build_alter_table_preview,
}
use draco.TableEditor.Server.{effect, introduces, Columns, Server, run}
use draco.TableEditor.Previewed.{opened}
use draco.TableEditor.Promised.{
  FitsKey, AreAsEdited, actions-AreAsEdited, form_actions, preview-statements,
}
use draco.TableEditor.Printed.{documented, target_name, statements-documented}

-- A server with a table. It executes texts, which may fail for any reason. `reads` tells of an
-- action whether the server takes its documented statement for it, which it does not where a type
-- or a default is more than a type or an expression, or where a name is cut off. Such a statement,
-- if it succeeds, has the documented effect, and has found the name that it introduces free.
pub record SqlServer (target : Text) : Type 1 where
  pub Table : Type 0
  pub columns : Table → Columns
  pub execute : Text → Table → Option Table
  pub reads : AlterAction → Bool
  pub executed :
      (action : AlterAction) (t t' : Table)
      → reads action ≡ true
      → execute (documented target action) t ≡ some t'
      → columns t' ≡ effect action (columns t)
  pub found_free :
      (action : AlterAction) (name : Text) (t t' : Table)
      → reads action ≡ true
      → introduces action ≡ some name
      → execute (documented target action) t ≡ some t'
      → columns t name ≡ none

module _ (target : Text) (server : SqlServer target) where
  -- The batch is a transaction: it gives a table only if every statement succeeds.
  unfoldable pub send_all : List Text → server.Table → Option server.Table
  send_all [] t = some t
  send_all (s ∷ rest) t = elim (server.execute s t) [ none ↦ none | some t' ↦ send_all rest t' ]

  abbrev execute_read : AlterAction → server.Table → Option server.Table
  execute_read action t =
      if server.reads action then server.execute (documented target action) t else none

  read_part :
      (action : AlterAction) (t t' : server.Table)
      → execute_read action t ≡ some t'
      → (server.reads action ≡ true) × (server.execute (documented target action) t ≡ some t')
  read_part action t t' = by_test (server.reads action)
    where
      by_test :
          (test : Bool)
          → (if test then server.execute (documented target action) t else none) ≡ some t'
          → (test ≡ true) × (server.execute (documented target action) t ≡ some t')
      by_test true h = (refl, h)
      by_test false h = cc (h)

  -- The server by the actions that it reads.
  abbrev by_actions : Server
  by_actions = record {
    Table = server.Table;
    columns = server.columns;
    execute = execute_read;
    executed = λ action t t' h.
        let (read, done) = read_part action t t' h in server.executed action t t' read done;
    found_free = λ action name t t' introduced h.
        let (read, done) = read_part action t t' h in
        server.found_free action name t t' read introduced done;
  }

  send_all-run :
      (actions : List AlterAction) (t : server.Table)
      → all server.reads actions ≡ true
      → send_all (map (documented target) actions) t ≡ run by_actions actions t
  unfolding send_all run
  send_all-run [] t h = refl
  send_all-run (action ∷ actions) t h =
      let (read, later) = both_parts (server.reads action) (all server.reads actions) h in
      let same : execute_read action t ≡ server.execute (documented target action) t =
        rw read refl in
      rw (same, run)
        (step (server.execute (documented target action) t) (λ t'. send_all-run actions t' later))
    where
      both_parts : (a b : Bool) → (a && b) ≡ true → (a ≡ true) × (b ≡ true)
      both_parts true b both = (refl, both)
      both_parts false b both = cc (both)

      step :
          (o : Option server.Table)
          → ((t' : server.Table)
              → send_all (map (documented target) actions) t' ≡ run by_actions actions t')
          → elim o as (λ _. Option server.Table) [
            | none ↦ none
            | some t' ↦ send_all (map (documented target) actions) t'
          ]
            ≡ elim o as (λ _. Option server.Table) [
              | none ↦ none
              | some t' ↦ run by_actions actions t'
            ]
      step none ih = refl
      step (some t') ih = ih t'

-- Where the preview accepts a form on the table as it stands, the form lets no column of the new key
-- be null, the server reads the documented statement of each of the form's actions, and all the
-- previewed statements, sent as they were printed, succeed, the table's columns are the form's:
-- each kept one has the name, the type, the default and the nullability that the form gives it,
-- and there is no column besides.
pub preview-AreAsEdited :
    (schema table : Text) (server : SqlServer (target_name schema table)) (input : AlterTableInput)
    (detail : TableDetail) (view : AlterTablePreviewView) (t t' : server.Table)
    → build_alter_table_preview schema table input detail ≡ ok view
    → ((j : Text) → server.columns t j ≡ opened detail.columns j)
    → All (FitsKey (edited_primary_key input.columns)) input.columns
    → all server.reads (form_actions table input detail) ≡ true
    → send_all (target_name schema table) server view.statements t ≡ some t'
    → AreAsEdited input.columns (server.columns t')
preview-AreAsEdited schema table server input detail view t t' accepted current fits read sent =
    let target = target_name schema table in
    let actions = form_actions table input detail in
    let printed =
      preview-statements schema table input detail view accepted
      ∙ statements-documented schema table actions in
    let ran =
      sym (send_all-run target server actions t read)
      ∙ sym (ap (λ statements. send_all target server statements t) printed)
      ∙ sent in
    (actions-AreAsEdited (by_actions target server) schema table input detail view t t' accepted
      current fits ran).1
