-- ===== src/TableEditor/Printed.antt =====
-- The server that executes statements as texts: for each action, the statement that PostgreSQL
-- documents for it, and what a server does that reads it so.
use mathlib.Core.List.{append-nil}
use draco.Base.{
  ◌==◌, Bool-cases, ◌≡◌, refl, ap, inl, inr, true, false, Option, none, some, List, [], ◌∷◌, ◌++◌,
  map,
}
use draco.Text.{Text, codes, join}
use draco.SchemaDiff.Ident.{double_quotes}
use draco.TableEditor.{quote_name, qualified_name}
use draco.TableEditor.Alter.{
  AlterAction, drop_constraint, add_column, drop_column, rename_column, set_type, set_nullable,
  set_default, add_primary_key, rename_table, clause, statement,
}

-- A name in quotes, each quote within it doubled.
doubled : Text → Text
doubled [] = []
doubled (c ∷ s) = elim (c == b'"') [ true ↦ b'"' ∷ b'"' ∷ doubled s | false ↦ c ∷ doubled s ]

unfoldable pub written_name : Text → Text
unfolding doubled
written_name name = (b'"' ∷ doubled name) ++ b'"' ∷ []

unfoldable pub target_name : Text → Text → Text
unfolding written_name
target_name schema table = written_name schema ++ (codes "." ++ written_name table)

unfoldable names_list : List Text → Text
unfolding written_name
names_list [] = []
names_list (name ∷ []) = written_name name
names_list (name ∷ other_name ∷ names) =
    written_name name ++ (codes ", " ++ names_list (other_name ∷ names))

abbrev default_part : Option Text → Text
default_part none = []
default_part (some value) = codes " DEFAULT " ++ value

-- What stands behind the table's name, by the manual of ALTER TABLE.
unfoldable pub documented_action : AlterAction → Text
unfolding names_list
documented_action (drop_constraint name) = codes "DROP CONSTRAINT " ++ written_name name
documented_action (add_column name data_type true default) =
    codes "ADD COLUMN " ++ (written_name name ++ (codes " " ++ (data_type ++ default_part default)))
documented_action (add_column name data_type false default) =
    codes "ADD COLUMN "
    ++ (written_name name
        ++ (codes " " ++ (data_type ++ (codes " NOT NULL" ++ default_part default))))
documented_action (drop_column name) = codes "DROP COLUMN " ++ written_name name
documented_action (rename_column old new) =
    codes "RENAME COLUMN " ++ (written_name old ++ (codes " TO " ++ written_name new))
documented_action (set_type name data_type) =
    codes "ALTER COLUMN "
    ++ (written_name name
        ++ (codes " TYPE "
            ++ (data_type
                ++ (codes " USING " ++ (written_name name ++ (codes "::" ++ data_type))))))
documented_action (set_nullable name true) =
    codes "ALTER COLUMN " ++ (written_name name ++ codes " DROP NOT NULL")
documented_action (set_nullable name false) =
    codes "ALTER COLUMN " ++ (written_name name ++ codes " SET NOT NULL")
documented_action (set_default name []) =
    codes "ALTER COLUMN " ++ (written_name name ++ codes " DROP DEFAULT")
documented_action (set_default name (c ∷ value)) =
    codes "ALTER COLUMN " ++ (written_name name ++ (codes " SET DEFAULT " ++ (c ∷ value)))
documented_action (add_primary_key names) =
    codes "ADD PRIMARY KEY (" ++ (names_list names ++ codes ")")
documented_action (rename_table name) = codes "RENAME TO " ++ written_name name

unfoldable pub documented : Text → AlterAction → Text
unfolding documented_action
documented target action =
    codes "ALTER TABLE " ++ (target ++ (codes " " ++ documented_action action))

doubled-double_quotes : (s : Text) → double_quotes s ≡ doubled s
unfolding double_quotes doubled
doubled-double_quotes [] = refl
doubled-double_quotes (c ∷ s) = elim (Bool-cases (c == b'"')) [
  | inl quote ↦ rw (quote, doubled) (ap (λ rest. b'"' ∷ b'"' ∷ rest) (doubled-double_quotes s))
  | inr plain ↦ rw (plain, doubled) (ap (λ rest. c ∷ rest) (doubled-double_quotes s))
]

quote_name-written_name : (name : Text) → quote_name name ≡ written_name name
unfolding quote_name written_name
quote_name-written_name name = ap (λ s. b'"' ∷ (s ++ b'"' ∷ [])) (doubled-double_quotes name)

join-names_list : (names : List Text) → join (codes ", ") (map quote_name names) ≡ names_list names
unfolding join names_list
join-names_list [] = refl
join-names_list (name ∷ []) = quote_name-written_name name
join-names_list (name ∷ other_name ∷ names) =
    rw (quote_name-written_name name) (
      ap (λ rest. written_name name ++ (codes ", " ++ rest)) (join-names_list (other_name ∷ names)))

clause-documented : (action : AlterAction) → clause action ≡ documented_action action
unfolding clause documented_action
clause-documented (drop_constraint name) = rw (quote_name-written_name name) refl
clause-documented (add_column name data_type true none) = rw (quote_name-written_name name) refl
clause-documented (add_column name data_type true (some value)) =
    rw (quote_name-written_name name) (rw (append-nil value) refl)
clause-documented (add_column name data_type false none) = rw (quote_name-written_name name) refl
clause-documented (add_column name data_type false (some value)) =
    rw (quote_name-written_name name) (rw (append-nil value) refl)
clause-documented (drop_column name) = rw (quote_name-written_name name) refl
clause-documented (rename_column old new) =
    rw (quote_name-written_name old)
      (rw (quote_name-written_name new) (rw (append-nil (written_name new)) refl))
clause-documented (set_type name data_type) =
    rw (quote_name-written_name name) (rw (append-nil data_type) refl)
clause-documented (set_nullable name true) = rw (quote_name-written_name name) refl
clause-documented (set_nullable name false) = rw (quote_name-written_name name) refl
clause-documented (set_default name []) = rw (quote_name-written_name name) refl
clause-documented (set_default name (c ∷ value)) =
    rw (quote_name-written_name name) (rw (append-nil value) refl)
clause-documented (add_primary_key names) = rw (join-names_list names) refl
clause-documented (rename_table name) = rw (quote_name-written_name name) refl

-- The statement that the program prints is the documented one.
statement-documented :
    (schema table : Text) (action : AlterAction)
    → statement schema table action ≡ documented (target_name schema table) action
unfolding statement documented target_name qualified_name
statement-documented schema table action = rw (clause-documented action) (
    rw (append-nil (documented_action action))
      (rw (quote_name-written_name schema) (rw (quote_name-written_name table) refl)))

pub statements-documented :
    (schema table : Text) (actions : List AlterAction)
    → map (statement schema table) actions ≡ map (documented (target_name schema table)) actions
statements-documented schema table [] = refl
statements-documented schema table (action ∷ actions) =
    rw (statement-documented schema table action) (
      ap (λ rest. documented (target_name schema table) action ∷ rest)
        (statements-documented schema table actions))
