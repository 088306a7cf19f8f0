-- ===== src/TableEditor/Maintenance.antt =====
-- draco-core/src/postgres/queries/alter_table.rs: the statements of `run_vacuum` and
-- `reindex_table`.
use draco.Base.{Result, ok, ◌>>◌, reject_if, not, List, [], ◌∷◌, ◌++◌}
use draco.Text.{Text, codes}
use draco.Error.{CoreError, other}
use draco.Import.{member}
use draco.TableEditor.{qualified_name}

abbrev allowed_vacuum_ops : List Text
allowed_vacuum_ops =
    codes "VACUUM" ∷ codes "ANALYZE" ∷ codes "VACUUM ANALYZE" ∷ codes "VACUUM FULL" ∷ []

unfoldable pub vacuum_statement : Text → Text → Text → Result CoreError Text
vacuum_statement schema table op = do
  reject_if (not (member op allowed_vacuum_ops)) (other (codes "unsupported operation: " ++ op))
  ok (op ++ (b' ' ∷ qualified_name schema table))

unfoldable pub reindex_statement : Text → Text → Text
reindex_statement schema table = codes "REINDEX TABLE " ++ qualified_name schema table
