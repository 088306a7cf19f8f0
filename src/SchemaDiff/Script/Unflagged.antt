-- ===== src/SchemaDiff/Script/Unflagged.antt =====
-- What the changes to a table do where they are not flagged as destructive.
use draco.Text.{Text}
