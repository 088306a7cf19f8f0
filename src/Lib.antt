-- ===== src/Lib.antt =====
-- Draco is a desktop client for PostgreSQL. `draco-core` holds the parts with no interface: stored
-- connections, live sessions, importers and the comparison of schemas. `draco-app` is the service
-- that the interface calls; it keeps the running operations and the files that the user picked,
-- and guards every call. This library models the logic of both.
--
--   Base                 names passed on, and helpers on lists, tests and results
--   Text                 `str` as a list of scalar values, with Text/Assoc for `HashMap`,
--                        Text/Sorted for `BTreeMap` and Text/Decimal for `to_string`
--                        and Text/Utf8 for `String::from_utf8`
--   Error                draco-core/src/error.rs and the errors of draco-app/src/lib.rs
--   Connection           draco-core/src/connection.rs, and the form of a connection with its
--                        check in draco-app/src/lib.rs
--   Driver               opening a session: draco-core/src/postgres/pool.rs
--   Manager              draco-core/src/manager.rs, and in Manager/Access the guards
--                        `connected_driver`, `connected_context` and `writable_driver` of
--                        draco-app/src/lib.rs, through which each call gets its session
--   Operations           the cancellable operations of draco-app/src/lib.rs
--   Files                the file authorizations of draco-app/src/lib.rs
--   ReadOnly             `reenables_writes` of draco-app/src/lib.rs
--   RowEdit              the checks of an edited row in draco-app/src/lib.rs
--   Ddl                  the checks of definitions that are edited as text in draco-app/src/lib.rs,
--                        and in Ddl/Names those of other inputs
--   Updates              `is_newer_version` of draco-app/src/lib.rs
--   Assistant            `is_read_only_select` of draco-core/src/assistant.rs
--   Github               the settings and paths of draco-core/src/github.rs
--   Notifications        `format_duration` of draco-app/src/notifications.rs
--   Import               draco-core/src/table_import.rs: Import/Csv is `parse_csv`, Import/Json
--                        `parse_json`, Import/Copy `push_copy_text_row`;
--                        Import/Mapping is draco-app/src/table_import.rs
--   SchemaDiff           draco-core/src/schema_diff.rs: quoting in Ident, texts in Render, tables
--                        in Tables and Alter, the objects in Objects, the whole in Script
--   TableEditor          draco-core/src/postgres/queries/alter_table.rs: the checks of the form and
--                        the statement for a new table, in Alter the statements that change one,
--                        with `build_alter_table_preview` of draco-app/src/lib.rs; Server is what
--                        the actions do to a table, Printed how PostgreSQL writes them
--   Store                draco-core/src/store.rs: connections, history and snippets, the settings
--                        and conversations in Settings, the daily counter in Usage; Refined is
--                        the abstract store
--   ConnectionImport     draco-core/src/connection_import.rs: the password file, the URL in Url and
--                        the service file in Services; Encoded, Separated and Printed write a URL
--   PendingImport        draco-app/src/connection_import.rs: the kept preview, and the import
--   Tests                the theorems at concrete inputs
--
-- The state of a component is passed on explicitly: the manager is the map behind its mutex, the
-- registry of operations is the map with the values of its channels, the authorizations are a
-- map with the second at which each was given, and the store is the text of each of its files.
-- `Reach` and `Steps` are the sequences of calls.
-- A loop of the source is a recursion over the list or the text that it reads; two of them run on
-- fuel: `decimal` has a round for each digit, and `n + 1` rounds are given for `n`; `requalify`
-- uses up at least a qualifier in each round, and a round is given for each character.
--
-- Parameters: the network (the tunnel and the pool, whose outcome is any result), the file system
-- and the `toml` library (a written text is read back, a value is decoded from its text), the
-- clock, new identifiers, JSON values and their parser, the Unicode tables of `is_alphanumeric` and
-- `to_lowercase`, the connection test and the saving of an imported connection, and the server of
-- the table editor, whose laws are the documented effect on the columns of each documented ALTER
-- TABLE statement that it reads as one. Not modelled: calls of the store or of the import from several threads at once, the
-- wording of messages, other SQL run on a server, HTTP, the keyring, the tools for backups, the
-- rest of the assistant, and the interface.
mod Base
pub mod Text
pub mod Connection
pub mod Error
pub mod Driver
pub mod Manager
pub mod Operations
pub mod Files
pub mod ReadOnly
pub mod RowEdit
pub mod Import
pub mod SchemaDiff
pub mod ConnectionImport
mod Tests
pub mod Store
pub mod TableEditor
pub mod Ddl
pub mod PendingImport
pub mod Updates
pub mod Assistant
pub mod Github
pub mod Notifications
