-- ===== src/Store.antt =====
-- draco-core/src/store.rs: the files of the configuration directory, and the operations on the
-- connections, the query history and the snippets. The file system and the `toml` library are
-- parameters; a new identifier and the time are arguments of the operations that ask for them.
pub mod Written
pub mod Settings
pub mod Usage
pub mod Refined
use draco.Base.{
  if◌then◌else◌, unwrap_or, take, is_empty, retain, find, Result, err, ok, ℕ, ◌≡◌, Bool, not,
  Option, none, some, List, [], ◌∷◌,
}
use draco.Text.{Text, codes, text_eq}
use draco.Error.{CoreError, external}
use draco.Connection.{DbConnection}

-- What `fs::read_to_string` gives for each file of the directory.
abbrev pub Disk : Type 0
Disk = Text → Option Text

abbrev pub written : Text → Text → Disk → Disk
written path raw disk j = if text_eq path j then some raw else disk j

-- A state with a result that may be an error.
abbrev pub Outcome : Type 0 → Type 0
Outcome A = Disk × Result CoreError A

-- `fs::write`. Of a write that fails nothing is known.
pub record FileSystem : Type 0 where
  pub write : Text → Text → Disk → Outcome (Unit {0})
  pub write_ok :
      (path raw : Text) (disk disk' : Disk)
      → write path raw disk ≡ (disk', ok tt)
      → disk' ≡ written path raw disk

-- `toml::to_string_pretty` and `toml::from_str` on one type, with the type's `Default`.
pub record Codec (A : Type 0) : Type 0 where
  pub default : A
  pub to_toml : A → Option Text
  pub from_toml : Text → Option A
  pub from_to : (a : A) (raw : Text) → to_toml a ≡ some raw → from_toml raw ≡ some a

-- A file that is not there, or that does not parse, gives the default.
unfoldable pub decoded : {A : Type 0} → Codec A → Option Text → A
decoded codec (some raw) = unwrap_or (codec.from_toml raw) codec.default
decoded codec none = codec.default

unfoldable pub read_toml : {A : Type 0} → Codec A → Text → Disk → A
unfolding decoded
read_toml codec file disk = decoded codec (disk file)

unfoldable pub write_toml :
    {A : Type 0} → FileSystem → Codec A → Text → A → Disk → Outcome (Unit {0})
write_toml fs codec file a disk = elim (codec.to_toml a) [
  | some raw ↦ fs.write file raw disk
  | none ↦ (disk, err (external (codes "toml")))
]

-- `write_toml(...)?; Ok(value)`
unfoldable pub returning : {A : Type 0} → A → Outcome (Unit {0}) → Outcome A
returning value (disk, err e) = (disk, err e)
returning value (disk, ok _) = (disk, ok value)

abbrev pub connections_file : Text
connections_file = codes "connections.toml"

abbrev pub history_file : Text
history_file = codes "history.toml"

abbrev pub snippets_file : Text
snippets_file = codes "snippets.toml"

-- Times and counts that the source keeps as i64 are numbers that are not negative.
pub record HistoryEntry : Type 0 where
  pub id : Text
  pub sql : Text
  pub conn_id : Text
  pub conn_label : Text
  pub timestamp : ℕ
  pub duration_ms : ℕ
  pub row_count : ℕ

pub record Snippet : Type 0 where
  pub id : Text
  pub name : Text
  pub sql : Text
  pub created_at : ℕ
  pub conn_id : Option Text
  pub conn_label : Option Text

abbrev pub max_history : ℕ
max_history = 50

-- `conn.id = Uuid::new_v4()` for a connection that has none.
unfoldable pub identified : Text → DbConnection → DbConnection
identified fresh conn = if is_empty conn.id then record conn { id = fresh } else conn

abbrev pub has_conn_id : Text → DbConnection → Bool
has_conn_id id conn = text_eq conn.id id

-- The first connection with the identifier is replaced, or the new one stands at the end.
unfoldable pub replace_or_push : DbConnection → List DbConnection → List DbConnection
replace_or_push conn [] = conn ∷ []
replace_or_push conn (existing ∷ rest) =
    let others = replace_or_push conn rest in
    if has_conn_id conn.id existing then conn ∷ rest else existing ∷ others

-- The first snippet with the identifier has the new name.
unfoldable pub rename_first : Text → Text → List Snippet → List Snippet
rename_first id name [] = []
rename_first id name (s ∷ rest) =
    let others = rename_first id name rest in
    if text_eq s.id id then record s { name = name } ∷ rest else s ∷ others

module _ (codec : Codec (List DbConnection)) where
  unfoldable pub list_connections : Disk → List DbConnection
  list_connections disk = read_toml codec connections_file disk

  unfoldable pub get_connection : Text → Disk → Option DbConnection
  unfolding list_connections
  get_connection id disk = find (has_conn_id id) (list_connections disk)

module _ (fs : FileSystem) (codec : Codec (List DbConnection)) where
  unfoldable pub save_connection : Text → DbConnection → Disk → Outcome DbConnection
  unfolding list_connections replace_or_push identified
  save_connection fresh conn disk =
      let conn' = identified fresh conn in
      let file = replace_or_push conn' (list_connections codec disk) in
      returning conn' (write_toml fs codec connections_file file disk)

  unfoldable pub delete_connection : Text → Disk → Outcome (Unit {0})
  unfolding list_connections
  delete_connection id disk =
      let file = retain (λ c. not (has_conn_id id c)) (list_connections codec disk) in
      write_toml fs codec connections_file file disk

unfoldable pub list_history : Codec (List HistoryEntry) → Disk → List HistoryEntry
list_history codec disk = read_toml codec history_file disk

module _ (fs : FileSystem) (codec : Codec (List HistoryEntry)) where
  unfoldable pub add_history : Text → HistoryEntry → Disk → Outcome (Unit {0})
  unfolding list_history
  add_history fresh entry disk =
      let file = take max_history (record entry { id = fresh } ∷ list_history codec disk) in
      write_toml fs codec history_file file disk

  unfoldable pub delete_history_entry : Text → Disk → Outcome (Unit {0})
  unfolding list_history
  delete_history_entry id disk =
      let file = retain (λ (e : HistoryEntry). not (text_eq e.id id)) (list_history codec disk) in
      write_toml fs codec history_file file disk

  unfoldable pub clear_history : Disk → Outcome (Unit {0})
  clear_history disk = write_toml fs codec history_file [] disk

unfoldable pub list_snippets : Codec (List Snippet) → Disk → List Snippet
list_snippets codec disk = read_toml codec snippets_file disk

module _ (fs : FileSystem) (codec : Codec (List Snippet)) where
  unfoldable pub save_snippet : Text → ℕ → Snippet → Disk → Outcome Snippet
  unfolding list_snippets
  save_snippet fresh now snippet disk =
      let snippet' = record snippet { id = fresh; created_at = now } in
      returning snippet'
        (write_toml fs codec snippets_file (snippet' ∷ list_snippets codec disk) disk)

  unfoldable pub delete_snippet : Text → Disk → Outcome (Unit {0})
  unfolding list_snippets
  delete_snippet id disk =
      let file = retain (λ (s : Snippet). not (text_eq s.id id)) (list_snippets codec disk) in
      write_toml fs codec snippets_file file disk

  unfoldable pub rename_snippet : Text → Text → Disk → Outcome (Unit {0})
  unfolding list_snippets rename_first
  rename_snippet id name disk =
      let file = rename_first id name (list_snippets codec disk) in
      write_toml fs codec snippets_file file disk
