-- ===== src/Manager.antt =====
-- draco-core/src/manager.rs: the lifecycle of every registered connection. The manager stands
-- behind one mutex, so its methods run one after the other.
pub mod Access
pub mod Consistent
pub mod Sync
use draco.Base.{
  if◌then◌else◌, Result, ok, err, ℕ, Bool, false, not, ◌||◌, Option, none, some, List, [], ◌∷◌,
  ◌++◌, map,
}
use draco.Text.{Text, codes, text_eq}
use draco.Text.Assoc.{HashMap, get, insert, retain_keys}
use draco.Connection.{DbConnection}
use draco.Error.{CoreError, not_registered}
use draco.Driver.{Network, PostgresDriver, open_driver}

pub data ConnectionStatus : Type 0 where
  disconnected : ConnectionStatus
  connecting : ConnectionStatus
  connected : ConnectionStatus
  failed : ConnectionStatus

-- `error` is the error itself, of which the source keeps the text.
pub record ManagedConnection : Type 0 where
  pub conn : DbConnection
  pub status : ConnectionStatus
  pub driver : Option PostgresDriver
  pub error : Option CoreError

abbrev pub ConnectionManager : Type 0
ConnectionManager = HashMap ManagedConnection

-- `ConnectionManager::new`
abbrev pub new_manager : ConnectionManager
new_manager = []

-- The entry of a connection that is registered now.
abbrev pub registered : DbConnection → ManagedConnection
registered conn = record { conn = conn; status = disconnected; driver = none; error = none }

abbrev pub bool_eq : Bool → Bool → Bool
bool_eq a b = if a then b else not b

-- The entry of a known connection, given its new metadata.
unfoldable pub refreshed : ManagedConnection → DbConnection → ManagedConnection
refreshed managed conn =
    if bool_eq managed.conn.read_only conn.read_only
    then record managed { conn = conn }
    else record { conn = conn; status = disconnected; driver = none; error = none }

abbrev pub merged : Option ManagedConnection → DbConnection → ManagedConnection
merged none conn = registered conn
merged (some managed) conn = refreshed managed conn

-- One round of the loop of `sync_connections`.
unfoldable pub sync_one : ConnectionManager → DbConnection → ConnectionManager
sync_one map conn = insert conn.id (merged (get conn.id map) conn) map

unfoldable pub sync_all : ConnectionManager → List DbConnection → ConnectionManager
sync_all map [] = map
sync_all map (conn ∷ rest) = sync_all (sync_one map conn) rest

-- The set of the ids in a list.
unfoldable pub has_id : List DbConnection → Text → Bool
has_id [] id = false
has_id (c ∷ cs) id = text_eq c.id id || has_id cs id

unfoldable pub sync_connections : List DbConnection → ConnectionManager → ConnectionManager
unfolding sync_all
sync_connections connections map = sync_all (retain_keys (has_id connections) map) connections

abbrev pub get_driver : Text → ConnectionManager → Option PostgresDriver
get_driver id map = elim (get id map) [ none ↦ none | some m ↦ m.driver ]

-- `get_driver_handle`: a clone of the handle.
abbrev pub get_driver_handle : Text → ConnectionManager → Option PostgresDriver
get_driver_handle id map = get_driver id map

-- The entry while `PostgresDriver::connect` runs.
abbrev pub begun : ManagedConnection → ManagedConnection
begun managed = record managed { status = connecting }

-- What the outcome of `PostgresDriver::connect` leaves in the entry.
unfoldable pub settled : ManagedConnection → Result CoreError PostgresDriver → ManagedConnection
settled managed (ok d) = record managed { driver = some d; status = connected; error = none }
settled managed (err e) = record managed { status = failed; error = some e }

reply_of : Result CoreError PostgresDriver → Result CoreError (Unit {0})
reply_of (ok d) = ok tt
reply_of (err e) = err e

unfoldable pub connect :
    Network
    → Text
    → Text
    → ℕ
    → Option Text
    → Option Text
    → ConnectionManager
    → Result CoreError (Unit {0}) × ConnectionManager
unfolding settled reply_of
connect net id password statement_timeout_ms ssh_password jump_password map = elim (get id map) [
  | none ↦ (err not_registered, map)
  | some managed ↦
      let waiting = insert id (begun managed) map in
      let app_name = codes "draco-" ++ id in
      let outcome =
        open_driver net managed.conn password statement_timeout_ms app_name ssh_password
          jump_password in
      (reply_of outcome, insert id (settled (begun managed) outcome) waiting)
]

-- The caller went away while `connect` waited for the network: its first write stands.
unfoldable pub abandon_connect : Text → ConnectionManager → ConnectionManager
abandon_connect id map = elim (get id map) [
  | none ↦ map
  | some managed ↦ insert id (begun managed) map
]

-- The pool that `driver.disconnect()` closes is given back beside the new map.
unfoldable pub disconnect : Text → ConnectionManager → Option PostgresDriver × ConnectionManager
disconnect id map = elim (get id map) [
  | none ↦ (none, map)
  | some managed ↦ (
    managed.driver,
    insert id (record managed { driver = none; status = disconnected; error = none }) map,
  )
]
