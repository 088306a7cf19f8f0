-- ===== src/Manager/Access.antt =====
-- How the application takes a driver from the manager: `connected_driver`, `writable_driver` and
-- `connected_context` of draco-app/src/lib.rs.
pub mod Guarded
use draco.Base.{Result, ok, ◌>>=◌, ◌>>◌, ok_or, reject_if, Bool, true, false}
use draco.Text.{Text}
use draco.Text.Assoc.{get}
use draco.Connection.{DbConnection}
use draco.Error.{
  ApplicationError, connection_not_found, connection_not_active, read_only_connection,
}
use draco.Driver.{PostgresDriver}
use draco.Manager.{
  ConnectionStatus, disconnected, connecting, connected, failed, ManagedConnection,
  ConnectionManager, get_driver_handle,
}

-- `managed.status != ConnectionStatus::Connected`
not_connected_status : ConnectionStatus → Bool
not_connected_status connected = false
not_connected_status disconnected = true
not_connected_status connecting = true
not_connected_status failed = true

-- The part that the three functions share: the driver and the entry that it was found in.
active : Text → ConnectionManager → Result ApplicationError (PostgresDriver × ManagedConnection)
unfolding not_connected_status
active id manager = do
  managed ← ok_or (get id manager) (connection_not_found id)
  reject_if (not_connected_status managed.status) (connection_not_active id)
  driver ← ok_or (get_driver_handle id manager) (connection_not_active id)
  ok (driver, managed)

unfoldable pub connected_driver :
    Text → ConnectionManager → Result ApplicationError (PostgresDriver × Text)
unfolding active
connected_driver id manager = do
  (driver, managed) ← active id manager
  ok (driver, managed.conn.label)

unfoldable pub connected_context :
    Text → ConnectionManager → Result ApplicationError (PostgresDriver × DbConnection)
unfolding active
connected_context id manager = do (driver, managed) ← active id manager; ok (driver, managed.conn)

unfoldable pub writable_driver :
    Text → ConnectionManager → Result ApplicationError (PostgresDriver × Text)
writable_driver id manager = do
  (driver, label) ← connected_driver id manager
  reject_if driver.read_only (read_only_connection id)
  ok (driver, label)
