-- ===== src/Driver.antt =====
-- `PostgresDriver` of draco-core/src/postgres/pool.rs: what a live session is opened with. The
-- network (SSH tunnels and the connection pool) is a parameter.
pub mod Sessions
use draco.Base.{if◌then◌else◌, Result, ok, ◌>>=◌, ◌>>◌, ℕ, String, Bool, Option, none, some, ◌++◌}
use draco.Text.{Text, codes}
use draco.Text.Decimal.{decimal}
use draco.Connection.{DbConnection}
use draco.Error.{CoreError}

pub data RecyclingMethod : Type 0 where
  custom : String → RecyclingMethod
  fast : RecyclingMethod

-- What the pool is built from.
pub record PoolConfig : Type 0 where
  pub host : Text
  pub port : ℕ
  pub dbname : Text
  pub user : Text
  pub password : Text
  pub application_name : Text
  pub options : Text
  pub tls : Bool
  pub recycling_method : RecyclingMethod
  pub max_size : ℕ

pub record SshTunnel : Type 0 where
  pub local_port : ℕ

-- The outcome of `SshTunnel::open`, and of building the pool and drawing a first client from it. A
-- pool is known by a number.
pub record Network : Type 0 where
  pub open_tunnel : DbConnection → Option Text → Option Text → Result CoreError SshTunnel
  pub open_pool : PoolConfig → Result CoreError ℕ

pub record PostgresDriver : Type 0 where
  pub pool : ℕ
  pub app_name : Text
  pub tunnel : Option SshTunnel
  pub external_host : Text
  pub external_port : ℕ
  pub read_only : Bool

unfoldable pub session_options : ℕ → Bool → Text
session_options statement_timeout_ms read_only =
    let options = codes "-c statement_timeout=" ++ decimal statement_timeout_ms in
    if read_only then options ++ codes " -c default_transaction_read_only=on" else options

unfoldable pub recycling : Bool → RecyclingMethod
recycling read_only = if read_only then custom "RESET default_transaction_read_only" else fast

open_if_enabled :
    Network → DbConnection → Option Text → Option Text → Result CoreError (Option SshTunnel)
open_if_enabled net conn ssh_password jump_password =
    if conn.ssh_enabled
    then (do t ← net.open_tunnel conn ssh_password jump_password; ok (some t))
    else ok none

-- Where the sessions go: through the tunnel, or straight to the server.
endpoint : DbConnection → Option SshTunnel → Text × ℕ
endpoint conn none = (conn.host, conn.port)
endpoint conn (some t) = (codes "127.0.0.1", t.local_port)

unfoldable pub pool_config : DbConnection → Text → ℕ → Text → Option SshTunnel → PoolConfig
unfolding endpoint
pool_config conn password statement_timeout_ms app_name tunnel = record {
  host = (endpoint conn tunnel).0;
  port = (endpoint conn tunnel).1;
  dbname = conn.database;
  user = conn.user;
  password = password;
  application_name = app_name;
  options = session_options statement_timeout_ms conn.read_only;
  tls = conn.ssl;
  recycling_method = recycling conn.read_only;
  max_size = 5;
}

unfoldable pub open_driver :
    Network
    → DbConnection
    → Text
    → ℕ
    → Text
    → Option Text
    → Option Text
    → Result CoreError PostgresDriver
unfolding open_if_enabled endpoint
open_driver net conn password statement_timeout_ms app_name ssh_password jump_password = do
  tunnel ← open_if_enabled net conn ssh_password jump_password
  pool ← net.open_pool (pool_config conn password statement_timeout_ms app_name tunnel)
  ok (record {
    pool = pool;
    app_name = app_name;
    tunnel = tunnel;
    external_host = (endpoint conn tunnel).0;
    external_port = (endpoint conn tunnel).1;
    read_only = conn.read_only;
  })
