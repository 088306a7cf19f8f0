-- ===== src/Driver/Sessions.antt =====
-- What holds of every driver that was opened.
use draco.Base.{ok, ℕ, ◌≡◌, Option, arith}
use draco.Text.{Text}
use draco.Connection.{DbConnection}
use draco.Driver.{Network, PostgresDriver, open_driver}

module _ (net : Network) (conn : DbConnection) (password : Text) (timeout : ℕ) (app_name : Text)
    (ssh jump : Option Text) {d : PostgresDriver}
    (opened : open_driver net conn password timeout app_name ssh jump ≡ ok d) where
  -- The flag of a driver is the flag of the connection it was opened for.
  pub read_only-open_driver : d.read_only ≡ conn.read_only
  unfolding open_driver
  read_only-open_driver = ground arith
