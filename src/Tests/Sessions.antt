-- ===== src/Tests/Sessions.antt =====
-- A manager with one connection, connected over a network that always answers.
use draco.Base.{is_some, err, ok, ◌≤◌, ◌≡◌, refl, ◌↔◌, true, false, none, some, [], ◌∷◌}
use draco.Text.{codes, text_eq, is_whitespace, trim}
use draco.Text.Assoc.{get, remove, insert, retain_keys}
use draco.Connection.{
  DbConnection, default_connection, DbConnectionDraft, validate_connection, ConnectionInput,
  into_core, validate_input,
}
use draco.Connection.Validated.{IsComplete, validate_connection_iff, port-into_core}
use draco.Error.{not_connected}
use draco.Driver.{Network, PostgresDriver, open_driver}
use draco.Manager.{
  connected, ManagedConnection, ConnectionManager, new_manager, refreshed, sync_one, has_id,
  sync_connections, settled, connect,
}
use draco.Manager.Consistent.{
  AllConsistent, Reach, here, Reach-AllConsistent, new_manager-AllConsistent,
}
use draco.Manager.Consistent.{here, syncs, connects}
use draco.Manager.Access.{connected_driver, writable_driver}
use draco.Manager.Access.Guarded.{IsFrom, writable_driver_safe, connected_driver_total}
use draco.Manager.Sync.{is_some-sync_connections, IsMerged, get-sync_connections}

abbrev a_connection : DbConnection
a_connection = record default_connection { id = codes "a"; label = codes "A" }

abbrev a_network : Network
a_network = record { open_tunnel = λ _ _ _. err not_connected; open_pool = λ _. ok 7 }

abbrev a_driver : PostgresDriver
a_driver = record {
  pool = 7;
  app_name = codes "draco-a";
  tunnel = none;
  external_host = codes "localhost";
  external_port = 5432;
  read_only = false;
}

abbrev an_entry : ManagedConnection
an_entry = record { conn = a_connection; status = connected; driver = some a_driver; error = none }

abbrev known : ConnectionManager
known = sync_connections (a_connection ∷ []) new_manager

abbrev up : ConnectionManager
up = (connect a_network (codes "a") [] 0 none none known).1

up-Reach : Reach new_manager up
up-Reach = connects a_network (codes "a") [] 0 none none (syncs (a_connection ∷ []) here)

get-up : get (codes "a") up ≡ some an_entry
unfolding connect sync_connections sync_one refreshed has_id get insert remove retain_keys text_eq
    settled open_driver
get-up = refl

writable_driver-up : writable_driver (codes "a") up ≡ ok (a_driver, codes "A")
unfolding writable_driver connected_driver connect sync_connections sync_one refreshed has_id get
    insert remove retain_keys text_eq settled open_driver
writable_driver-up = refl

Reach-AllConsistent_example : AllConsistent up
Reach-AllConsistent_example = Reach-AllConsistent new_manager-AllConsistent up-Reach

writable_driver_safe_example :
    (from : IsFrom (codes "a") up a_driver) × (a_driver.read_only ≡ false)
    × (from.entry.conn.read_only ≡ false)
writable_driver_safe_example =
    writable_driver_safe up (codes "a") a_driver (codes "A") up-Reach writable_driver-up

connected_driver_total_example :
    (d : PostgresDriver) × (connected_driver (codes "a") up ≡ ok (d, codes "A"))
connected_driver_total_example = connected_driver_total up (codes "a") an_entry up-Reach get-up refl

is_some-sync_connections_example :
    is_some (get (codes "b") (sync_connections (a_connection ∷ []) up))
    ≡ has_id (a_connection ∷ []) (codes "b")
is_some-sync_connections_example = is_some-sync_connections (a_connection ∷ []) up (codes "b")

abbrev another_connection : DbConnection
another_connection = record a_connection { id = codes "b"; read_only = true }

has_id-another : has_id (another_connection ∷ []) (codes "a") ≡ false
unfolding has_id text_eq
has_id-another = refl

has_id-none : has_id [] (codes "a") ≡ false
unfolding has_id
has_id-none = refl

get-sync_connections_example :
    (entry : ManagedConnection) × (get
        (codes "a")
        (sync_connections (another_connection ∷ a_connection ∷ []) up)
      ≡ some entry)
    × IsMerged (get (codes "a") up) a_connection entry
get-sync_connections_example =
    get-sync_connections (another_connection ∷ []) [] a_connection up has_id-another has_id-none

abbrev a_draft : DbConnectionDraft
a_draft = record {
  label = codes "A";
  host = codes "localhost";
  port = 5432;
  database = codes "db";
  user = codes "u";
  ssl = false;
}

validate_connection_iff_example : (validate_connection a_draft ≡ []) ↔ IsComplete a_draft
validate_connection_iff_example = validate_connection_iff a_draft

abbrev an_input : ConnectionInput
an_input = record {
  id = none;
  label = codes "A";
  host = codes "localhost";
  port = 5432;
  database = codes "db";
  user = codes "u";
  ssl = false;
  ssh_enabled = false;
  ssh_host = none;
  ssh_port = none;
  ssh_user = none;
  ssh_key_path = none;
  ssh_jump_host = none;
  ssh_jump_port = none;
  ssh_jump_user = none;
  ssh_jump_key_path = none;
  favorite = false;
  environment = none;
  read_only = false;
}

validate_input-an_input : validate_input an_input ≡ ok tt
unfolding validate_input trim is_whitespace
validate_input-an_input = refl

port-into_core_example :
    ((into_core an_input).port ≡ 5432)
    × (1 ≤ (into_core an_input).port)
    × ((into_core an_input).port ≤ 65535)
port-into_core_example = port-into_core an_input validate_input-an_input
