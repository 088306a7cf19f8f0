-- ===== src/Manager/Access/Guarded.antt =====
-- What the guards give on a manager that the application can reach.
use draco.Base.{Option-cases, ok, ◌≡◌, sym, ◌∙◌, inl, inr, false, some, arith}
use draco.Text.{Text}
use draco.Text.Assoc.{get}
use draco.Driver.{PostgresDriver}
use draco.Manager.{connected, ManagedConnection, ConnectionManager, new_manager}
use draco.Manager.Consistent.{Reach, Reach-AllConsistent, new_manager-AllConsistent}
use draco.Manager.Access.{connected_driver, writable_driver}

-- The entry that a driver comes from.
pub record IsFrom (id : Text) (manager : ConnectionManager) (d : PostgresDriver) : Type 0 where
  pub entry : ManagedConnection
  pub found : get id manager ≡ some entry
  pub is_connected : entry.status ≡ connected
  pub holds : entry.driver ≡ some d

connected_driver-IsFrom :
    (id : Text) (manager : ConnectionManager) (d : PostgresDriver) (label : Text)
    → connected_driver id manager ≡ ok (d, label)
    → IsFrom id manager d
unfolding connected_driver
connected_driver-IsFrom id manager d label h = elim (Option-cases (get id manager)) [
  | inl absent ↦ ground arith
  | inr (m, found) ↦ record {
    entry = m;
    found = found;
    is_connected = ground arith;
    holds = ground arith;
  }
]

writable_driver-connected :
    (id : Text) (manager : ConnectionManager) (d : PostgresDriver) (label : Text)
    → writable_driver id manager ≡ ok (d, label)
    → (connected_driver id manager ≡ ok (d, label)) × (d.read_only ≡ false)
unfolding writable_driver
writable_driver-connected id manager d label h = ground arith

-- A driver that a write operation is given belongs to a connected entry, and neither that entry's
-- connection nor the driver is read-only. This holds on every manager that calls lead to.
pub writable_driver_safe :
    (manager : ConnectionManager) (id : Text) (d : PostgresDriver) (label : Text)
    → Reach new_manager manager
    → writable_driver id manager ≡ ok (d, label)
    → (from : IsFrom id manager d) × (d.read_only ≡ false) × (from.entry.conn.read_only ≡ false)
writable_driver_safe manager id d label r h =
    let (taken, writes) = writable_driver-connected id manager d label h in
    let from = connected_driver-IsFrom id manager d label taken in
    let all = Reach-AllConsistent new_manager-AllConsistent r in
    (from, writes, sym ((all.at id from.entry from.found).same_setting d from.holds) ∙ writes)

-- On a manager that calls lead to, a connected entry always gives its driver and its label, so the
-- guard never meets a connected entry with no driver.
pub connected_driver_total :
    (manager : ConnectionManager) (id : Text) (m : ManagedConnection)
    → Reach new_manager manager
    → get id manager ≡ some m
    → m.status ≡ connected
    → (d : PostgresDriver) × (connected_driver id manager ≡ ok (d, m.conn.label))
unfolding connected_driver
connected_driver_total manager id m r found up =
    let all = Reach-AllConsistent new_manager-AllConsistent r in
    let (d, held) = (all.at id m found).connected_has_driver up in (d, ground arith)
