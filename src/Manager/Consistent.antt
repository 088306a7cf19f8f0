-- ===== src/Manager/Consistent.antt =====
-- The invariant of the entries: a connected entry has a driver, a disconnected one has none, and a
-- driver that is held has the read-only setting of the entry's own connection.
use draco.Base.{
  Bool-cases, Option-cases, all, Result, ok, err, ℕ, ◌≡◌, refl, inl, inr, Bool, Option, none, some,
  List, [], ◌∷◌, map, arith,
}
use draco.Text.{Text, text_eq, text_eq_iff}
use draco.Text.Assoc.{get, insert, retain_keys, get-insert, get-retain_keys}
use draco.Connection.{DbConnection}
use draco.Error.{CoreError}
use draco.Driver.{Network, PostgresDriver}
use draco.Driver.Sessions.{read_only-open_driver}
use draco.Manager.{
  disconnected, connected, ManagedConnection, ConnectionManager, new_manager, registered, refreshed,
  merged, sync_one, sync_all, has_id, sync_connections, begun, settled, connect, abandon_connect,
  disconnect,
}

pub record IsConsistent (id : Text) (m : ManagedConnection) : Type 0 where
  pub own_id : m.conn.id ≡ id
  pub connected_has_driver : m.status ≡ connected → (d : PostgresDriver) × (m.driver ≡ some d)
  pub disconnected_has_none : m.status ≡ disconnected → m.driver ≡ none
  pub same_setting : (d : PostgresDriver) → m.driver ≡ some d → d.read_only ≡ m.conn.read_only

pub record AllConsistent (map : ConnectionManager) : Type 0 where
  pub at : (id : Text) (m : ManagedConnection) → get id map ≡ some m → IsConsistent id m

-- Any sequence of calls on the manager, whatever the network answers.
pub data Reach (map : ConnectionManager) : ConnectionManager → Type 0 where
  here : Reach map map
  syncs :
      {m : ConnectionManager} (connections : List DbConnection)
      → Reach map m
      → Reach map (sync_connections connections m)
  connects :
      {m : ConnectionManager} (net : Network) (id password : Text) (timeout : ℕ)
      (ssh jump : Option Text)
      → Reach map m
      → Reach map (connect net id password timeout ssh jump m).1
  abandons : {m : ConnectionManager} (id : Text) → Reach map m → Reach map (abandon_connect id m)
  disconnects : {m : ConnectionManager} (id : Text) → Reach map m → Reach map (disconnect id m).1

insert-AllConsistent :
    {map : ConnectionManager} (id : Text) (m : ManagedConnection)
    → IsConsistent id m
    → AllConsistent map
    → AllConsistent (insert id m map)
insert-AllConsistent {map} id m c all = record {
  at = λ j n found. elim (Bool-cases (text_eq id j)) [
    | inl same ↦
        let e : m ≡ n = cc (same, get-insert id j m map, found) in
        rw (← e) (rw (← (text_eq_iff id j).0 same) c)
    | inr differs ↦ all.at j n (cc (differs, get-insert id j m map, found))
  ];
}

registered-IsConsistent : (conn : DbConnection) → IsConsistent conn.id (registered conn)
registered-IsConsistent conn = record {
  own_id = refl;
  connected_has_driver = λ e. cc;
  disconnected_has_none = λ e. refl;
  same_setting = λ d e. cc;
}

refreshed-IsConsistent :
    (m : ManagedConnection) (conn : DbConnection)
    → IsConsistent conn.id m
    → IsConsistent conn.id (refreshed m conn)
unfolding refreshed
refreshed-IsConsistent m conn c = record {
  own_id = ground arith;
  connected_has_driver = λ e. ground (arith, c.connected_has_driver);
  disconnected_has_none = λ e. ground (arith, c.disconnected_has_none);
  same_setting = λ d e. ground (arith, c.same_setting d);
}

-- The entry that the loop of `sync_connections` writes.
merged-IsConsistent :
    (map : ConnectionManager) (conn : DbConnection)
    → AllConsistent map
    → IsConsistent conn.id (merged (get conn.id map) conn)
merged-IsConsistent map conn all = elim (Option-cases (get conn.id map)) [
  | inl absent ↦ rw absent (registered-IsConsistent conn)
  | inr (m, found) ↦ rw found (refreshed-IsConsistent m conn (all.at conn.id m found))
]

sync_all-AllConsistent :
    (connections : List DbConnection) (map : ConnectionManager)
    → AllConsistent map
    → AllConsistent (sync_all map connections)
unfolding sync_all sync_one
sync_all-AllConsistent [] map all = all
sync_all-AllConsistent (conn ∷ rest) map all =
    sync_all-AllConsistent rest _
      (insert-AllConsistent conn.id _ (merged-IsConsistent map conn all) all)

retain_keys-AllConsistent :
    (p : Text → Bool) (map : ConnectionManager)
    → AllConsistent map
    → AllConsistent (retain_keys p map)
retain_keys-AllConsistent p map all = record {
  at = λ id m found. all.at id m (ground (arith, get-retain_keys p id map));
}

sync_connections-AllConsistent :
    (connections : List DbConnection) (map : ConnectionManager)
    → AllConsistent map
    → AllConsistent (sync_connections connections map)
unfolding sync_connections
sync_connections-AllConsistent connections map all =
    sync_all-AllConsistent connections _ (retain_keys-AllConsistent (has_id connections) map all)

begun-IsConsistent :
    {id : Text} (m : ManagedConnection) → IsConsistent id m → IsConsistent id (begun m)
begun-IsConsistent m c = record {
  own_id = c.own_id;
  connected_has_driver = λ e. cc;
  disconnected_has_none = λ e. cc;
  same_setting = c.same_setting;
}

settled-IsConsistent :
    {id : Text} (m : ManagedConnection) (outcome : Result CoreError PostgresDriver)
    → ((d : PostgresDriver) → outcome ≡ ok d → d.read_only ≡ m.conn.read_only)
    → IsConsistent id m
    → IsConsistent id (settled m outcome)
unfolding settled
settled-IsConsistent m (ok d) same c = record {
  own_id = c.own_id;
  connected_has_driver = λ e. (d, refl);
  disconnected_has_none = λ e. cc;
  same_setting = λ d' e. ground (arith, same d refl);
}
settled-IsConsistent m (err e) same c = record {
  own_id = c.own_id;
  connected_has_driver = λ e. cc;
  disconnected_has_none = λ e. cc;
  same_setting = c.same_setting;
}

connect-AllConsistent :
    (net : Network) (id password : Text) (timeout : ℕ) (ssh jump : Option Text)
    (map : ConnectionManager)
    → AllConsistent map
    → AllConsistent (connect net id password timeout ssh jump map).1
unfolding connect
connect-AllConsistent net id password timeout ssh jump map all = elim (Option-cases (get id map)) [
  | inl absent ↦ rw (absent, connect) all
  | inr (m, found) ↦
      let waiting = begun-IsConsistent m (all.at id m found) in
      rw (found, connect)
        (insert-AllConsistent id _
          (settled-IsConsistent _ _
            (λ d opened. read_only-open_driver net m.conn password timeout _ ssh jump opened)
            waiting)
          (insert-AllConsistent id _ waiting all))
]

abandon_connect-AllConsistent :
    (id : Text) (map : ConnectionManager)
    → AllConsistent map
    → AllConsistent (abandon_connect id map)
unfolding abandon_connect
abandon_connect-AllConsistent id map all = elim (Option-cases (get id map)) [
  | inl absent ↦ rw (absent, abandon_connect) all
  | inr (m, found) ↦
      rw (found, abandon_connect)
        (insert-AllConsistent id _ (begun-IsConsistent m (all.at id m found)) all)
]

disconnect-AllConsistent :
    (id : Text) (map : ConnectionManager) → AllConsistent map → AllConsistent (disconnect id map).1
unfolding disconnect
disconnect-AllConsistent id map all = elim (Option-cases (get id map)) [
  | inl absent ↦ rw (absent, disconnect) all
  | inr (m, found) ↦
      rw (found, disconnect)
        (insert-AllConsistent id _
          (record {
            own_id = (all.at id m found).own_id;
            connected_has_driver = λ e. cc;
            disconnected_has_none = λ e. refl;
            same_setting = λ d e. cc;
          })
          all)
]

-- Whatever calls were made on the manager and whatever the network answered, every entry is
-- consistent: connected entries have a driver, disconnected ones have none, and a held driver has
-- the read-only setting of its entry.
pub Reach-AllConsistent :
    {from to : ConnectionManager} → AllConsistent from → Reach from to → AllConsistent to
Reach-AllConsistent all here = all
Reach-AllConsistent all (syncs {m} connections r) =
    sync_connections-AllConsistent connections m (Reach-AllConsistent all r)
Reach-AllConsistent all (connects {m} net id password timeout ssh jump r) =
    connect-AllConsistent net id password timeout ssh jump m (Reach-AllConsistent all r)
Reach-AllConsistent all (abandons {m} id r) =
    abandon_connect-AllConsistent id m (Reach-AllConsistent all r)
Reach-AllConsistent all (disconnects {m} id r) =
    disconnect-AllConsistent id m (Reach-AllConsistent all r)

-- An empty manager, as the application starts with.
pub new_manager-AllConsistent : AllConsistent new_manager
unfolding get
new_manager-AllConsistent = record { at = λ id m found. cc }
