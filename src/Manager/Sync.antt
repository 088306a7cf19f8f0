-- ===== src/Manager/Sync.antt =====
-- What `sync_connections` leaves of each entry.
use draco.Base.{
  if◌then◌else◌, Bool-cases, is_some, ◌≡◌, refl, ap, ◌∙◌, ◌≢◌, ◌↔◌, inl, inr, Bool, true, false,
  ◌||◌, Option, none, some, List, [], ◌∷◌, ◌++◌, map, arith,
}
use draco.Text.{Text, text_eq, text_eq_refl}
use draco.Text.Assoc.{get, retain_keys, get-insert, get-retain_keys}
use draco.Connection.{DbConnection}
use draco.Manager.{
  disconnected, ManagedConnection, ConnectionManager, bool_eq, refreshed, merged, sync_one,
  sync_all, has_id, sync_connections,
}

get-sync_one :
    (map : ConnectionManager) (conn : DbConnection) (id : Text)
    → get id (sync_one map conn)
      ≡ (if text_eq conn.id id then some (merged (get conn.id map) conn) else get id map)
unfolding sync_one
get-sync_one map conn id = get-insert conn.id id _ map

get-sync_all_other :
    (connections : List DbConnection) (map : ConnectionManager) (id : Text)
    → has_id connections id ≡ false
    → get id (sync_all map connections) ≡ get id map
unfolding sync_all has_id
get-sync_all_other [] map id h = refl
get-sync_all_other (c ∷ cs) map id h =
    get-sync_all_other cs (sync_one map c) id (ground arith) ∙ ground (arith, get-sync_one map c id)

-- An id that is listed stays listed, whatever else is merged.
is_some-sync_all :
    (connections : List DbConnection) (map : ConnectionManager) (id : Text)
    → is_some (get id (sync_all map connections)) ≡ (has_id connections id || is_some (get id map))
unfolding sync_all has_id
is_some-sync_all [] map id = refl
is_some-sync_all (c ∷ cs) map id =
    is_some-sync_all cs (sync_one map c) id ∙ ground (arith, get-sync_one map c id)

-- After a sync the manager knows exactly the ids of the list.
pub is_some-sync_connections :
    (connections : List DbConnection) (map : ConnectionManager) (id : Text)
    → is_some (get id (sync_connections connections map)) ≡ has_id connections id
unfolding sync_connections
is_some-sync_connections connections map id =
    is_some-sync_all connections _ id ∙ ground (arith, get-retain_keys (has_id connections) id map)

sync_all-append :
    (xs ys : List DbConnection) (map : ConnectionManager)
    → sync_all map (xs ++ ys) ≡ sync_all (sync_all map xs) ys
unfolding sync_all
sync_all-append [] ys map = refl
sync_all-append (x ∷ xs) ys map = sync_all-append xs ys (sync_one map x)

has_id-append :
    (xs ys : List DbConnection) (id : Text) → has_id (xs ++ ys) id ≡ (has_id xs id || has_id ys id)
unfolding has_id
has_id-append [] ys id = refl
has_id-append (x ∷ xs) ys id = ground (arith, has_id-append xs ys id)

-- The entry of a connection as the loop meets it, with no other mention of its id before it.
get-sync_all_before :
    (before after : List DbConnection) (conn : DbConnection) (map : ConnectionManager)
    → has_id before conn.id ≡ false
    → get conn.id (sync_all (retain_keys (has_id (before ++ conn ∷ after)) map) before)
      ≡ get conn.id map
unfolding has_id
get-sync_all_before before after conn map hb =
    get-sync_all_other before _ conn.id hb
    ∙ ground (
      arith,
      get-retain_keys (has_id (before ++ conn ∷ after)) conn.id map,
      has_id-append before (conn ∷ after) conn.id,
      text_eq_refl conn.id,
    )

get-sync_connections-merged :
    (before after : List DbConnection) (conn : DbConnection) (map : ConnectionManager)
    → has_id before conn.id ≡ false
    → has_id after conn.id ≡ false
    → get conn.id (sync_connections (before ++ conn ∷ after) map)
      ≡ some (merged (get conn.id map) conn)
get-sync_connections-merged before after conn map hb ha =
    let start = retain_keys (has_id (before ++ conn ∷ after)) map in
    let reached = sync_all start before in
    unfold sync_connections in
    (rw (sync_all-append before (conn ∷ after) start) (
      unfold sync_all in
      (get-sync_all_other after (sync_one reached conn) conn.id ha
        ∙ get-sync_one reached conn conn.id
        ∙ rw (text_eq_refl conn.id) (rw (get-sync_all_before before after conn map hb)))))

-- The entry that a connection has after a sync, against the one before.
pub record IsMerged (before : Option ManagedConnection) (conn : DbConnection)
    (after : ManagedConnection) : Type 0 where
  pub described : after.conn ≡ conn
  pub fresh : before ≡ none → (after.status ≡ disconnected) × (after.driver ≡ none)
  pub kept :
      (old : ManagedConnection)
      → before ≡ some old
      → old.conn.read_only ≡ conn.read_only
      → (after.status ≡ old.status) × (after.driver ≡ old.driver) × (after.error ≡ old.error)
  pub let_go :
      (old : ManagedConnection)
      → before ≡ some old
      → old.conn.read_only ≢ conn.read_only
      → (after.status ≡ disconnected) × (after.driver ≡ none) × (after.error ≡ none)

bool_eq_iff : (a b : Bool) → (bool_eq a b ≡ true) ↔ (a ≡ b)
bool_eq_iff true true = (λ h. refl, λ h. refl)
bool_eq_iff true false = (λ h. cc (h), λ h. cc (h))
bool_eq_iff false true = (λ h. cc (h), λ h. cc (h))
bool_eq_iff false false = (λ h. refl, λ h. refl)

merged-IsMerged :
    (before : Option ManagedConnection) (conn : DbConnection)
    → IsMerged before conn (merged before conn)
unfolding refreshed
merged-IsMerged none conn = record {
  described = refl;
  fresh = λ _. (refl, refl);
  kept = λ old e. cc (e);
  let_go = λ old e. cc (e);
}
merged-IsMerged (some managed) conn =
    elim (Bool-cases (bool_eq managed.conn.read_only conn.read_only)) [
      | inl same ↦ rw same (record {
        described = refl;
        fresh = λ e. cc (e);
        kept = λ old e _. (cc (e), cc (e), cc (e));
        let_go = λ old e apart. absurd (equal same old e apart);
      })
      | inr switched ↦ rw switched (record {
        described = refl;
        fresh = λ e. cc (e);
        kept = λ old e same. absurd (unequal switched old e same);
        let_go = λ old e apart. (refl, refl, refl);
      })
    ]
  where
    unequal :
        bool_eq managed.conn.read_only conn.read_only ≡ false
        → (old : ManagedConnection) → some managed ≡ some old
        → old.conn.read_only ≡ conn.read_only
        → ⊥
    unequal switched old e same =
        let known : managed ≡ old = cc (e) in
        let agree = ap (λ (m : ManagedConnection). m.conn.read_only) known ∙ same in
        cc (switched, (bool_eq_iff managed.conn.read_only conn.read_only).1 agree)

    equal :
        bool_eq managed.conn.read_only conn.read_only ≡ true
        → (old : ManagedConnection) → some managed ≡ some old
        → old.conn.read_only ≢ conn.read_only
        → ⊥
    equal agree old e apart =
        let known : old ≡ managed = cc (e) in
        apart (
          ap (λ (m : ManagedConnection). m.conn.read_only) known
          ∙ (bool_eq_iff managed.conn.read_only conn.read_only).0 agree)

-- A connection that the list names once has its new metadata after a sync: a new entry starts
-- disconnected, a known one keeps its session unless the read-only setting was switched, and then
-- the session is let go.
pub get-sync_connections :
    (before after : List DbConnection) (conn : DbConnection) (map : ConnectionManager)
    → has_id before conn.id ≡ false
    → has_id after conn.id ≡ false
    → (entry : ManagedConnection) × (get conn.id (sync_connections (before ++ conn ∷ after) map)
        ≡ some entry)
      × IsMerged (get conn.id map) conn entry
get-sync_connections before after conn map hb ha = (
  merged (get conn.id map) conn,
  get-sync_connections-merged before after conn map hb ha,
  merged-IsMerged (get conn.id map) conn,
)
