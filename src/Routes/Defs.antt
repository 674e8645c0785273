-- ===== src/Routes/Defs.antt =====
-- console/internal/grpcserver/terminal_session_routes.go: the table of routes, its index by worker,
-- and what is written of it to the database (console/db/queries/terminal_session_routes.sql).
--
-- Times are milliseconds, and 0 stands for a lease or an instant that is not set. `stored` are the
-- rows of the table terminal_session_routes, by their primary key. `revoked` are the sessions that
-- `proxyRouteSessionRevoker` was told of. Every operation runs under `terminalRoutesMu`.
use onlyboxes.Prelude.{
  ℕ, ◌+◌, ◌%◌, ◌^◌, Bool, true, false, Option, none, some, List, [], ◌∷◌, Text, Map, lookup, insert,
  remove, text_eq, leb, ◌==◌, if◌then◌else◌, max,
}

pub data RecoveryState : Type 0 where
  ready unavailable reconciling : RecoveryState

-- A reservation of 0 is none: the route is confirmed.
pub record Route : Type 0 where
  pub node_id : Text
  pub last_used : ℕ
  pub lease_expires : ℕ
  pub created_at : ℕ
  pub recovery_state : RecoveryState
  pub reservation_id : ℕ
  pub confirmed_reservation_id : ℕ
  pub provisional_uses : ℕ

pub record StoredRoute : Type 0 where
  pub node_id : Text
  pub lease_expires : ℕ
  pub last_used : ℕ
  pub created_at : ℕ
  pub updated_at : ℕ

-- What becomes of a call of the store, where there is one.
pub data Db : Type 0 where
  absent runs fails : Db

pub record Routes : Type 0 where
  pub session_to_node : Map Route
  pub node_to_sessions : Map (Map (Unit {0}))
  pub reservation_seq : ℕ
  pub route_ttl : ℕ
  pub last_prune : ℕ
  pub stored : Map StoredRoute
  pub revoked : List Text

abbrev pub has {ℓ} : {A : Type ℓ} → Option A → Bool
has none = false
has (some a) = true

-- `index[node]`, where a missing set is an empty one.
abbrev pub sessions_of : Option (Map (Unit {0})) → Map (Unit {0})
sessions_of none = []
sessions_of (some m) = m

unfoldable pub index_add : Text → Text → Map (Map (Unit {0})) → Map (Map (Unit {0}))
index_add node id index = insert node (insert id tt (sessions_of (lookup node index))) index

abbrev pub index_put : Text → Map (Unit {0}) → Map (Map (Unit {0})) → Map (Map (Unit {0}))
index_put node [] index = remove node index
index_put node (e ∷ rest) index = insert node (e ∷ rest) index

abbrev pub index_del_found :
    Text → Text → Option (Map (Unit {0})) → Map (Map (Unit {0})) → Map (Map (Unit {0}))
index_del_found node id none index = index
index_del_found node id (some m) index = index_put node (remove id m) index

unfoldable pub index_del : Text → Text → Map (Map (Unit {0})) → Map (Map (Unit {0}))
index_del node id index = index_del_found node id (lookup node index) index

-- `s.terminalSessionToNode[id] = route`
abbrev pub put_route : Routes → Text → Route → Routes
put_route s id r = record s { session_to_node = insert id r s.session_to_node }

unfoldable pub delete_terminal_session_route_locked : Routes → Text → Route → Routes
unfolding index_del
delete_terminal_session_route_locked s id r = record s {
  session_to_node = remove id s.session_to_node;
  node_to_sessions = index_del r.node_id id s.node_to_sessions;
  revoked = id ∷ s.revoked;
}

-- The route of a session that is new to the table.
abbrev pub add_route : Routes → Text → Route → Routes
add_route s id r = record s {
  session_to_node = insert id r s.session_to_node;
  node_to_sessions = index_add r.node_id id s.node_to_sessions;
}

-- The next id of a reservation, in 64 bits, which skips 0.
unfoldable pub next_reservation : ℕ → ℕ
next_reservation seq = let next = (seq + 1) % 2 ^ 64 in if next == 0 then 1 else next

abbrev pub upsert_row : StoredRoute → Option StoredRoute → Option StoredRoute
upsert_row new none = some new
upsert_row new (some old) =
    if text_eq old.node_id new.node_id
    then some (record old {
      lease_expires = max old.lease_expires new.lease_expires;
      last_used = max old.last_used new.last_used;
      updated_at = max old.updated_at new.updated_at;
    })
    else none

abbrev pub insert_row : Text → Option StoredRoute → Map StoredRoute → Option (Map StoredRoute)
insert_row id none rows = none
insert_row id (some row) rows = some (insert id row rows)

-- `UpsertTerminalSessionRoute`: no rows are affected if the row belongs to another worker.
unfoldable pub upsert_terminal_session_route :
    Text → StoredRoute → Map StoredRoute → Option (Map StoredRoute)
upsert_terminal_session_route id new rows = insert_row id (upsert_row new (lookup id rows)) rows

abbrev pub row_on : Text → Option StoredRoute → Bool
row_on node none = false
row_on node (some r) = text_eq r.node_id node

-- `DeleteTerminalSessionRouteBySessionAndNode`
unfoldable pub delete_row : Text → Text → Map StoredRoute → Map StoredRoute
delete_row id node rows = if row_on node (lookup id rows) then remove id rows else rows

-- `DeleteTerminalSessionRoutesByNode`
unfoldable pub delete_rows_by_node : Text → Map StoredRoute → Map StoredRoute
delete_rows_by_node node [] = []
delete_rows_by_node node ((id, r) ∷ rows) =
    let rest = delete_rows_by_node node rows in
    if text_eq r.node_id node then rest else (id, r) ∷ rest

-- `DeleteExpiredTerminalSessionRoutes`
unfoldable pub delete_expired_rows : ℕ → Map StoredRoute → Map StoredRoute
delete_expired_rows now [] = []
delete_expired_rows now ((id, r) ∷ rows) =
    let rest = delete_expired_rows now rows in
    if leb r.lease_expires now then rest else (id, r) ∷ rest
