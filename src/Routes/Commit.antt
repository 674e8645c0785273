-- ===== src/Routes/Commit.antt =====
-- console/internal/grpcserver/terminal_session_routes.go: leases of routes, and what is persisted.
use onlyboxes.Prelude.{
  ℕ, Bool, true, false, ◌&&◌, ◌||◌, not, Option, none, some, Text, Map, lookup, trim_space,
  is_empty, text_eq, ltb, leb, ◌==◌, if◌then◌else◌,
}
use onlyboxes.Routes.Defs.{
  ready, Route, StoredRoute, Db, absent, runs, fails, Routes, put_route,
  delete_terminal_session_route_locked, upsert_terminal_session_route, delete_row,
}
use onlyboxes.Routes.Reserve.{owns}

pub data Error : Type 0 where
  missing_lease missing_identity : Error
  store_failed : Error

-- A route whose lease or instant of creation the result of a command settles.
abbrev pub leased : ℕ → ℕ → Route → Route
leased lease now r = record r {
  lease_expires = if ltb r.lease_expires lease then lease else r.lease_expires;
  created_at = if r.created_at == 0 then now else r.created_at;
}

unfoldable pub update_lease_found : Routes → Text → Text → ℕ → ℕ → Option Route → Routes × Bool
update_lease_found s id node lease now none = (s, false)
update_lease_found s id node lease now (some r) =
    if text_eq r.node_id node && r.reservation_id == 0
    then (
      put_route s id (record r {
        lease_expires = if ltb r.lease_expires lease then lease else r.lease_expires;
        last_used = now;
        recovery_state = ready;
      }),
      true,
    )
    else (s, false)

unfoldable pub update_terminal_session_route_lease : Routes → Text → Text → ℕ → ℕ → Routes × Bool
unfolding update_lease_found
update_terminal_session_route_lease s session_id expected_node_id lease now =
    let id = trim_space session_id in
    let node = trim_space expected_node_id in
    if lease == 0 || is_empty id || is_empty node
    then (s, false)
    else update_lease_found s id node lease now (lookup id s.session_to_node)

abbrev pub stored_route : Text → ℕ → Route → StoredRoute
stored_route node now r = record {
  node_id = node;
  lease_expires = r.lease_expires;
  last_used = now;
  created_at = r.created_at;
  updated_at = now;
}

-- The table with the row of the route, or none if the store refuses it.
abbrev pub persist : Text → StoredRoute → Db → Map StoredRoute → Option (Map StoredRoute)
persist id row absent rows = some rows
persist id row fails rows = none
persist id row runs rows = upsert_terminal_session_route id row rows

abbrev pub committed : ℕ → ℕ → Route → Route
committed reservation now r = record r {
  last_used = now;
  recovery_state = ready;
  reservation_id = 0;
  confirmed_reservation_id = if reservation == 0 then r.confirmed_reservation_id else reservation;
  provisional_uses = 0;
}

abbrev pub commit_persisted :
    Routes → Text → ℕ → ℕ → Route → Option (Map StoredRoute) → Routes × Bool × Option Error
commit_persisted s id reservation now r none = (s, false, some store_failed)
commit_persisted s id reservation now r (some rows) =
    (put_route (record s { stored = rows }) id (committed reservation now r), true, none)

unfoldable pub commit_found :
    Routes → Text → Text → ℕ → ℕ → ℕ → Db → Option Route → Routes × Bool × Option Error
commit_found s id node reservation lease now db none = (s, false, none)
commit_found s id node reservation lease now db (some r) =
    if owns r node reservation
    then commit_persisted s id reservation now (leased lease now r)
        (persist id (stored_route node now (leased lease now r)) db s.stored)
    else (s, false, none)

unfoldable pub commit_confirmed_terminal_session_route :
    Routes → Text → Text → ℕ → ℕ → ℕ → Db → Routes × Bool × Option Error
unfolding commit_found
commit_confirmed_terminal_session_route s session_id expected_node_id reservation lease now db =
    let id = trim_space session_id in
    let node = trim_space expected_node_id in
    if lease == 0
    then (s, false, some missing_lease)
    else if is_empty id || is_empty node
    then (s, false, some missing_identity)
    else commit_found s id node reservation lease now db (lookup id s.session_to_node)

abbrev pub is_expired_lease : ℕ → Route → Bool
is_expired_lease now r = ltb 0 r.lease_expires && leb r.lease_expires now

-- A route and its row go, unless the store fails.
unfoldable pub delete_stored_and_locked : Routes → Text → Route → Db → Routes × Bool
unfolding delete_terminal_session_route_locked delete_row
delete_stored_and_locked s id r absent = (delete_terminal_session_route_locked s id r, true)
delete_stored_and_locked s id r runs = (
  delete_terminal_session_route_locked (record s { stored = delete_row id r.node_id s.stored }) id
      r,
  true,
)
delete_stored_and_locked s id r fails = (s, false)

unfoldable pub snapshot_found : Routes → Text → ℕ → Db → Option Route → Routes × Option Route
unfolding delete_stored_and_locked
snapshot_found s id now db none = (s, none)
snapshot_found s id now db (some r) =
    if is_expired_lease now r then ((delete_stored_and_locked s id r db).0, none) else (s, some r)

unfoldable pub terminal_session_route_snapshot : Routes → Text → ℕ → Db → Routes × Option Route
unfolding snapshot_found
terminal_session_route_snapshot s session_id now db =
    let id = trim_space session_id in
    if is_empty id then (s, none) else snapshot_found s id now db (lookup id s.session_to_node)

abbrev pub cleared : Routes × Bool → Routes × Option Error
cleared (s, true) = (s, none)
cleared (s, false) = (s, some store_failed)

-- The error is the store's.
unfoldable pub clear_found : Routes → Text → Text → Db → Option Route → Routes × Option Error
unfolding delete_stored_and_locked delete_terminal_session_route_locked
clear_found s id node db none = (s, none)
clear_found s id node db (some r) =
    if not (is_empty node) && not (text_eq r.node_id node)
    then (s, none)
    else if ltb 0 r.lease_expires
    then cleared (delete_stored_and_locked s id r db)
    else (delete_terminal_session_route_locked s id r, none)

unfoldable pub clear_terminal_session_route : Routes → Text → Text → Db → Routes × Option Error
unfolding clear_found
clear_terminal_session_route s session_id expected_node_id db =
    let id = trim_space session_id in
    let node = trim_space expected_node_id in
    if is_empty id then (s, none) else clear_found s id node db (lookup id s.session_to_node)
