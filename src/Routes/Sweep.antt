-- ===== src/Routes/Sweep.antt =====
-- console/internal/grpcserver/terminal_session_routes.go: what removes routes in bulk, and the views
-- of sessions that the HTTP API asks for.
use onlyboxes.Prelude.{
  ℕ, ◌+◌, Bool, true, false, ◌&&◌, ◌||◌, not, Option, none, some, [], ◌∷◌, Text, Map, codes, lookup,
  trim_space, is_empty, text_eq, ltb, leb, ◌==◌, if◌then◌else◌,
}
use onlyboxes.OwnerScope.Ids.{normalize_task_owner_id, scope_terminal_session_id}
use onlyboxes.Routes.Defs.{
  RecoveryState, ready, unavailable, reconciling, Route, StoredRoute, Db, runs, fails, Routes,
  sessions_of, put_route, delete_terminal_session_route_locked, delete_rows_by_node,
  delete_expired_rows,
}
use onlyboxes.Routes.Commit.{Error, terminal_session_route_snapshot, clear_terminal_session_route}

-- One session of the worker's index. The count is of the routes removed.
unfoldable pub delete_by_node_entry : Text → Text → Option Route → Routes × ℕ → Routes × ℕ
unfolding delete_terminal_session_route_locked
delete_by_node_entry node id none (s, removed) = (s, removed)
delete_by_node_entry node id (some r) (s, removed) =
    if text_eq r.node_id node
    then (delete_terminal_session_route_locked s id r, removed + 1)
    else (s, removed)

unfoldable pub delete_by_node_entries : Text → Map (Unit {0}) → Routes × ℕ → Routes × ℕ
unfolding delete_by_node_entry
delete_by_node_entries node [] acc = acc
delete_by_node_entries node ((id, u) ∷ rest) acc =
    delete_by_node_entries node rest
      (delete_by_node_entry node id (lookup id acc.0.session_to_node) acc)

abbrev pub delete_stored_by_node : Text → Db → Map StoredRoute → Map StoredRoute
delete_stored_by_node node runs rows = delete_rows_by_node node rows
delete_stored_by_node node _ rows = rows

abbrev pub is_failure : Db → Bool
is_failure fails = true
is_failure _ = false

-- None is the error of the store.
unfoldable pub delete_terminal_session_routes_by_node : Routes → Text → Db → Routes × Option ℕ
unfolding delete_by_node_entries
delete_terminal_session_routes_by_node s node_id db =
    let node = trim_space node_id in
    if is_empty node
    then (s, some 0)
    else if is_failure db
    then (s, none)
    else removed_some (
        delete_by_node_entries node (sessions_of (lookup node s.node_to_sessions))
          (record s { stored = delete_stored_by_node node db s.stored }, 0))
  where
    removed_some : Routes × ℕ → Routes × Option ℕ
    removed_some (t, n) = (t, some n)

unfoldable pub mark_unavailable_entry : Text → Text → Option Route → Routes × ℕ → Routes × ℕ
unfolding delete_terminal_session_route_locked
mark_unavailable_entry node id none (s, n) = (s, n)
mark_unavailable_entry node id (some r) (s, n) =
    if text_eq r.node_id node
    then if r.reservation_id == 0
      then (put_route s id (record r { recovery_state = unavailable }), n + 1)
      else (delete_terminal_session_route_locked s id r, n)
    else (s, n)

unfoldable pub mark_unavailable_entries : Text → Map (Unit {0}) → Routes × ℕ → Routes × ℕ
unfolding mark_unavailable_entry
mark_unavailable_entries node [] acc = acc
mark_unavailable_entries node ((id, u) ∷ rest) acc =
    mark_unavailable_entries node rest
      (mark_unavailable_entry node id (lookup id acc.0.session_to_node) acc)

unfoldable pub mark_terminal_session_routes_unavailable : Routes → Text → Routes × ℕ
unfolding mark_unavailable_entries
mark_terminal_session_routes_unavailable s node_id =
    let node = trim_space node_id in
    if is_empty node
    then (s, 0)
    else mark_unavailable_entries node (sessions_of (lookup node s.node_to_sessions)) (s, 0)

-- `persisted` says that the store dropped its expired rows, or that there is none.
unfoldable pub is_prunable : ℕ → ℕ → Bool → Route → Bool
is_prunable now ttl persisted r =
    if ltb 0 r.lease_expires
    then leb r.lease_expires now && persisted
    else ltb 0 ttl && leb (r.last_used + ttl) now

unfoldable pub prune_entry : ℕ → Bool → Text → Option Route → Routes × ℕ → Routes × ℕ
unfolding is_prunable delete_terminal_session_route_locked
prune_entry now persisted id none (s, n) = (s, n)
prune_entry now persisted id (some r) (s, n) =
    if is_prunable now s.route_ttl persisted r
    then (delete_terminal_session_route_locked s id r, n + 1)
    else (s, n)

unfoldable pub prune_entries : ℕ → Bool → Map Route → Routes × ℕ → Routes × ℕ
unfolding prune_entry
prune_entries now persisted [] acc = acc
prune_entries now persisted ((id, r) ∷ rest) acc =
    prune_entries now persisted rest
      (prune_entry now persisted id (lookup id acc.0.session_to_node) acc)

abbrev pub delete_stored_expired : ℕ → Db → Map StoredRoute → Map StoredRoute
delete_stored_expired now runs rows = delete_expired_rows now rows
delete_stored_expired now _ rows = rows

unfoldable pub prune_expired_terminal_session_routes : Routes → ℕ → Db → Routes × ℕ
unfolding prune_entries
prune_expired_terminal_session_routes s now db =
    prune_entries now (not (is_failure db)) s.session_to_node
      (record s { stored = delete_stored_expired now db s.stored }, 0)

-- `terminalRoutePruneMinInterval`
abbrev pub terminal_route_prune_min_interval : ℕ
terminal_route_prune_min_interval = 60000

unfoldable pub maybe_prune_terminal_session_routes : Routes → ℕ → Db → Routes
unfolding prune_expired_terminal_session_routes
maybe_prune_terminal_session_routes s now db =
    if ltb 0 s.last_prune && ltb now (s.last_prune + terminal_route_prune_min_interval)
    then s
    else (prune_expired_terminal_session_routes (record s { last_prune = now }) now db).0

pub record TerminalSessionView : Type 0 where
  pub account_id : Text
  pub session_id : Text
  pub worker_id : Text
  pub status : Text
  pub lease_expires : ℕ
  pub last_used : ℕ
  pub created_at : ℕ

abbrev pub terminal_session_status_name : RecoveryState → Text
terminal_session_status_name unavailable = codes "unavailable"
terminal_session_status_name reconciling = codes "reconciling"
terminal_session_status_name ready = codes "ready"

unfoldable pub terminal_session_view_from_route : Text → Text → Route → TerminalSessionView
terminal_session_view_from_route account_id session_id r = record {
  account_id = account_id;
  session_id = session_id;
  worker_id = r.node_id;
  status = terminal_session_status_name r.recovery_state;
  lease_expires = r.lease_expires;
  last_used = r.last_used;
  created_at = if r.created_at == 0 then r.last_used else r.created_at;
}

unfoldable pub is_confirmed_active_terminal_session_route : ℕ → Route → Bool
is_confirmed_active_terminal_session_route now r = r.reservation_id == 0 && ltb now r.lease_expires

abbrev pub view_if_active :
    Text → Text → ℕ → Routes × Option Route → Routes × Option TerminalSessionView
view_if_active owner session now (s, none) = (s, none)
view_if_active owner session now (s, some r) =
    if is_confirmed_active_terminal_session_route now r
    then (s, some (terminal_session_view_from_route owner session r))
    else (s, none)

unfoldable pub get_terminal_session :
    Routes → Text → Text → ℕ → Db → Routes × Option TerminalSessionView
unfolding terminal_session_view_from_route is_confirmed_active_terminal_session_route
get_terminal_session s owner_id session_id now db =
    let owner = normalize_task_owner_id owner_id in
    let session = trim_space session_id in
    if is_empty owner || is_empty session
    then (s, none)
    else view_if_active owner session now
        (terminal_session_route_snapshot s (scope_terminal_session_id owner session) now db)

abbrev pub delete_done : Routes × Option Error → Routes × Bool × Option Error
delete_done (s, none) = (s, true, none)
delete_done (s, some e) = (s, false, some e)

abbrev pub delete_if_active :
    Text → ℕ → Db → (Routes → Routes) → Routes × Option Route → Routes × Bool × Option Error
delete_if_active scoped now db gap (s, none) = (s, false, none)
delete_if_active scoped now db gap (s, some r) =
    if is_confirmed_active_terminal_session_route now r
    then delete_done (clear_terminal_session_route (gap s) scoped r.node_id db)
    else (s, false, none)

-- `db` is the store's answer to both of its calls, and `gap` what other goroutines do between them.
unfoldable pub delete_terminal_session :
    Routes → Text → Text → ℕ → Db → (Routes → Routes) → Routes × Bool × Option Error
unfolding is_confirmed_active_terminal_session_route
delete_terminal_session s owner_id session_id now db gap =
    let owner = normalize_task_owner_id owner_id in
    let session = trim_space session_id in
    if is_empty owner || is_empty session
    then (s, false, none)
    else delete_if_active (scope_terminal_session_id owner session) now db gap
        (terminal_session_route_snapshot s (scope_terminal_session_id owner session) now db)
