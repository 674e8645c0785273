-- ===== src/Routes/ByNode.antt =====
-- console/internal/grpcserver/terminal_session_routes.go: `deleteTerminalSessionRoutesByNode`, which
-- walks the index, against a scan of the whole table.
use onlyboxes.Prelude.{
  ℕ, ◌≡◌, refl, ◌||◌, Option, none, some, [], ◌∷◌, Text, Map, arith, lookup, lookup-remove,
  trim_space, is_empty, text_eq, text_eq→eq, text_eq_iff, if◌then◌else◌,
}
use onlyboxes.Routes.Defs.{
  Route, Db, Routes, has, sessions_of, delete_terminal_session_route_locked,
}
use onlyboxes.Routes.Sweep.{
  delete_by_node_entry, delete_by_node_entries, delete_stored_by_node, is_failure,
  delete_terminal_session_routes_by_node,
}
use onlyboxes.Routes.Index.{on, IsIndexed}

-- The scan, at one session: a route goes if it is to the worker.
abbrev pub scanned : Text → Option Route → Option Route
scanned node o = if on node o then none else o

entry_found :
    (node id i : Text) (o : Option Route) (acc : Routes × ℕ)
    → lookup id acc.0.session_to_node ≡ o
    → lookup i (delete_by_node_entry node id o acc).0.session_to_node ≡ (
        if text_eq id i
        then scanned node (lookup i acc.0.session_to_node)
        else lookup i acc.0.session_to_node)
unfolding delete_by_node_entry delete_terminal_session_route_locked
entry_found node id i none (s, n) h = ground (arith, text_eq→eq id i)
entry_found node id i (some r) (s, n) h =
    ground
      (arith, text_eq→eq id i, text_eq_iff r.node_id node, lookup-remove id i s.session_to_node)

entries_found :
    (node i : Text) (ids : Map (Unit {0})) (acc : Routes × ℕ)
    → lookup i (delete_by_node_entries node ids acc).0.session_to_node ≡ (
        if has (lookup i ids)
        then scanned node (lookup i acc.0.session_to_node)
        else lookup i acc.0.session_to_node)
unfolding delete_by_node_entries lookup
entries_found node i [] acc = refl
entries_found node i ((id, u) ∷ ids) acc = ground (
  arith,
  entry_found node id i (lookup id acc.0.session_to_node) acc refl,
  entries_found node i ids (delete_by_node_entry node id (lookup id acc.0.session_to_node) acc),
)

-- Where the index is right: removing the routes to a worker by the index removes exactly those that a
-- scan of the table would find, and no other; a blank worker and a failing store remove none.
pub delete_by_node-scanned :
    (s : Routes) (node_id : Text) (db : Db) (i : Text)
    → IsIndexed s
    → lookup i (delete_terminal_session_routes_by_node s node_id db).0.session_to_node ≡ (
        if is_empty (trim_space node_id) || is_failure db
        then lookup i s.session_to_node
        else scanned (trim_space node_id) (lookup i s.session_to_node))
unfolding delete_terminal_session_routes_by_node
delete_by_node-scanned s node_id db i v =
    let node = trim_space node_id in
    let ids = sessions_of (lookup node s.node_to_sessions) in
    ground (
      arith,
      v node i,
      entries_found node i ids (record s { stored = delete_stored_by_node node db s.stored }, 0),
    )
