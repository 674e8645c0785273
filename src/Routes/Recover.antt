-- ===== src/Routes/Recover.antt =====
-- console/internal/grpcserver/terminal_session_routes.go: routes over a restart of the console, and
-- over the reconnection of a worker.
use onlyboxes.Prelude.{
  ℕ, ◌+◌, Bool, true, false, ◌&&◌, ◌||◌, not, Option, none, some, List, [], ◌∷◌, Text, Map, lookup,
  insert, trim_space, is_empty, text_eq, ltb, leb, ◌==◌, if◌then◌else◌,
}
use onlyboxes.OwnerScope.Ids.{split_scoped, task_owner_scope_prefix}
use onlyboxes.Routes.Defs.{
  unavailable, reconciling, Route, StoredRoute, Db, absent, runs, Routes, has, sessions_of,
  put_route, index_add, delete_expired_rows,
}
use onlyboxes.Routes.Views.{drop_expired}
use onlyboxes.Routes.Sweep.{is_failure}

pub data Error : Type 0 where
  store_failed invalid_row duplicate_row already_initialized : Error
  not_a_candidate duplicate_result invalid_status incomplete_report moved_candidate : Error

abbrev pub valid_parts : Option (Text × Text × Text) → Bool
valid_parts none = false
valid_parts (some (prefix, owner, session)) =
    text_eq prefix task_owner_scope_prefix
    && not (is_empty (trim_space owner))
    && not (is_empty (trim_space session))

unfoldable pub is_valid_persisted_terminal_session_id : Text → Bool
is_valid_persisted_terminal_session_id id = valid_parts (split_scoped (trim_space id))

-- The table and the index that the rows make.
abbrev pub Restored : Type 0
Restored = Map Route × Map (Map (Unit {0}))

abbrev pub restored_route : Text → StoredRoute → Route
restored_route node row = record {
  node_id = node;
  last_used = row.last_used;
  lease_expires = row.lease_expires;
  created_at = row.created_at;
  recovery_state = unavailable;
  reservation_id = 0;
  confirmed_reservation_id = 0;
  provisional_uses = 0;
}

unfoldable pub restore_rows : ℕ → Map StoredRoute → Restored → Option Error × Restored
unfolding index_add is_valid_persisted_terminal_session_id
restore_rows now [] acc = (none, acc)
restore_rows now ((scoped, row) ∷ rows) (routes, index) =
    let id = trim_space scoped in
    let node = trim_space row.node_id in
    let rest =
      restore_rows now rows (insert id (restored_route node row) routes, index_add node id index) in
    if not (is_valid_persisted_terminal_session_id id) || is_empty node || leb row.lease_expires now
    then (some invalid_row, (routes, index))
    else if has (lookup id routes)
    then (some duplicate_row, (routes, index))
    else rest

unfoldable pub is_empty_map {ℓ} : {V : Type ℓ} → Map V → Bool
is_empty_map [] = true
is_empty_map (e ∷ m) = false

abbrev pub install_restored : Routes → Option Error × Restored → Routes × Option Error
install_restored s (some e, acc) = (s, some e)
install_restored s (none, (routes, index)) =
    if is_empty_map s.session_to_node && is_empty_map s.node_to_sessions
    then (record s { session_to_node = routes; node_to_sessions = index }, none)
    else (s, some already_initialized)

-- Both statements succeed if the store runs; the rows that are loaded are those that are left.
unfoldable pub restore_terminal_session_routes : Routes → ℕ → Db → Routes × Option Error
unfolding restore_rows is_empty_map
restore_terminal_session_routes s now runs =
    let live = delete_expired_rows now s.stored in
    install_restored (record s { stored = live }) (restore_rows now live ([], []))
restore_terminal_session_routes s now _ = (s, some store_failed)

-- The lease that a candidate is offered with.
unfoldable pub candidate_lease : ℕ → Route → ℕ
candidate_lease ttl r =
    if r.lease_expires == 0 && ltb 0 ttl then r.last_used + ttl else r.lease_expires

abbrev pub is_candidate : ℕ → ℕ → Route → Bool
is_candidate now ttl r = r.reservation_id == 0 && ltb now (candidate_lease ttl r)

-- The loop over the worker's index: candidates with their leases, and expired routes.
unfoldable pub candidates_of : ℕ → Text → Routes → Map (Unit {0}) → Map ℕ
unfolding candidate_lease
candidates_of now node s [] = []
candidates_of now node s ((id, u) ∷ ids) =
    let rest = candidates_of now node s ids in
    elim (lookup id s.session_to_node) [
      | none ↦ rest
      | some r ↦
          if text_eq r.node_id node && is_candidate now s.route_ttl r
          then (id, candidate_lease s.route_ttl r) ∷ rest
          else rest
    ]

unfoldable pub lapsed_of : ℕ → Text → Routes → Map (Unit {0}) → List (Text × Route)
unfolding candidate_lease
lapsed_of now node s [] = []
lapsed_of now node s ((id, u) ∷ ids) =
    let rest = lapsed_of now node s ids in
    elim (lookup id s.session_to_node) [
      | none ↦ rest
      | some r ↦
          if text_eq r.node_id node && not (is_candidate now s.route_ttl r) && ltb 0 r.lease_expires
          then (id, r) ∷ rest
          else rest
    ]

unfoldable pub reconcile_found : Text → Text → ℕ → Option Route → Routes → Routes
reconcile_found node id lease none s = s
reconcile_found node id lease (some r) s =
    if text_eq r.node_id node
    then put_route s id (record r { lease_expires = lease; recovery_state = reconciling })
    else s

unfoldable pub reconcile : Text → Map ℕ → Routes → Routes
unfolding reconcile_found
reconcile node [] s = s
reconcile node ((id, lease) ∷ cs) s =
    reconcile node cs (reconcile_found node id lease (lookup id s.session_to_node) s)

abbrev pub begin_for : Routes → Text → ℕ → Db → Map (Unit {0}) → Routes × Option (Map ℕ)
begin_for s node now db ids =
    let lapsed = lapsed_of now node s ids in
    let cs = candidates_of now node s ids in
    if is_failure db && not (is_empty_map lapsed) then (s, none) else (
      reconcile node cs (drop_expired lapsed (if is_empty_map lapsed then absent else db) s),
      some cs,
    )

-- The candidates and their leases, whose order the source sorts by id; none is the store's error.
unfoldable pub begin_terminal_session_recovery : Routes → Text → ℕ → Db → Routes × Option (Map ℕ)
unfolding candidates_of lapsed_of reconcile is_empty_map drop_expired
begin_terminal_session_recovery s node_id now db =
    let node = trim_space node_id in
    if is_empty node
    then (s, some [])
    else begin_for s node now db (sessions_of (lookup node s.node_to_sessions))
