-- ===== src/Routes/Report.antt =====
-- console/internal/grpcserver/terminal_session_routes.go: the report of recovery of a worker.
use onlyboxes.Prelude.{
  ℕ, Bool, true, false, ◌&&◌, ◌||◌, not, Option, none, some, List, [], ◌∷◌, Text, Map, lookup,
  insert, length, trim_space, text_eq, ltb, leb, ◌==◌, if◌then◌else◌,
}
use onlyboxes.Session.Recovery.{Status, unspecified, recovered, RecoveryResult}
use onlyboxes.Routes.Defs.{
  ready, Route, Db, absent, runs, fails, Routes, has, put_route,
  delete_terminal_session_route_locked,
}
use onlyboxes.Routes.Views.{delete_rows}
use onlyboxes.Routes.Recover.{
  Error, store_failed, not_a_candidate, duplicate_result, invalid_status, incomplete_report,
  moved_candidate, is_empty_map,
}

abbrev pub is_known_status : Status → Bool
is_known_status unspecified = false
is_known_status _ = true

-- The results of a report by session.
unfoldable pub collect_results :
    Map ℕ → List RecoveryResult → Map Status → Option Error × Map Status
collect_results candidates [] results = (none, results)
collect_results candidates (r ∷ rs) results =
    let id = trim_space r.session_id in
    let rest = collect_results candidates rs (insert id r.status results) in
    if not (has (lookup id candidates))
    then (some not_a_candidate, results)
    else if has (lookup id results)
    then (some duplicate_result, results)
    else if is_known_status r.status
    then rest
    else (some invalid_status, results)

abbrev pub moved : Text → Option Route → Bool
moved node none = false
moved node (some r) = not (text_eq r.node_id node)

unfoldable pub any_moved : Text → Map ℕ → Map Route → Bool
any_moved node [] routes = false
any_moved node ((id, lease) ∷ cs) routes = moved node (lookup id routes) || any_moved node cs routes

abbrev pub is_recovered : Option Status → Bool
is_recovered (some recovered) = true
is_recovered _ = false

-- The route of the candidate goes.
unfoldable pub is_lost : ℕ → ℕ → Option Status → Bool
is_lost now lease status = not (is_recovered status) || (ltb 0 lease && leb lease now)

unfoldable pub lost_refs : ℕ → Text → Map ℕ → Map Status → Map Route → List (Text × Route)
unfolding is_lost
lost_refs now node [] results routes = []
lost_refs now node ((id, lease) ∷ cs) results routes =
    let rest = lost_refs now node cs results routes in
    elim (lookup id routes) [
      | none ↦ rest
      | some r ↦
          if text_eq r.node_id node
            && is_lost now lease (lookup id results)
            && ltb 0 r.lease_expires
          then (id, r) ∷ rest
          else rest
    ]

unfoldable pub settle_found : ℕ → Text → Text → Bool → Option Route → Routes → Routes
unfolding delete_terminal_session_route_locked
settle_found now node id lost none s = s
settle_found now node id lost (some r) s =
    if text_eq r.node_id node
    then if lost
      then delete_terminal_session_route_locked s id r
      else put_route s id (record r { recovery_state = ready; last_used = now })
    else s

unfoldable pub settle_candidates : ℕ → Text → Map ℕ → Map Status → Routes → Routes
unfolding settle_found
settle_candidates now node [] results s = s
settle_candidates now node ((id, lease) ∷ cs) results s = settle_candidates now node cs results (
    settle_found now node id (is_lost now lease (lookup id results)) (lookup id s.session_to_node)
      s)

abbrev pub delete_lost : List (Text × Route) → Db → Routes → Option Routes
delete_lost refs db s = if is_empty_map refs then some s else elim db [
  | absent ↦ some s
  | runs ↦ some (record s { stored = delete_rows refs s.stored })
  | fails ↦ none
]

abbrev pub apply_deleted :
    ℕ → Text → Map ℕ → Map Status → Routes → Option Routes → Routes × Option Error
apply_deleted now node candidates results s none = (s, some store_failed)
apply_deleted now node candidates results s (some t) =
    (settle_candidates now node candidates results t, none)

abbrev pub apply_results :
    Routes → Text → Map ℕ → ℕ → Db → Option Error × Map Status → Routes × Option Error
apply_results s node candidates now db (some e, results) = (s, some e)
apply_results s node candidates now db (none, results) =
    if length results == length candidates
    then if any_moved node candidates s.session_to_node
      then (s, some moved_candidate)
      else apply_deleted now node candidates results s
          (delete_lost (lost_refs now node candidates results s.session_to_node) db s)
    else (s, some incomplete_report)

-- The report of the worker `node_id`, whose session was offered the candidates. Without an error
-- the source also keeps the results in the session.
unfoldable pub apply_terminal_session_recovery_report :
    Routes → Text → Map ℕ → List RecoveryResult → ℕ → Db → Routes × Option Error
unfolding collect_results any_moved lost_refs settle_candidates is_empty_map delete_rows
apply_terminal_session_recovery_report s node_id candidates report now db =
    apply_results s node_id candidates now db (collect_results candidates report [])
