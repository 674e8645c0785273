-- ===== src/Routes/Views.antt =====
-- console/internal/grpcserver/terminal_session_routes.go: `ListTerminalSessions`.
use onlyboxes.Prelude.{
  ℕ, Bool, true, false, ◌&&◌, not, Option, none, some, List, [], ◌∷◌, ◌++◌, Text, Map, lookup,
  is_empty, text_eq, ltb, ◌==◌, if◌then◌else◌,
}
use onlyboxes.OwnerScope.Ids.{normalize_task_owner_id, parse_scoped_terminal_session_id}
use onlyboxes.Routes.Defs.{
  Route, StoredRoute, Db, absent, runs, fails, Routes, delete_terminal_session_route_locked,
  delete_row,
}
use onlyboxes.Routes.Commit.{is_expired_lease}
use onlyboxes.Routes.Sweep.{
  TerminalSessionView, terminal_session_view_from_route, is_confirmed_active_terminal_session_route,
  maybe_prune_terminal_session_routes,
}

-- `a < b` on strings.
unfoldable pub text_lt : Text → Text → Bool
text_lt [] [] = false
text_lt [] (c ∷ b) = true
text_lt (c ∷ a) [] = false
text_lt (c ∷ a) (d ∷ b) = let rest = text_lt a b in if c == d then rest else ltb c d

unfoldable pub view_less : TerminalSessionView → TerminalSessionView → Bool
unfolding text_lt
view_less a b =
    if a.created_at == b.created_at
    then if text_eq a.account_id b.account_id
      then text_lt a.session_id b.session_id
      else text_lt a.account_id b.account_id
    else ltb b.created_at a.created_at

-- `sort.Slice`
unfoldable pub insert_view :
    TerminalSessionView → List TerminalSessionView → List TerminalSessionView
insert_view v [] = v ∷ []
insert_view v (u ∷ us) =
    let rest = insert_view v us in if view_less u v then u ∷ rest else v ∷ u ∷ us

unfoldable pub sort_views : List TerminalSessionView → List TerminalSessionView
unfolding insert_view view_less
sort_views [] = []
sort_views (v ∷ vs) = insert_view v (sort_views vs)

abbrev pub view_of_parsed : Text → Route → Option (Text × Text) → List TerminalSessionView
view_of_parsed owner r none = []
view_of_parsed owner r (some (account, session)) =
    if not (is_empty owner) && not (text_eq account owner)
    then []
    else terminal_session_view_from_route account session r ∷ []

unfoldable pub view_of : Text → ℕ → Text → Route → List TerminalSessionView
view_of owner now id r =
    if is_expired_lease now r
    then []
    else if is_confirmed_active_terminal_session_route now r
    then view_of_parsed owner r (parse_scoped_terminal_session_id id)
    else []

-- The loop over the routes: the views, and the sessions whose lease is over.
unfoldable pub views_of : Text → ℕ → Map Route → List TerminalSessionView
unfolding view_of
views_of owner now [] = []
views_of owner now ((id, r) ∷ routes) = view_of owner now id r ++ views_of owner now routes

unfoldable pub expired_of : ℕ → Map Route → List (Text × Route)
expired_of now [] = []
expired_of now ((id, r) ∷ routes) =
    let rest = expired_of now routes in if is_expired_lease now r then (id, r) ∷ rest else rest

-- `DeleteTerminalSessionRoutes`, one transaction.
unfoldable pub delete_rows : List (Text × Route) → Map StoredRoute → Map StoredRoute
unfolding delete_row
delete_rows [] rows = rows
delete_rows ((id, r) ∷ refs) rows = delete_rows refs (delete_row id r.node_id rows)

unfoldable pub delete_found : Text → Text → Option Route → Routes → Routes
unfolding delete_terminal_session_route_locked
delete_found id node none s = s
delete_found id node (some r) s =
    if text_eq r.node_id node then delete_terminal_session_route_locked s id r else s

unfoldable pub delete_refs : List (Text × Route) → Routes → Routes
unfolding delete_found
delete_refs [] s = s
delete_refs ((id, r) ∷ refs) s =
    delete_refs refs (delete_found id r.node_id (lookup id s.session_to_node) s)

-- A failure of the store leaves the routes as they are.
unfoldable pub drop_expired : List (Text × Route) → Db → Routes → Routes
unfolding delete_rows delete_refs
drop_expired refs absent s = delete_refs refs s
drop_expired refs runs s = delete_refs refs (record s { stored = delete_rows refs s.stored })
drop_expired refs fails s = s

unfoldable pub list_pruned : Routes → Text → ℕ → Db → Routes × List TerminalSessionView
unfolding views_of expired_of drop_expired sort_views
list_pruned s owner now db = (
  drop_expired (expired_of now s.session_to_node) db s,
  sort_views (views_of owner now s.session_to_node),
)

-- All sessions if the owner is blank. `prune_db` and `db` are the answers of the store.
unfoldable pub list_terminal_sessions :
    Routes → Text → ℕ → Db → Db → Routes × List TerminalSessionView
unfolding list_pruned
list_terminal_sessions s owner_id now prune_db db =
    list_pruned (maybe_prune_terminal_session_routes s now prune_db)
      (normalize_task_owner_id owner_id) now db
