-- ===== src/Routes/Bulk.antt =====
-- console/internal/grpcserver/terminal_session_routes.go: the index under the loops over many routes.
use onlyboxes.Prelude.{
  ℕ, ◌+◌, ◌≡◌, refl, Bool, ◌&&◌, not, Option, none, some, List, [], ◌∷◌, Text, Map, lookup,
  trim_space, is_empty, text_eq, ltb, ◌==◌, if_cases,
}
use onlyboxes.Routes.Defs.{Route, Db, absent, runs, fails, Routes, sessions_of}
use onlyboxes.Routes.Sweep.{
  delete_by_node_entry, delete_by_node_entries, delete_stored_by_node, is_failure,
  delete_terminal_session_routes_by_node, mark_unavailable_entry, mark_unavailable_entries,
  mark_terminal_session_routes_unavailable, is_prunable, prune_entry, prune_entries,
  delete_stored_expired, prune_expired_terminal_session_routes, terminal_route_prune_min_interval,
  maybe_prune_terminal_session_routes,
}
use onlyboxes.Routes.Views.{
  delete_rows, delete_found, delete_refs, drop_expired, expired_of, list_pruned,
  list_terminal_sessions,
}
use onlyboxes.Routes.Index.{IsIndexed, put_route-IsIndexed, delete_locked-IsIndexed}

abbrev Kept : {A : Type 0} → Routes × A → Type 0
Kept x = IsIndexed x.0

delete_by_node_entry-IsIndexed :
    (node id : Text) (o : Option Route) (acc : Routes × ℕ)
    → lookup id acc.0.session_to_node ≡ o
    → Kept acc
    → Kept (delete_by_node_entry node id o acc)
unfolding delete_by_node_entry
delete_by_node_entry-IsIndexed node id none (s, n) h v = v
delete_by_node_entry-IsIndexed node id (some r) (s, n) h v =
    if_cases Kept (text_eq r.node_id node) _ _ (λ _. delete_locked-IsIndexed s id r h v) (λ _. v)

pub delete_by_node_entries-IsIndexed :
    (node : Text) (ids : Map (Unit {0})) (acc : Routes × ℕ)
    → Kept acc
    → Kept (delete_by_node_entries node ids acc)
unfolding delete_by_node_entries
delete_by_node_entries-IsIndexed node [] acc v = v
delete_by_node_entries-IsIndexed node ((id, u) ∷ ids) acc v =
    delete_by_node_entries-IsIndexed node ids _
      (delete_by_node_entry-IsIndexed node id (lookup id acc.0.session_to_node) acc refl v)

pub delete_by_node-IsIndexed :
    (s : Routes) (node : Text) (db : Db)
    → IsIndexed s
    → Kept (delete_terminal_session_routes_by_node s node db)
unfolding delete_terminal_session_routes_by_node
delete_by_node-IsIndexed s node db v =
    if_cases Kept (is_empty (trim_space node)) _ _ (λ _. v)
      (λ _.
        if_cases Kept (is_failure db) _ _ (λ _. v)
          (λ _.
            delete_by_node_entries-IsIndexed (trim_space node)
              (sessions_of (lookup (trim_space node) s.node_to_sessions))
              (record s { stored = delete_stored_by_node (trim_space node) db s.stored }, 0) v))

mark_unavailable_entry-IsIndexed :
    (node id : Text) (o : Option Route) (acc : Routes × ℕ)
    → lookup id acc.0.session_to_node ≡ o
    → Kept acc
    → Kept (mark_unavailable_entry node id o acc)
unfolding mark_unavailable_entry
mark_unavailable_entry-IsIndexed node id none (s, n) h v = v
mark_unavailable_entry-IsIndexed node id (some r) (s, n) h v =
    if_cases Kept (text_eq r.node_id node) _ _
      (λ _.
        if_cases Kept (r.reservation_id == 0) _ _ (λ _. put_route-IsIndexed s id r _ h refl v)
          (λ _. delete_locked-IsIndexed s id r h v))
      (λ _. v)

mark_unavailable_entries-IsIndexed :
    (node : Text) (ids : Map (Unit {0})) (acc : Routes × ℕ)
    → Kept acc
    → Kept (mark_unavailable_entries node ids acc)
unfolding mark_unavailable_entries
mark_unavailable_entries-IsIndexed node [] acc v = v
mark_unavailable_entries-IsIndexed node ((id, u) ∷ ids) acc v =
    mark_unavailable_entries-IsIndexed node ids _
      (mark_unavailable_entry-IsIndexed node id (lookup id acc.0.session_to_node) acc refl v)

pub mark_unavailable-IsIndexed :
    (s : Routes) (node : Text)
    → IsIndexed s
    → Kept (mark_terminal_session_routes_unavailable s node)
unfolding mark_terminal_session_routes_unavailable
mark_unavailable-IsIndexed s node v =
    if_cases Kept (is_empty (trim_space node)) _ _ (λ _. v)
      (λ _.
        mark_unavailable_entries-IsIndexed (trim_space node)
          (sessions_of (lookup (trim_space node) s.node_to_sessions)) (s, 0) v)

prune_entry-IsIndexed :
    (now : ℕ) (p : Bool) (id : Text) (o : Option Route) (acc : Routes × ℕ)
    → lookup id acc.0.session_to_node ≡ o
    → Kept acc
    → Kept (prune_entry now p id o acc)
unfolding prune_entry
prune_entry-IsIndexed now p id none (s, n) h v = v
prune_entry-IsIndexed now p id (some r) (s, n) h v =
    if_cases Kept (is_prunable now s.route_ttl p r) _ _ (λ _. delete_locked-IsIndexed s id r h v)
      (λ _. v)

prune_entries-IsIndexed :
    (now : ℕ) (p : Bool) (routes : Map Route) (acc : Routes × ℕ)
    → Kept acc
    → Kept (prune_entries now p routes acc)
unfolding prune_entries
prune_entries-IsIndexed now p [] acc v = v
prune_entries-IsIndexed now p ((id, r) ∷ routes) acc v =
    prune_entries-IsIndexed now p routes _
      (prune_entry-IsIndexed now p id (lookup id acc.0.session_to_node) acc refl v)

pub prune_expired-IsIndexed :
    (s : Routes) (now : ℕ) (db : Db)
    → IsIndexed s
    → Kept (prune_expired_terminal_session_routes s now db)
unfolding prune_expired_terminal_session_routes
prune_expired-IsIndexed s now db v =
    prune_entries-IsIndexed now (not (is_failure db)) s.session_to_node
      (record s { stored = delete_stored_expired now db s.stored }, 0) v

pub maybe_prune-IsIndexed :
    (s : Routes) (now : ℕ) (db : Db)
    → IsIndexed s
    → IsIndexed (maybe_prune_terminal_session_routes s now db)
unfolding maybe_prune_terminal_session_routes
maybe_prune-IsIndexed s now db v =
    if_cases IsIndexed
      (ltb 0 s.last_prune && ltb now (s.last_prune + terminal_route_prune_min_interval)) _ _
      (λ _. v) (λ _. prune_expired-IsIndexed (record s { last_prune = now }) now db v)

delete_found-IsIndexed :
    (id node : Text) (o : Option Route) (s : Routes)
    → lookup id s.session_to_node ≡ o
    → IsIndexed s
    → IsIndexed (delete_found id node o s)
unfolding delete_found
delete_found-IsIndexed id node none s h v = v
delete_found-IsIndexed id node (some r) s h v =
    if_cases IsIndexed (text_eq r.node_id node) _ _ (λ _. delete_locked-IsIndexed s id r h v)
      (λ _. v)

delete_refs-IsIndexed :
    (refs : List (Text × Route)) (s : Routes) → IsIndexed s → IsIndexed (delete_refs refs s)
unfolding delete_refs
delete_refs-IsIndexed [] s v = v
delete_refs-IsIndexed ((id, r) ∷ refs) s v =
    delete_refs-IsIndexed refs _
      (delete_found-IsIndexed id r.node_id (lookup id s.session_to_node) s refl v)

pub drop_expired-IsIndexed :
    (refs : List (Text × Route)) (db : Db) (s : Routes)
    → IsIndexed s
    → IsIndexed (drop_expired refs db s)
unfolding drop_expired
drop_expired-IsIndexed refs absent s v = delete_refs-IsIndexed refs s v
drop_expired-IsIndexed refs runs s v =
    delete_refs-IsIndexed refs (record s { stored = delete_rows refs s.stored }) v
drop_expired-IsIndexed refs fails s v = v

pub list-IsIndexed :
    (s : Routes) (owner : Text) (now : ℕ) (prune_db db : Db)
    → IsIndexed s
    → Kept (list_terminal_sessions s owner now prune_db db)
unfolding list_terminal_sessions list_pruned
list-IsIndexed s owner now prune_db db v =
    let t = maybe_prune_terminal_session_routes s now prune_db in
    drop_expired-IsIndexed (expired_of now t.session_to_node) db t
      (maybe_prune-IsIndexed s now prune_db v)
