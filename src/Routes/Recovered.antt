-- ===== src/Routes/Recovered.antt =====
-- console/internal/grpcserver/terminal_session_routes.go: the index over restarts and recovery.
use onlyboxes.Prelude.{
  ℕ, ◌≡◌, refl, Bool, false, ◌&&◌, ◌||◌, not, Option, none, some, List, [], ◌∷◌, Text, Map, arith,
  lookup, insert, length, trim_space, is_empty, text_eq, leb, ◌==◌, if_cases, lookup-insert,
  text_eq→eq, text_eq_iff,
}
use onlyboxes.Session.Recovery.{Status, RecoveryResult}
use onlyboxes.Routes.Defs.{
  Route, StoredRoute, Db, absent, runs, fails, Routes, has, sessions_of, index_add,
  delete_expired_rows,
}
use onlyboxes.Routes.Sweep.{is_failure}
use onlyboxes.Routes.Views.{delete_rows}
use onlyboxes.Routes.Recover.{
  Error, Restored, restored_route, restore_rows, is_empty_map, install_restored,
  restore_terminal_session_routes, is_valid_persisted_terminal_session_id, candidates_of, lapsed_of,
  reconcile_found, reconcile, begin_for, begin_terminal_session_recovery,
}
use onlyboxes.Routes.Report.{
  collect_results, any_moved, is_lost, lost_refs, settle_found, settle_candidates, delete_lost,
  apply_deleted, apply_results, apply_terminal_session_recovery_report,
}
use onlyboxes.Routes.Index.{
  IsIndex, IsIndexed, member-add, put_route-IsIndexed, delete_locked-IsIndexed,
}
use onlyboxes.Routes.Bulk.{drop_expired-IsIndexed}

abbrev Kept : {A : Type 0} → Routes × A → Type 0
Kept x = IsIndexed x.0

add-IsIndex :
    (id : Text) (t : Route) (routes : Map Route) (index : Map (Map (Unit {0})))
    → has (lookup id routes) ≡ false
    → IsIndex routes index
    → IsIndex (insert id t routes) (index_add t.node_id id index)
add-IsIndex id t routes index fresh v n i = ground (
  arith,
  v n i,
  lookup-insert id i t routes,
  text_eq→eq id i,
  text_eq_iff t.node_id n,
  member-add t.node_id id n i index,
)

restore_rows-IsIndex :
    (now : ℕ) (rows : Map StoredRoute) (routes : Map Route) (index : Map (Map (Unit {0})))
    → IsIndex routes index
    → IsIndex
        (restore_rows now rows (routes, index)).1.0
        (restore_rows now rows (routes, index)).1.1
unfolding restore_rows
restore_rows-IsIndex now [] routes index v = v
restore_rows-IsIndex now ((scoped, row) ∷ rows) routes index v =
    let id = trim_space scoped in
    let node = trim_space row.node_id in
    if_cases (λ (x : Option Error × Restored). IsIndex x.1.0 x.1.1)
      (not (is_valid_persisted_terminal_session_id id)
        || is_empty node
        || leb row.lease_expires now)
      _ _ (λ _. v)
      (λ _.
        if_cases (λ (x : Option Error × Restored). IsIndex x.1.0 x.1.1) (has (lookup id routes)) _ _
          (λ _. v)
          (λ e.
            restore_rows-IsIndex now rows (insert id (restored_route node row) routes)
              (index_add node id index)
              (add-IsIndex id (restored_route node row) routes index e v)))

install_restored-IsIndexed :
    (s : Routes) (x : Option Error × Restored)
    → IsIndex x.1.0 x.1.1
    → IsIndexed s
    → Kept (install_restored s x)
install_restored-IsIndexed s (some e, acc) w v = v
install_restored-IsIndexed s (none, (routes, index)) w v =
    if_cases Kept (is_empty_map s.session_to_node && is_empty_map s.node_to_sessions) _ _ (λ _. w)
      (λ _. v)

pub restore-IsIndexed :
    (s : Routes) (now : ℕ) (db : Db) → IsIndexed s → Kept (restore_terminal_session_routes s now db)
unfolding restore_terminal_session_routes
restore-IsIndexed s now runs v =
    let live = delete_expired_rows now s.stored in
    install_restored-IsIndexed (record s { stored = live }) (restore_rows now live ([], []))
      (restore_rows-IsIndex now live [] [] (λ n i. unfold lookup in refl)) v
restore-IsIndexed s now absent v = v
restore-IsIndexed s now fails v = v

reconcile_found-IsIndexed :
    (node id : Text) (lease : ℕ) (o : Option Route) (s : Routes)
    → lookup id s.session_to_node ≡ o
    → IsIndexed s
    → IsIndexed (reconcile_found node id lease o s)
unfolding reconcile_found
reconcile_found-IsIndexed node id lease none s h v = v
reconcile_found-IsIndexed node id lease (some r) s h v =
    if_cases IsIndexed (text_eq r.node_id node) _ _ (λ _. put_route-IsIndexed s id r _ h refl v)
      (λ _. v)

reconcile-IsIndexed :
    (node : Text) (cs : Map ℕ) (s : Routes) → IsIndexed s → IsIndexed (reconcile node cs s)
unfolding reconcile
reconcile-IsIndexed node [] s v = v
reconcile-IsIndexed node ((id, lease) ∷ cs) s v =
    reconcile-IsIndexed node cs _
      (reconcile_found-IsIndexed node id lease (lookup id s.session_to_node) s refl v)

begin_for-IsIndexed :
    (s : Routes) (node : Text) (now : ℕ) (db : Db) (ids : Map (Unit {0}))
    → IsIndexed s
    → Kept (begin_for s node now db ids)
begin_for-IsIndexed s node now db ids v =
    let lapsed = lapsed_of now node s ids in
    if_cases Kept (is_failure db && not (is_empty_map lapsed)) _ _ (λ _. v)
      (λ _.
        reconcile-IsIndexed node (candidates_of now node s ids) _
          (drop_expired-IsIndexed lapsed _ s v))

pub begin_recovery-IsIndexed :
    (s : Routes) (node : Text) (now : ℕ) (db : Db)
    → IsIndexed s
    → Kept (begin_terminal_session_recovery s node now db)
unfolding begin_terminal_session_recovery
begin_recovery-IsIndexed s node now db v =
    if_cases Kept (is_empty (trim_space node)) _ _ (λ _. v)
      (λ _.
        begin_for-IsIndexed s (trim_space node) now db
          (sessions_of (lookup (trim_space node) s.node_to_sessions)) v)

settle_found-IsIndexed :
    (now : ℕ) (node id : Text) (lost : Bool) (o : Option Route) (s : Routes)
    → lookup id s.session_to_node ≡ o
    → IsIndexed s
    → IsIndexed (settle_found now node id lost o s)
unfolding settle_found
settle_found-IsIndexed now node id lost none s h v = v
settle_found-IsIndexed now node id lost (some r) s h v =
    if_cases IsIndexed (text_eq r.node_id node) _ _
      (λ _.
        if_cases IsIndexed lost _ _ (λ _. delete_locked-IsIndexed s id r h v)
          (λ _. put_route-IsIndexed s id r _ h refl v))
      (λ _. v)

settle_candidates-IsIndexed :
    (now : ℕ) (node : Text) (cs : Map ℕ) (results : Map Status) (s : Routes)
    → IsIndexed s
    → IsIndexed (settle_candidates now node cs results s)
unfolding settle_candidates
settle_candidates-IsIndexed now node [] results s v = v
settle_candidates-IsIndexed now node ((id, lease) ∷ cs) results s v =
    settle_candidates-IsIndexed now node cs results _ (
      settle_found-IsIndexed now node id (is_lost now lease (lookup id results))
        (lookup id s.session_to_node) s refl v)

apply_deleted-IsIndexed :
    (now : ℕ) (node : Text) (cs : Map ℕ) (results : Map Status) (refs : List (Text × Route))
    (db : Db) (s : Routes)
    → IsIndexed s
    → Kept (apply_deleted now node cs results s (delete_lost refs db s))
apply_deleted-IsIndexed now node cs results [] db s v =
    unfold is_empty_map in settle_candidates-IsIndexed now node cs results s v
apply_deleted-IsIndexed now node cs results (r ∷ refs) absent s v =
    unfold is_empty_map in settle_candidates-IsIndexed now node cs results s v
apply_deleted-IsIndexed now node cs results (r ∷ refs) runs s v =
    unfold is_empty_map in
    settle_candidates-IsIndexed now node cs results
      (record s { stored = delete_rows (r ∷ refs) s.stored }) v
apply_deleted-IsIndexed now node cs results (r ∷ refs) fails s v = unfold is_empty_map in v

apply_results-IsIndexed :
    (s : Routes) (node : Text) (cs : Map ℕ) (now : ℕ) (db : Db) (x : Option Error × Map Status)
    → IsIndexed s
    → Kept (apply_results s node cs now db x)
apply_results-IsIndexed s node cs now db (some e, results) v = v
apply_results-IsIndexed s node cs now db (none, results) v =
    if_cases Kept (length results == length cs) _ _
      (λ _.
        if_cases Kept (any_moved node cs s.session_to_node) _ _ (λ _. v)
          (λ _.
            apply_deleted-IsIndexed now node cs results
              (lost_refs now node cs results s.session_to_node) db s v))
      (λ _. v)

pub apply_report-IsIndexed :
    (s : Routes) (node : Text) (cs : Map ℕ) (report : List RecoveryResult) (now : ℕ) (db : Db)
    → IsIndexed s
    → Kept (apply_terminal_session_recovery_report s node cs report now db)
unfolding apply_terminal_session_recovery_report
apply_report-IsIndexed s node cs report now db v =
    apply_results-IsIndexed s node cs now db (collect_results cs report []) v
