-- ===== src/Routes/Leased.antt =====
-- console/internal/grpcserver/terminal_session_routes.go: the index under the operations on leases.
use onlyboxes.Prelude.{
  ℕ, ◌≡◌, refl, Bool, true, false, ◌&&◌, ◌||◌, not, Option, none, some, Text, Map, lookup,
  trim_space, is_empty, text_eq, ltb, ◌==◌, if◌then◌else◌, if_cases,
}
use onlyboxes.Routes.Defs.{Route, StoredRoute, Db, absent, runs, fails, Routes, delete_row}
use onlyboxes.Routes.Reserve.{owns}
use onlyboxes.Routes.Commit.{
  Error, missing_lease, missing_identity, leased, committed, stored_route, persist,
  commit_persisted, update_lease_found, update_terminal_session_route_lease, commit_found,
  commit_confirmed_terminal_session_route, is_expired_lease, delete_stored_and_locked,
  snapshot_found, terminal_session_route_snapshot, cleared, clear_found,
  clear_terminal_session_route,
}
use onlyboxes.Routes.Index.{IsIndexed, put_route-IsIndexed, delete_locked-IsIndexed}

abbrev Kept : {A : Type 0} → Routes × A → Type 0
Kept x = IsIndexed x.0

abbrev Committed : Routes × Bool × Option Error → Type 0
Committed x = IsIndexed x.0

update_lease_found-IsIndexed :
    (s : Routes) (id node : Text) (lease now : ℕ) (o : Option Route)
    → lookup id s.session_to_node ≡ o
    → IsIndexed s
    → IsIndexed (update_lease_found s id node lease now o).0
unfolding update_lease_found
update_lease_found-IsIndexed s id node lease now none h v = v
update_lease_found-IsIndexed s id node lease now (some r) h v =
    if_cases Kept (text_eq r.node_id node && r.reservation_id == 0) _ _
      (λ _. put_route-IsIndexed s id r _ h refl v) (λ _. v)

pub update_lease-IsIndexed :
    (s : Routes) (id node : Text) (lease now : ℕ)
    → IsIndexed s
    → IsIndexed (update_terminal_session_route_lease s id node lease now).0
unfolding update_terminal_session_route_lease
update_lease-IsIndexed s id node lease now v =
    if_cases Kept (lease == 0 || is_empty (trim_space id) || is_empty (trim_space node)) _ _
      (λ _. v)
      (λ _.
        update_lease_found-IsIndexed s (trim_space id) (trim_space node) lease now
          (lookup (trim_space id) s.session_to_node) refl v)

commit_persisted-IsIndexed :
    (s : Routes) (id : Text) (res now : ℕ) (r t : Route) (o : Option (Map StoredRoute))
    → lookup id s.session_to_node ≡ some r
    → t.node_id ≡ r.node_id
    → IsIndexed s
    → IsIndexed (commit_persisted s id res now t o).0
commit_persisted-IsIndexed s id res now r t none h e v = v
commit_persisted-IsIndexed s id res now r t (some rows) h e v =
    put_route-IsIndexed (record s { stored = rows }) id r (committed res now t) h e v

commit_found-IsIndexed :
    (s : Routes) (id node : Text) (res lease now : ℕ) (db : Db) (o : Option Route)
    → lookup id s.session_to_node ≡ o
    → IsIndexed s
    → IsIndexed (commit_found s id node res lease now db o).0
unfolding commit_found
commit_found-IsIndexed s id node res lease now db none h v = v
commit_found-IsIndexed s id node res lease now db (some r) h v =
    if_cases Committed (owns r node res)
      (commit_persisted s id res now (leased lease now r)
        (persist id (stored_route node now (leased lease now r)) db s.stored))
      (s, false, none)
      (λ _. commit_persisted-IsIndexed s id res now r (leased lease now r) _ h refl v) (λ _. v)

pub commit-IsIndexed :
    (s : Routes) (id node : Text) (res lease now : ℕ) (db : Db)
    → IsIndexed s
    → IsIndexed (commit_confirmed_terminal_session_route s id node res lease now db).0
unfolding commit_confirmed_terminal_session_route
commit-IsIndexed s id node res lease now db v =
    let found =
      commit_found s (trim_space id) (trim_space node) res lease now db
        (lookup (trim_space id) s.session_to_node) in
    let blank = is_empty (trim_space id) || is_empty (trim_space node) in
    if_cases Committed (lease == 0) (s, false, some missing_lease)
      (if blank then (s, false, some missing_identity) else found) (λ _. v)
      (λ _.
        if_cases Committed blank (s, false, some missing_identity) found (λ _. v)
          (λ _.
            commit_found-IsIndexed s (trim_space id) (trim_space node) res lease now db
              (lookup (trim_space id) s.session_to_node) refl v))

pub delete_stored-IsIndexed :
    (s : Routes) (id : Text) (r : Route) (db : Db)
    → lookup id s.session_to_node ≡ some r
    → IsIndexed s
    → IsIndexed (delete_stored_and_locked s id r db).0
unfolding delete_stored_and_locked
delete_stored-IsIndexed s id r absent h v = delete_locked-IsIndexed s id r h v
delete_stored-IsIndexed s id r runs h v =
    delete_locked-IsIndexed (record s { stored = delete_row id r.node_id s.stored }) id r h v
delete_stored-IsIndexed s id r fails h v = v

snapshot_found-IsIndexed :
    (s : Routes) (id : Text) (now : ℕ) (db : Db) (o : Option Route)
    → lookup id s.session_to_node ≡ o
    → IsIndexed s
    → IsIndexed (snapshot_found s id now db o).0
unfolding snapshot_found
snapshot_found-IsIndexed s id now db none h v = v
snapshot_found-IsIndexed s id now db (some r) h v =
    if_cases Kept (is_expired_lease now r) _ _ (λ _. delete_stored-IsIndexed s id r db h v) (λ _. v)

pub snapshot-IsIndexed :
    (s : Routes) (id : Text) (now : ℕ) (db : Db)
    → IsIndexed s
    → IsIndexed (terminal_session_route_snapshot s id now db).0
unfolding terminal_session_route_snapshot
snapshot-IsIndexed s id now db v =
    if_cases Kept (is_empty (trim_space id)) _ _ (λ _. v)
      (λ _.
        snapshot_found-IsIndexed s (trim_space id) now db (lookup (trim_space id) s.session_to_node)
          refl v)

cleared_fst : (x : Routes × Bool) → (cleared x).0 ≡ x.0
cleared_fst (s, true) = refl
cleared_fst (s, false) = refl

clear_found-IsIndexed :
    (s : Routes) (id node : Text) (db : Db) (o : Option Route)
    → lookup id s.session_to_node ≡ o
    → IsIndexed s
    → IsIndexed (clear_found s id node db o).0
unfolding clear_found
clear_found-IsIndexed s id node db none h v = v
clear_found-IsIndexed s id node db (some r) h v =
    if_cases Kept (not (is_empty node) && not (text_eq r.node_id node)) _ _ (λ _. v)
      (λ _.
        if_cases Kept (ltb 0 r.lease_expires) _ _
          (λ _.
            rw (cleared_fst (delete_stored_and_locked s id r db))
              (delete_stored-IsIndexed s id r db h v))
          (λ _. delete_locked-IsIndexed s id r h v))

pub clear-IsIndexed :
    (s : Routes) (id node : Text) (db : Db)
    → IsIndexed s
    → IsIndexed (clear_terminal_session_route s id node db).0
unfolding clear_terminal_session_route
clear-IsIndexed s id node db v =
    if_cases Kept (is_empty (trim_space id)) _ _ (λ _. v)
      (λ _.
        clear_found-IsIndexed s (trim_space id) (trim_space node) db
          (lookup (trim_space id) s.session_to_node) refl v)
