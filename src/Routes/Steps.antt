-- ===== src/Routes/Steps.antt =====
-- console/internal/grpcserver/terminal_session_routes.go: the operations in any order. Each holds
-- `terminalRoutesMu` while it works.
use onlyboxes.Prelude.{ℕ, refl, List, [], Text, Map, lookup}
use onlyboxes.Session.Recovery.{RecoveryResult}
use onlyboxes.Routes.Defs.{StoredRoute, Db, Routes}
use onlyboxes.Routes.Reserve.{
  bind_terminal_session_route, reserve_terminal_session_route, claim_terminal_session_route,
  confirm_terminal_session_route, touch_terminal_session_route,
  clear_terminal_session_route_reservation,
}
use onlyboxes.Routes.Commit.{
  update_terminal_session_route_lease, commit_confirmed_terminal_session_route,
  terminal_session_route_snapshot, clear_terminal_session_route,
}
use onlyboxes.Routes.Sweep.{
  delete_terminal_session_routes_by_node, mark_terminal_session_routes_unavailable,
  prune_expired_terminal_session_routes, maybe_prune_terminal_session_routes,
}
use onlyboxes.Routes.Views.{list_terminal_sessions}
use onlyboxes.Routes.Recover.{restore_terminal_session_routes, begin_terminal_session_recovery}
use onlyboxes.Routes.Report.{apply_terminal_session_recovery_report}
use onlyboxes.Routes.Index.{IsIndexed}
use onlyboxes.Routes.Kept.{
  bind-IsIndexed, reserve-IsIndexed, claim-IsIndexed, confirm-IsIndexed, touch-IsIndexed,
  clear_reservation-IsIndexed,
}
use onlyboxes.Routes.Leased.{
  update_lease-IsIndexed, commit-IsIndexed, snapshot-IsIndexed, clear-IsIndexed,
}
use onlyboxes.Routes.Bulk.{
  delete_by_node-IsIndexed, mark_unavailable-IsIndexed, prune_expired-IsIndexed,
  maybe_prune-IsIndexed, list-IsIndexed,
}
use onlyboxes.Routes.Recovered.{restore-IsIndexed, begin_recovery-IsIndexed, apply_report-IsIndexed}

-- The state of the service that `NewRegistryService` makes, over what is stored.
abbrev pub new_routes : ℕ → Map StoredRoute → Routes
new_routes ttl rows = record {
  session_to_node = [];
  node_to_sessions = [];
  reservation_seq = 0;
  route_ttl = ttl;
  last_prune = 0;
  stored = rows;
  revoked = [];
}

-- One operation, with whatever arguments, at whatever time and with whatever answer of the store.
pub data Step : Routes → Routes → Type 0 where
  bind :
      (s : Routes) (id node : Text) (now : ℕ) → Step s (bind_terminal_session_route s id node now)
  reserve_route :
      (s : Routes) (id node : Text) (now : ℕ)
      → Step s (reserve_terminal_session_route s id node now).0
  claim : (s : Routes) (id : Text) (now : ℕ) → Step s (claim_terminal_session_route s id now).0
  confirm :
      (s : Routes) (id node : Text) (res now : ℕ)
      → Step s (confirm_terminal_session_route s id node res now).0
  touch : (s : Routes) (id : Text) (now : ℕ) → Step s (touch_terminal_session_route s id now).0
  clear_reservation :
      (s : Routes) (id node : Text) (res : ℕ)
      → Step s (clear_terminal_session_route_reservation s id node res).0
  update_lease :
      (s : Routes) (id node : Text) (lease now : ℕ)
      → Step s (update_terminal_session_route_lease s id node lease now).0
  commit :
      (s : Routes) (id node : Text) (res lease now : ℕ) (db : Db)
      → Step s (commit_confirmed_terminal_session_route s id node res lease now db).0
  snapshot :
      (s : Routes) (id : Text) (now : ℕ) (db : Db)
      → Step s (terminal_session_route_snapshot s id now db).0
  clear :
      (s : Routes) (id node : Text) (db : Db) → Step s (clear_terminal_session_route s id node db).0
  delete_by_node :
      (s : Routes) (node : Text) (db : Db)
      → Step s (delete_terminal_session_routes_by_node s node db).0
  mark_unavailable :
      (s : Routes) (node : Text) → Step s (mark_terminal_session_routes_unavailable s node).0
  prune :
      (s : Routes) (now : ℕ) (db : Db) → Step s (prune_expired_terminal_session_routes s now db).0
  maybe_prune :
      (s : Routes) (now : ℕ) (db : Db) → Step s (maybe_prune_terminal_session_routes s now db)
  list_sessions :
      (s : Routes) (owner : Text) (now : ℕ) (prune_db db : Db)
      → Step s (list_terminal_sessions s owner now prune_db db).0
  restore : (s : Routes) (now : ℕ) (db : Db) → Step s (restore_terminal_session_routes s now db).0
  begin_recovery :
      (s : Routes) (node : Text) (now : ℕ) (db : Db)
      → Step s (begin_terminal_session_recovery s node now db).0
  apply_report :
      (s : Routes) (node : Text) (cs : Map ℕ) (report : List RecoveryResult) (now : ℕ) (db : Db)
      → Step s (apply_terminal_session_recovery_report s node cs report now db).0

pub data Reach : Routes → Type 0 where
  start : (ttl : ℕ) (rows : Map StoredRoute) → Reach (new_routes ttl rows)
  next : {s t : Routes} → Reach s → Step s t → Reach t

Step-IsIndexed : (s t : Routes) → Step s t → IsIndexed s → IsIndexed t
Step-IsIndexed _ _ (bind s id node now) v = bind-IsIndexed s id node now v
Step-IsIndexed _ _ (reserve_route s id node now) v = reserve-IsIndexed s id node now v
Step-IsIndexed _ _ (claim s id now) v = claim-IsIndexed s id now v
Step-IsIndexed _ _ (confirm s id node res now) v = confirm-IsIndexed s id node res now v
Step-IsIndexed _ _ (touch s id now) v = touch-IsIndexed s id now v
Step-IsIndexed _ _ (clear_reservation s id node res) v = clear_reservation-IsIndexed s id node res v
Step-IsIndexed _ _ (update_lease s id node lease now) v =
    update_lease-IsIndexed s id node lease now v
Step-IsIndexed _ _ (commit s id node res lease now db) v =
    commit-IsIndexed s id node res lease now db v
Step-IsIndexed _ _ (snapshot s id now db) v = snapshot-IsIndexed s id now db v
Step-IsIndexed _ _ (clear s id node db) v = clear-IsIndexed s id node db v
Step-IsIndexed _ _ (delete_by_node s node db) v = delete_by_node-IsIndexed s node db v
Step-IsIndexed _ _ (mark_unavailable s node) v = mark_unavailable-IsIndexed s node v
Step-IsIndexed _ _ (prune s now db) v = prune_expired-IsIndexed s now db v
Step-IsIndexed _ _ (maybe_prune s now db) v = maybe_prune-IsIndexed s now db v
Step-IsIndexed _ _ (list_sessions s owner now prune_db db) v =
    list-IsIndexed s owner now prune_db db v
Step-IsIndexed _ _ (restore s now db) v = restore-IsIndexed s now db v
Step-IsIndexed _ _ (begin_recovery s node now db) v = begin_recovery-IsIndexed s node now db v
Step-IsIndexed _ _ (apply_report s node cs report now db) v =
    apply_report-IsIndexed s node cs report now db v

-- Whatever operations run on the routes, in whatever order and with whatever answers of the store,
-- from an empty table on: the index by worker holds a session under a worker exactly if the session
-- has a route, and to that worker.
pub Reach-IsIndexed : (s : Routes) → Reach s → IsIndexed s
Reach-IsIndexed _ (start ttl rows) = λ n i. unfold lookup in refl
Reach-IsIndexed t (next {s} r w) = Step-IsIndexed s t w (Reach-IsIndexed s r)
