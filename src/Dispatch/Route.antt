-- ===== src/Dispatch/Route.antt =====
-- console/internal/grpcserver/service_dispatch.go: `pickSessionForDispatch`, the worker for a command
-- and the reservation of its terminal session's route, or 0.
--
-- The clock, the registry's lists of workers and the answers of the store go by the pause they follow.
use onlyboxes.Prelude.{
  ℕ, zero, suc, Bool, true, false, ◌&&◌, ◌||◌, not, Option, none, some, List, [], Text, Map,
  get_elem?, trim_space, is_empty, text_eq, leb, ◌==◌, if◌then◌else◌,
}
use onlyboxes.Session.Defs.{inflight_snapshot, has_capability}
use onlyboxes.Session.Recovery.{is_ready}
use onlyboxes.Routes.Defs.{RecoveryState, ready, Route, Db, Routes}
use onlyboxes.Routes.Reserve.{
  reserve_terminal_session_route, claim_terminal_session_route,
  clear_terminal_session_route_reservation,
}
use onlyboxes.Routes.Commit.{terminal_session_route_snapshot, clear_terminal_session_route}
use onlyboxes.Routes.Sweep.{maybe_prune_terminal_session_routes}
use onlyboxes.Dispatch.Defs.{
  Worker, Service, Error, no_capability_worker, no_worker_capacity, retry_route_conflict,
  target_worker_offline, target_worker_capability_unavailable, terminal_session_unavailable, Result,
  ok, err, Gap, pause, get_session, worker_at, release_at, is_node_excluded,
  pick_session_for_node_and_capability,
}
use onlyboxes.Dispatch.Pick.{pick_session_for_capability}

pub record World : Type 0 where
  pub gap : Gap
  pub clock : ℕ → ℕ
  pub db : ℕ → Db
  pub online : ℕ → List Text

abbrev pub Picked : Type 0
Picked = Service × Result (ℕ × ℕ)

abbrev pub node_of : Option Worker → Text
node_of none = []
node_of (some w) = w.node_id

abbrev pub node_at : Service → ℕ → Text
node_at s i = node_of (get_elem? s.heap i)

abbrev pub set_routes : Service → Routes → Service
set_routes s routes = record s { routes = routes }

unfoldable pub check_target_found : Text → Option Worker → Option Error
check_target_found capability none = some target_worker_offline
check_target_found capability (some w) =
    if not (is_ready w.recovery)
    then some target_worker_offline
    else if not (has_capability w.session capability)
    then some target_worker_capability_unavailable
    else elim (inflight_snapshot w.session capability).1 [
      | none ↦ some no_worker_capacity
      | some p ↦ if leb p.1 p.0 then some no_worker_capacity else none
    ]

-- `checkTargetCapabilityAvailability`. The limit that `inflightSnapshot` writes back where there is none
-- is left out here: `newActiveSession` sets one for every capability.
unfoldable pub check_target_capability_availability : Service → Text → Text → Option Error
unfolding check_target_found get_session
check_target_capability_availability s node_id capability =
    check_target_found capability (worker_at s (get_session s (trim_space node_id)))

-- `errors.Is(err, ErrNoCapabilityWorker)`
abbrev pub is_no_capability : Error → Bool
is_no_capability no_capability_worker = true
is_no_capability _ = false

abbrev pub with_reservation : ℕ → Service × Result ℕ → Picked
with_reservation reservation (s, ok i) = (s, ok (i, reservation))
with_reservation reservation (s, err e) = (s, err e)

abbrev pub target_error : Error → Option Error → Error
target_error e none = e
target_error e (some target) = target

abbrev pub target_checked : World → Text → Text → Service × Result ℕ → Picked
target_checked w target capability (s, ok i) = (s, ok (i, 0))
target_checked w target capability (s, err e) =
    let t = pause w.gap s in
    if is_no_capability e
    then (t, err (target_error e (check_target_capability_availability t target capability)))
    else (s, err e)

-- Gives the reservation back, unless it is 0.
abbrev pub give_back_route : Service → Text → Text → ℕ → Service
give_back_route s id node reservation =
    set_routes s (clear_terminal_session_route_reservation s.routes id node reservation).0

unfoldable pub clear_route : World → Service → Text → Text → Service
clear_route w s id node =
    set_routes s (clear_terminal_session_route s.routes id node (w.db s.pauses)).0

module _ (w : World) (capability id : Text) (now : ℕ) (excluded : Map (Unit {0}))
    (capacity_aware : Bool) where
  -- The worker that the route leads to has just been asked for a slot.
  abbrev pub follow_reserved : Text → ℕ → (Service → Picked) → Service × Result ℕ → Picked
  follow_reserved node reservation retry (s, ok i) = (s, ok (i, reservation))
  follow_reserved node reservation retry (s, err e) =
      if is_no_capability e
      then retry (pause w.gap (clear_route w (pause w.gap s) id node))
      else (give_back_route (pause w.gap s) id node reservation, err e)

  abbrev pub reserved : ℕ → (Service → Picked) → Service → Routes × Text × ℕ → Picked
  reserved i retry s (routes, node, reservation) =
      let t = set_routes s routes in
      let released = release_at (pause w.gap t) capability i in
      if text_eq node (node_at s i)
      then (t, ok (i, reservation))
      else if is_node_excluded node excluded
      then (give_back_route (pause w.gap released) id node reservation, err retry_route_conflict)
      else follow_reserved node reservation retry
          (pick_session_for_node_and_capability (pause w.gap released) node capability)

  abbrev pub reserve_picked : (Service → Picked) → Service × Result ℕ → Picked
  reserve_picked retry (s, err e) = (s, err e)
  reserve_picked retry (s, ok i) =
      let t = pause w.gap s in
      reserved i retry t (reserve_terminal_session_route t.routes id (node_at t i) now)

  -- `tryReserveAndPickTerminalSession` with so many attempts left.
  unfoldable pub try_reserve : ℕ → Service → Picked
  unfolding release_at is_node_excluded clear_route
  try_reserve zero s = (s, err no_capability_worker)
  try_reserve (suc n) s =
      reserve_picked (try_reserve n)
        (pick_session_for_capability w.gap s capability excluded capacity_aware (w.online s.pauses))

  abbrev pub follow_claimed : Text → ℕ → Service × Result ℕ → Picked
  follow_claimed node reservation (s, ok i) = (s, ok (i, reservation))
  follow_claimed node reservation (s, err e) =
      if is_no_capability e
      then if reservation == 0
        then (s, err terminal_session_unavailable)
        else try_reserve 2 (pause w.gap (clear_route w (pause w.gap s) id node))
      else (give_back_route (pause w.gap s) id node reservation, err e)

  abbrev pub claimed : Service → Routes × Option (Text × ℕ) → Picked
  claimed s (routes, none) = try_reserve 2 (pause w.gap (set_routes s routes))
  claimed s (routes, some (node, reservation)) =
      let t = pause w.gap (set_routes s routes) in
      if is_node_excluded node excluded
      then (give_back_route t id node reservation, err retry_route_conflict)
      else follow_claimed node reservation (pick_session_for_node_and_capability t node capability)

abbrev pub is_ready_state : RecoveryState → Bool
is_ready_state ready = true
is_ready_state _ = false

abbrev pub worker_is_ready : Option Worker → Bool
worker_is_ready none = false
worker_is_ready (some w) = is_ready w.recovery

-- A confirmed route whose worker cannot serve it now.
abbrev pub is_unavailable : Service → Option Route → Bool
is_unavailable s none = false
is_unavailable s (some r) =
    r.reservation_id == 0
    && (not (is_ready_state r.recovery_state)
        || not (worker_is_ready (worker_at s (get_session s r.node_id))))

unfoldable pub pick_for_session : World → Service → Text → Text → Map (Unit {0}) → Bool → Picked
unfolding try_reserve get_session is_node_excluded
pick_for_session w s capability id excluded capacity_aware =
    let now = w.clock s.pauses in
    let pruned =
      pause w.gap
        (set_routes s (maybe_prune_terminal_session_routes s.routes now (w.db s.pauses))) in
    let snapshot = terminal_session_route_snapshot pruned.routes id now (w.db pruned.pauses) in
    let t = pause w.gap (set_routes pruned snapshot.0) in
    if is_unavailable t snapshot.1
    then (t, err terminal_session_unavailable)
    else let u = pause w.gap t in
      claimed w capability id now excluded capacity_aware u
        (claim_terminal_session_route u.routes id now)

unfoldable pub pick_session_for_dispatch :
    World → Service → Text → Text → Text → Map (Unit {0}) → Bool → Picked
unfolding pick_for_session
pick_session_for_dispatch w s capability terminal_session_id target_node_id excluded
      capacity_aware =
    let target = trim_space target_node_id in
    let id = trim_space terminal_session_id in
    if not (is_empty target)
    then target_checked w target capability
        (pick_session_for_node_and_capability s target capability)
    else if is_empty id
    then with_reservation 0
        (pick_session_for_capability w.gap s capability excluded capacity_aware (w.online s.pauses))
    else pick_for_session w s capability id excluded capacity_aware
