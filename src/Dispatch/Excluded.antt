-- ===== src/Dispatch/Excluded.antt =====
-- console/internal/grpcserver/service_dispatch.go: `pickSessionForDispatch` and the workers excluded.
use onlyboxes.Prelude.{
  ℕ, zero, suc, ◌≡◌, Bool, false, Option, none, some, Text, Map, lookup, trim_space,
  trim_space_idem, text_eq, ◌==◌, if_cases,
}
use onlyboxes.Routes.Defs.{has, Routes}
use onlyboxes.Routes.Reserve.{reserve_terminal_session_route, claim_terminal_session_route}
use onlyboxes.Routes.Commit.{terminal_session_route_snapshot}
use onlyboxes.Routes.Sweep.{maybe_prune_terminal_session_routes}
use onlyboxes.Dispatch.Defs.{
  Service, Result, ok, err, pause, release_at, is_node_excluded,
  pick_session_for_node_and_capability,
}
use onlyboxes.Dispatch.Pick.{pick_session_for_capability}
use onlyboxes.Dispatch.Route.{
  World, Picked, is_no_capability, node_at, set_routes, with_reservation, give_back_route,
  clear_route, follow_reserved, reserved, reserve_picked, try_reserve, follow_claimed, claimed,
  is_unavailable, pick_for_session,
}
use onlyboxes.Dispatch.Names.{
  name_at, IsNamed, Moves, Moves-refl, Moves-trans, IsFair, pause-Moves, release_at-Moves, Found,
  pick_for_node-Found,
}
use onlyboxes.Dispatch.Fresh.{IsFresh, IsFresh-moved, Chosen, pick-Chosen}

-- The same with a reservation.
abbrev pub Bound : Map (Unit {0}) → Service → Picked → Type 0
Bound e s (t, ok (i, r)) = Moves s t × IsFresh e t i
Bound e s (t, err x) = Moves s t

pub Bound-after :
    (e : Map (Unit {0})) {s t : Service} (x : Picked) → Moves s t → Bound e t x → Bound e s x
Bound-after e (u, ok (i, r)) m h = (Moves-trans m h.0, h.1)
Bound-after e (u, err x) m h = Moves-trans m h

set_routes-Moves : (s : Service) (r : Routes) → Moves s (set_routes s r)
set_routes-Moves s r = record { keeps = λ i n h. h; names = λ h. h }

excluded_trimmed :
    (node : Text) (e : Map (Unit {0}))
    → is_node_excluded node e ≡ false
    → has (lookup (trim_space node) e) ≡ false
unfolding is_node_excluded
excluded_trimmed node e h = h

pub with_reservation-Bound :
    (e : Map (Unit {0})) (s : Service) (r : ℕ) (x : Service × Result ℕ)
    → Chosen e s x
    → Bound e s (with_reservation r x)
with_reservation-Bound e s r (t, ok i) h = h
with_reservation-Bound e s r (t, err x) h = h

module _ (w : World) (fair : IsFair w.gap) (capability id : Text) (now : ℕ) (e : Map (Unit {0}))
    (aware : Bool) where
  paused : (s : Service) → Moves s (pause w.gap s)
  paused s = pause-Moves fair s

  cleared-Moves :
      (s : Service) (node : Text) → Moves s (pause w.gap (clear_route w (pause w.gap s) id node))
  unfolding clear_route
  cleared-Moves s node = Moves-trans (paused s) (
      Moves-trans (set_routes-Moves (pause w.gap s) _)
        (paused (clear_route w (pause w.gap s) id node)))

  give_back-Moves :
      (s : Service) (node : Text) (r : ℕ) → Moves s (give_back_route (pause w.gap s) id node r)
  give_back-Moves s node r = Moves-trans (paused s) (set_routes-Moves (pause w.gap s) _)

  found-IsFresh :
      (t : Service) (i : ℕ) (node : Text)
      → is_node_excluded node e ≡ false
      → name_at t i ≡ some (trim_space node)
      → IsFresh e t i
  found-IsFresh t i node x h = record {
    node = trim_space node;
    named = h;
    trimmed = trim_space_idem node;
    fresh = excluded_trimmed node e x;
  }

  abbrev Retries : (Service → Picked) → Type 0
  Retries retry = (u : Service) → IsNamed u → Bound e u (retry u)

  -- A worker that was found after another's reservation.
  follow_reserved-Bound :
      (s : Service) (node : Text) (r : ℕ) (retry : Service → Picked) (x : Service × Result ℕ)
      → is_node_excluded node e ≡ false
      → IsNamed s
      → Retries retry
      → Found (trim_space node) s x
      → Bound e s (follow_reserved w capability id now e aware node r retry x)
  follow_reserved-Bound s node r retry (t, ok i) x named again h =
      (h.0, found-IsFresh t i node x h.1)
  follow_reserved-Bound s node r retry (t, err y) x named again h =
      let m = Moves-trans h (cleared-Moves t node) in
      if_cases (Bound e s) (is_no_capability y) _ _
        (λ _.
          Bound-after e (retry (pause w.gap (clear_route w (pause w.gap t) id node))) m
            (again _ (m.names named)))
        (λ _. Moves-trans h (give_back-Moves t node r))

  reserved-Bound :
      (i : ℕ) (retry : Service → Picked) (s : Service) (x : Routes × Text × ℕ)
      → IsFresh e s i
      → IsNamed s
      → Retries retry
      → Bound e s (reserved w capability id now e aware i retry s x)
  reserved-Bound i retry s (routes, node, r) f named again =
      let t = set_routes s routes in
      let released = release_at (pause w.gap t) capability i in
      let m : Moves s released =
        Moves-trans (set_routes-Moves s routes)
          (Moves-trans (paused t) (release_at-Moves (pause w.gap t) capability i)) in
      let n : Moves s (pause w.gap released) = Moves-trans m (paused released) in
      let p = pick_session_for_node_and_capability (pause w.gap released) node capability in
      if_cases (Bound e s) (text_eq node (node_at s i)) _ _
        (λ _. (set_routes-Moves s routes, IsFresh-moved i (set_routes-Moves s routes) f))
        (λ _.
          if_cases (Bound e s) (is_node_excluded node e) _ _
            (λ _. Moves-trans m (give_back-Moves released node r))
            (λ x. Bound-after e (follow_reserved w capability id now e aware node r retry p) n (
              follow_reserved-Bound (pause w.gap released) node r retry p x (n.names named) again
                (pick_for_node-Found (pause w.gap released) node capability (n.names named)))))

  reserve_picked-Bound :
      (s : Service) (retry : Service → Picked) (x : Service × Result ℕ)
      → IsNamed s
      → Retries retry
      → Chosen e s x
      → Bound e s (reserve_picked w capability id now e aware retry x)
  reserve_picked-Bound s retry (t, err y) named again h = h
  reserve_picked-Bound s retry (t, ok i) named again h =
      let u = pause w.gap t in
      let m = Moves-trans h.0 (paused t) in
      let x = reserve_terminal_session_route u.routes id (node_at u i) now in
      Bound-after e (reserved w capability id now e aware i retry u x) m
        (reserved-Bound i retry u x (IsFresh-moved i (paused t) h.1) (m.names named) again)

  pub try_reserve-Bound :
      (n : ℕ) (s : Service) → IsNamed s → Bound e s (try_reserve w capability id now e aware n s)
  unfolding try_reserve
  try_reserve-Bound zero s named = Moves-refl s
  try_reserve-Bound (suc n) s named =
      reserve_picked-Bound s (try_reserve w capability id now e aware n)
        (pick_session_for_capability w.gap s capability e aware (w.online s.pauses)) named
        (try_reserve-Bound n)
        (pick-Chosen e w.gap s capability aware (w.online s.pauses) fair named)

  follow_claimed-Bound :
      (s : Service) (node : Text) (r : ℕ) (x : Service × Result ℕ)
      → is_node_excluded node e ≡ false
      → IsNamed s
      → Found (trim_space node) s x
      → Bound e s (follow_claimed w capability id now e aware node r x)
  follow_claimed-Bound s node r (t, ok i) x named h = (h.0, found-IsFresh t i node x h.1)
  follow_claimed-Bound s node r (t, err y) x named h =
      let u = pause w.gap (clear_route w (pause w.gap t) id node) in
      let m = Moves-trans h (cleared-Moves t node) in
      if_cases (Bound e s) (is_no_capability y) _ _
        (λ _.
          if_cases (Bound e s) (r == 0) _ _ (λ _. h)
            (λ _.
              Bound-after e (try_reserve w capability id now e aware 2 u) m
                (try_reserve-Bound 2 u (m.names named))))
        (λ _. Moves-trans h (give_back-Moves t node r))

  pub claimed-Bound :
      (s : Service) (x : Routes × Option (Text × ℕ))
      → IsNamed s
      → Bound e s (claimed w capability id now e aware s x)
  claimed-Bound s (routes, none) named =
      let m = Moves-trans (set_routes-Moves s routes) (paused (set_routes s routes)) in
      let t = pause w.gap (set_routes s routes) in
      Bound-after e (try_reserve w capability id now e aware 2 t) m
        (try_reserve-Bound 2 t (m.names named))
  claimed-Bound s (routes, some (node, r)) named =
      let m = Moves-trans (set_routes-Moves s routes) (paused (set_routes s routes)) in
      let t = pause w.gap (set_routes s routes) in
      let p = pick_session_for_node_and_capability t node capability in
      if_cases (Bound e s) (is_node_excluded node e) _ _ (λ _. Moves-trans m (set_routes-Moves t _))
        (λ x. Bound-after e (follow_claimed w capability id now e aware node r p) m (
          follow_claimed-Bound t node r p x (m.names named)
            (pick_for_node-Found t node capability (m.names named))))

-- The choice for a terminal session.
pub pick_for_session-Bound :
    (w : World) (s : Service) (capability id : Text) (e : Map (Unit {0})) (aware : Bool)
    → IsFair w.gap
    → IsNamed s
    → Bound e s (pick_for_session w s capability id e aware)
unfolding pick_for_session
pick_for_session-Bound w s capability id e aware fair named =
    let now = w.clock s.pauses in
    let a = set_routes s (maybe_prune_terminal_session_routes s.routes now (w.db s.pauses)) in
    let pruned = pause w.gap a in
    let snapshot = terminal_session_route_snapshot pruned.routes id now (w.db pruned.pauses) in
    let b = set_routes pruned snapshot.0 in
    let t = pause w.gap b in
    let u = pause w.gap t in
    let m : Moves s t = Moves-trans (set_routes-Moves s _) (
      Moves-trans (pause-Moves fair a)
        (Moves-trans (set_routes-Moves pruned _) (pause-Moves fair b))) in
    let n : Moves s u = Moves-trans m (pause-Moves fair t) in
    let x = claim_terminal_session_route u.routes id now in
    if_cases (Bound e s) (is_unavailable t snapshot.1) _ _ (λ _. m)
      (λ _.
        Bound-after e (claimed w capability id now e aware u x) n
          (claimed-Bound w fair capability id now e aware u x (n.names named)))
