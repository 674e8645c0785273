-- ===== src/Routes/Reserve.antt =====
-- console/internal/grpcserver/terminal_session_routes.go: provisional routes. A dispatch reserves the
-- route of a new session, others join the reservation, and each gives it back or confirms it.
use onlyboxes.Prelude.{
  ℕ, ◌+◌, ◌-◌, Bool, true, false, ◌&&◌, ◌||◌, Option, none, some, [], Text, Map, lookup, insert,
  trim_space, is_empty, text_eq, ltb, ◌==◌, if◌then◌else◌,
}
use onlyboxes.Routes.Defs.{
  ready, Route, Routes, put_route, add_route, index_add, index_del,
  delete_terminal_session_route_locked, next_reservation,
}

pub data ReleaseResult : Type 0 where
  not_owned still_in_use removed : ReleaseResult

abbrev pub created_or_now : ℕ → Option Route → ℕ
created_or_now now none = now
created_or_now now (some r) = if ltb 0 r.created_at then r.created_at else now

abbrev pub move_index : Text → Text → Option Route → Map (Map (Unit {0})) → Map (Map (Unit {0}))
move_index id node none index = index
move_index id node (some r) index =
    if text_eq r.node_id node then index else index_del r.node_id id index

-- A confirmed route, which keeps the instant of creation of the one it takes the place of.
abbrev pub bound_route : Text → ℕ → Option Route → Route
bound_route node now existing = record {
  node_id = node;
  last_used = now;
  lease_expires = 0;
  created_at = created_or_now now existing;
  recovery_state = ready;
  reservation_id = 0;
  confirmed_reservation_id = 0;
  provisional_uses = 0;
}

unfoldable pub bind_found : Routes → Text → Text → ℕ → Option Route → Routes
unfolding index_add index_del
bind_found s id node now existing = record s {
  session_to_node = insert id (bound_route node now existing) s.session_to_node;
  node_to_sessions = index_add node id (move_index id node existing s.node_to_sessions);
}

unfoldable pub bind_terminal_session_route : Routes → Text → Text → ℕ → Routes
unfolding bind_found
bind_terminal_session_route s session_id node_id now =
    let id = trim_space session_id in
    let node = trim_space node_id in
    if is_empty id || is_empty node
    then s
    else bind_found s id node now (lookup id s.session_to_node)

-- One more dispatch on the route: it joins the reservation, if the route is provisional.
unfoldable pub join_route : ℕ → Route → Route
join_route now r =
    if r.reservation_id == 0
    then record r { last_used = now }
    else record r { last_used = now; provisional_uses = r.provisional_uses + 1 }

abbrev pub provisional_route : Text → ℕ → ℕ → Route
provisional_route node now reservation = record {
  node_id = node;
  last_used = now;
  lease_expires = 0;
  created_at = 0;
  recovery_state = ready;
  reservation_id = reservation;
  confirmed_reservation_id = 0;
  provisional_uses = 1;
}

unfoldable pub reserve_found : Routes → Text → Text → ℕ → Option Route → Routes × Text × ℕ
unfolding join_route next_reservation
reserve_found s id node now (some r) =
    (put_route s id (join_route now r), r.node_id, r.reservation_id)
reserve_found s id node now none =
    let reservation = next_reservation s.reservation_seq in
    (
      add_route (record s { reservation_seq = reservation }) id
          (provisional_route node now reservation),
      node,
      reservation,
    )

-- The worker of the route, and the reservation that the caller now shares, or 0.
unfoldable pub reserve_terminal_session_route : Routes → Text → Text → ℕ → Routes × Text × ℕ
unfolding reserve_found
reserve_terminal_session_route s session_id preferred_node_id now =
    let id = trim_space session_id in
    let node = trim_space preferred_node_id in
    if is_empty id || is_empty node
    then (s, [], 0)
    else reserve_found s id node now (lookup id s.session_to_node)

unfoldable pub claim_found : Routes → Text → ℕ → Option Route → Routes × Option (Text × ℕ)
unfolding join_route
claim_found s id now none = (s, none)
claim_found s id now (some r) =
    if is_empty (trim_space r.node_id)
    then (s, none)
    else (put_route s id (join_route now r), some (r.node_id, r.reservation_id))

unfoldable pub claim_terminal_session_route : Routes → Text → ℕ → Routes × Option (Text × ℕ)
unfolding claim_found
claim_terminal_session_route s session_id now =
    let id = trim_space session_id in
    if is_empty id then (s, none) else claim_found s id now (lookup id s.session_to_node)

-- The dispatch owns the route: its reservation is the route's, or was when the route was confirmed.
abbrev pub owns : Route → Text → ℕ → Bool
owns r node reservation =
    text_eq r.node_id node
    && (r.reservation_id == reservation || r.confirmed_reservation_id == reservation)

abbrev pub confirmed_route : ℕ → ℕ → Route → Route
confirmed_route now reservation r =
    if reservation == 0 then record r { last_used = now } else record r {
      last_used = now;
      reservation_id = 0;
      confirmed_reservation_id = reservation;
      provisional_uses = 0;
    }

unfoldable pub confirm_found : Routes → Text → Text → ℕ → ℕ → Option Route → Routes × Bool
confirm_found s id node reservation now none = (s, false)
confirm_found s id node reservation now (some r) =
    if owns r node reservation
    then (put_route s id (confirmed_route now reservation r), true)
    else (s, false)

unfoldable pub confirm_terminal_session_route : Routes → Text → Text → ℕ → ℕ → Routes × Bool
unfolding confirm_found
confirm_terminal_session_route s session_id expected_node_id reservation now =
    let id = trim_space session_id in
    let node = trim_space expected_node_id in
    if is_empty id || is_empty node
    then (s, false)
    else confirm_found s id node reservation now (lookup id s.session_to_node)

unfoldable pub touch_found : Routes → Text → ℕ → Option Route → Routes × Option Text
touch_found s id now none = (s, none)
touch_found s id now (some r) =
    if is_empty (trim_space r.node_id)
    then (s, none)
    else (put_route s id (record r { last_used = now }), some r.node_id)

unfoldable pub touch_terminal_session_route : Routes → Text → ℕ → Routes × Option Text
unfolding touch_found
touch_terminal_session_route s session_id now =
    let id = trim_space session_id in
    if is_empty id then (s, none) else touch_found s id now (lookup id s.session_to_node)

unfoldable pub clear_reservation_found :
    Routes → Text → Text → ℕ → Option Route → Routes × ReleaseResult
unfolding delete_terminal_session_route_locked
clear_reservation_found s id node reservation none = (s, not_owned)
clear_reservation_found s id node reservation (some r) =
    if text_eq r.node_id node && r.reservation_id == reservation
    then if ltb 1 r.provisional_uses
      then (put_route s id (record r { provisional_uses = r.provisional_uses - 1 }), still_in_use)
      else (delete_terminal_session_route_locked s id r, removed)
    else (s, not_owned)

unfoldable pub clear_terminal_session_route_reservation :
    Routes → Text → Text → ℕ → Routes × ReleaseResult
unfolding clear_reservation_found
clear_terminal_session_route_reservation s session_id expected_node_id reservation =
    let id = trim_space session_id in
    let node = trim_space expected_node_id in
    if reservation == 0 || is_empty id || is_empty node
    then (s, not_owned)
    else clear_reservation_found s id node reservation (lookup id s.session_to_node)
