-- ===== src/Routes/Shared.antt =====
-- console/internal/grpcserver/terminal_session_routes.go: dispatches that share a reservation.
use onlyboxes.Prelude.{
  ℕ, zero, suc, ◌+◌, ◌-◌, ◌≡◌, refl, ap, subst, true, false, ◌&&◌, none, some, Text, arith, lookup,
  lookup-insert_self, lookup-remove_self, trim_space, is_empty, text_eq, text_eq_refl, ltb, ◌==◌,
}
use onlyboxes.Routes.Defs.{
  Route, Routes, has, delete_terminal_session_route_locked, next_reservation,
}
use onlyboxes.Routes.Reserve.{
  still_in_use, removed, join_route, provisional_route, reserve_found,
  reserve_terminal_session_route, claim_found, claim_terminal_session_route,
  clear_reservation_found, clear_terminal_session_route_reservation,
}
use onlyboxes.Routes.Refines.{next_reservation_ne}

-- `n` more dispatches.
abbrev pub claims : ℕ → Text → ℕ → Routes → Routes
claims zero id now s = s
claims (suc n) id now s = claims n id now (claim_terminal_session_route s id now).0

-- `n` of the dispatches fail.
abbrev pub gives : ℕ → Text → Text → ℕ → Routes → Routes
gives zero id node res s = s
gives (suc n) id node res s =
    gives n id node res (clear_terminal_session_route_reservation s id node res).0

-- `uses` dispatches share the reservation.
record Held (id node : Text) (res uses : ℕ) (s : Routes) : Type 0 where
  route : Route
  found : lookup id s.session_to_node ≡ some route
  on_node : route.node_id ≡ node
  is_provisional : route.reservation_id ≡ res
  used : route.provisional_uses ≡ uses

module _ (id node : Text) (res : ℕ) (id_trimmed : trim_space id ≡ id)
    (node_trimmed : trim_space node ≡ node) (named : is_empty id ≡ false)
    (node_named : is_empty node ≡ false) (res_ne : (res == 0) ≡ false) where
  claim-Held :
      (uses now : ℕ) (s : Routes)
      → Held id node res uses s
      → Held id node res (uses + 1) (claim_terminal_session_route s id now).0
  unfolding claim_terminal_session_route claim_found join_route
  claim-Held uses now s h = record {
    route = join_route now h.route;
    found =
        rw (id_trimmed, named, h.found, h.on_node, node_trimmed, node_named)
          (lookup-insert_self id _ s.session_to_node);
    on_node = ground arith;
    is_provisional = ground arith;
    used = ground arith;
  }

  give-Held :
      (uses : ℕ) (s : Routes)
      → Held id node res (uses + 2) s
      → Held id node res (uses + 1) (clear_terminal_session_route_reservation s id node res).0
        × ((clear_terminal_session_route_reservation s id node res).1 ≡ still_in_use)
  unfolding clear_terminal_session_route_reservation clear_reservation_found
  give-Held uses s h =
      let same : (text_eq h.route.node_id node && h.route.reservation_id == res) ≡ true =
        ground (arith, text_eq_refl node) in
      let more : ltb 1 h.route.provisional_uses ≡ true = ground arith in
      (
        record {
          route = record h.route { provisional_uses = h.route.provisional_uses - 1 };
          found =
              rw (id_trimmed, node_trimmed, res_ne, named, node_named, h.found, same, more)
                (lookup-insert_self id _ s.session_to_node);
          on_node = h.on_node;
          is_provisional = h.is_provisional;
          used = ground arith;
        },
        rw (id_trimmed, node_trimmed, res_ne, named, node_named, h.found, same, more) refl,
      )

  last_give :
      (s : Routes)
      → Held id node res 1 s
      → (lookup id (clear_terminal_session_route_reservation s id node res).0.session_to_node
          ≡ none)
        × ((clear_terminal_session_route_reservation s id node res).1 ≡ removed)
  unfolding clear_terminal_session_route_reservation clear_reservation_found
      delete_terminal_session_route_locked
  last_give s h =
      let same : (text_eq h.route.node_id node && h.route.reservation_id == res) ≡ true =
        ground (arith, text_eq_refl node) in
      let last : ltb 1 h.route.provisional_uses ≡ false = ground arith in
      (
        rw (id_trimmed, node_trimmed, res_ne, named, node_named, h.found, same, last)
            (lookup-remove_self id s.session_to_node),
        rw (id_trimmed, node_trimmed, res_ne, named, node_named, h.found, same, last) refl,
      )

  change_uses : {a b : ℕ} {s : Routes} → a ≡ b → Held id node res a s → Held id node res b s
  change_uses {a} {b} {s} e h = subst (λ k. Held id node res k s) e h

  claims-Held :
      (n uses now : ℕ) (s : Routes)
      → Held id node res uses s
      → Held id node res (uses + n) (claims n id now s)
  claims-Held zero uses now s h = change_uses (omega arith) h
  claims-Held (suc n) uses now s h = change_uses (omega arith) (
      claims-Held n (uses + 1) now (claim_terminal_session_route s id now).0
        (claim-Held uses now s h))

  gives-Held :
      (n : ℕ) (s : Routes) → Held id node res (n + 1) s → Held id node res 1 (gives n id node res s)
  gives-Held zero s h = h
  gives-Held (suc n) s h = gives-Held n _ (give-Held n s (change_uses (omega arith) h)).0

  reserve-Held :
      (now : ℕ) (s : Routes)
      → lookup id s.session_to_node ≡ none
      → next_reservation s.reservation_seq ≡ res
      → Held id node res 1 (reserve_terminal_session_route s id node now).0
  unfolding reserve_terminal_session_route reserve_found
  reserve-Held now s h e = record {
    route = provisional_route node now (next_reservation s.reservation_seq);
    found =
        rw (id_trimmed, node_trimmed, named, node_named, h)
          (lookup-insert_self id _ s.session_to_node);
    on_node = refl;
    is_provisional = e;
    used = refl;
  }

-- For a session without a route, and trimmed names that are not blank: when a dispatch has reserved the
-- session and `n` more have joined it, the route is still there after `n` of them have given the
-- reservation back, and the one that gives it back last is told so and leaves no route.
pub last_user_removes :
    (s : Routes) (id node : Text) (now n : ℕ)
    → trim_space id ≡ id
    → trim_space node ≡ node
    → is_empty id ≡ false
    → is_empty node ≡ false
    → lookup id s.session_to_node ≡ none
    → let res = next_reservation s.reservation_seq in
      let t =
        gives n id node res (claims n id now (reserve_terminal_session_route s id node now).0) in
      (has (lookup id t.session_to_node) ≡ true)
      × ((clear_terminal_session_route_reservation t id node res).1 ≡ removed)
      × (lookup id (clear_terminal_session_route_reservation t id node res).0.session_to_node
          ≡ none)
last_user_removes s id node now n h1 h2 h3 h4 h =
    let res = next_reservation s.reservation_seq in
    let ne = next_reservation_ne s.reservation_seq in
    let shared =
      claims-Held id node res h1 h2 h3 h4 ne n 1 now _
        (reserve-Held id node res h1 h2 h3 h4 ne now s h refl) in
    let held =
      gives-Held id node res h1 h2 h3 h4 ne n _
        (change_uses id node res h1 h2 h3 h4 ne (omega arith) shared) in
    let last = last_give id node res h1 h2 h3 h4 ne _ held in (ap has held.found, last.1, last.0)
