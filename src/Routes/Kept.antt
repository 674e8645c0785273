-- ===== src/Routes/Kept.antt =====
-- console/internal/grpcserver/terminal_session_routes.go: the index under each operation on one route.
use onlyboxes.Prelude.{
  ℕ, ◌≡◌, refl, Bool, ◌&&◌, ◌||◌, Option, none, some, Text, arith, lookup, lookup-insert, text_eq,
  text_eq→eq, text_eq_iff, trim_space, is_empty, ltb, ◌==◌, if_cases,
}
use onlyboxes.Routes.Defs.{Route, Routes, next_reservation}
use onlyboxes.Routes.Reserve.{
  ReleaseResult, move_index, bound_route, bind_found, bind_terminal_session_route, join_route,
  provisional_route, reserve_found, reserve_terminal_session_route, claim_found,
  claim_terminal_session_route, owns, confirmed_route, confirm_found,
  confirm_terminal_session_route, touch_found, touch_terminal_session_route,
  clear_reservation_found, clear_terminal_session_route_reservation,
}
use onlyboxes.Routes.Index.{
  IsIndexed, member-add, member-del, put_route-IsIndexed, add_route-IsIndexed,
  delete_locked-IsIndexed,
}

join_route_same : (now : ℕ) (r : Route) → (join_route now r).node_id ≡ r.node_id
unfolding join_route
join_route_same now r = ground arith

confirmed_route_same : (now res : ℕ) (r : Route) → (confirmed_route now res r).node_id ≡ r.node_id
confirmed_route_same now res r = ground arith

bind_found-IsIndexed :
    (s : Routes) (id node : Text) (now : ℕ) (o : Option Route)
    → lookup id s.session_to_node ≡ o
    → IsIndexed s
    → IsIndexed (bind_found s id node now o)
unfolding bind_found
bind_found-IsIndexed s id node now none h v n i = ground (
  arith,
  h,
  v n i,
  lookup-insert id i (bound_route node now none) s.session_to_node,
  text_eq→eq id i,
  text_eq_iff node n,
  member-add node id n i s.node_to_sessions,
)
bind_found-IsIndexed s id node now (some r) h v n i = ground (
  arith,
  h,
  v n i,
  lookup-insert id i (bound_route node now (some r)) s.session_to_node,
  text_eq→eq id i,
  text_eq_iff node n,
  text_eq_iff r.node_id node,
  text_eq_iff r.node_id n,
  member-add node id n i (move_index id node (some r) s.node_to_sessions),
  member-del r.node_id id n i s.node_to_sessions,
)

pub bind-IsIndexed :
    (s : Routes) (id node : Text) (now : ℕ)
    → IsIndexed s
    → IsIndexed (bind_terminal_session_route s id node now)
unfolding bind_terminal_session_route
bind-IsIndexed s id node now v =
    if_cases IsIndexed (is_empty (trim_space id) || is_empty (trim_space node)) _ _ (λ _. v)
      (λ _.
        bind_found-IsIndexed s (trim_space id) (trim_space node) now
          (lookup (trim_space id) s.session_to_node) refl v)

reserve_found-IsIndexed :
    (s : Routes) (id node : Text) (now : ℕ) (o : Option Route)
    → lookup id s.session_to_node ≡ o
    → IsIndexed s
    → IsIndexed (reserve_found s id node now o).0
unfolding reserve_found
reserve_found-IsIndexed s id node now (some r) h v =
    put_route-IsIndexed s id r (join_route now r) h (join_route_same now r) v
reserve_found-IsIndexed s id node now none h v =
    let res = next_reservation s.reservation_seq in
    add_route-IsIndexed (record s { reservation_seq = res }) id (provisional_route node now res) h v

pub reserve-IsIndexed :
    (s : Routes) (id node : Text) (now : ℕ)
    → IsIndexed s
    → IsIndexed (reserve_terminal_session_route s id node now).0
unfolding reserve_terminal_session_route
reserve-IsIndexed s id node now v =
    if_cases (λ (r : Routes × Text × ℕ). IsIndexed r.0)
      (is_empty (trim_space id) || is_empty (trim_space node)) _ _ (λ _. v)
      (λ _.
        reserve_found-IsIndexed s (trim_space id) (trim_space node) now
          (lookup (trim_space id) s.session_to_node) refl v)

claim_found-IsIndexed :
    (s : Routes) (id : Text) (now : ℕ) (o : Option Route)
    → lookup id s.session_to_node ≡ o
    → IsIndexed s
    → IsIndexed (claim_found s id now o).0
unfolding claim_found
claim_found-IsIndexed s id now none h v = v
claim_found-IsIndexed s id now (some r) h v =
    if_cases (λ (x : Routes × Option (Text × ℕ)). IsIndexed x.0) (is_empty (trim_space r.node_id)) _
      _ (λ _. v) (λ _. put_route-IsIndexed s id r (join_route now r) h (join_route_same now r) v)

pub claim-IsIndexed :
    (s : Routes) (id : Text) (now : ℕ)
    → IsIndexed s
    → IsIndexed (claim_terminal_session_route s id now).0
unfolding claim_terminal_session_route
claim-IsIndexed s id now v =
    if_cases (λ (x : Routes × Option (Text × ℕ)). IsIndexed x.0) (is_empty (trim_space id)) _ _
      (λ _. v)
      (λ _.
        claim_found-IsIndexed s (trim_space id) now (lookup (trim_space id) s.session_to_node) refl
          v)

confirm_found-IsIndexed :
    (s : Routes) (id node : Text) (res now : ℕ) (o : Option Route)
    → lookup id s.session_to_node ≡ o
    → IsIndexed s
    → IsIndexed (confirm_found s id node res now o).0
unfolding confirm_found
confirm_found-IsIndexed s id node res now none h v = v
confirm_found-IsIndexed s id node res now (some r) h v =
    if_cases (λ (x : Routes × Bool). IsIndexed x.0) (owns r node res) _ _
      (λ _.
        put_route-IsIndexed s id r (confirmed_route now res r) h (confirmed_route_same now res r) v)
      (λ _. v)

pub confirm-IsIndexed :
    (s : Routes) (id node : Text) (res now : ℕ)
    → IsIndexed s
    → IsIndexed (confirm_terminal_session_route s id node res now).0
unfolding confirm_terminal_session_route
confirm-IsIndexed s id node res now v =
    if_cases (λ (x : Routes × Bool). IsIndexed x.0)
      (is_empty (trim_space id) || is_empty (trim_space node)) _ _ (λ _. v)
      (λ _.
        confirm_found-IsIndexed s (trim_space id) (trim_space node) res now
          (lookup (trim_space id) s.session_to_node) refl v)

touch_found-IsIndexed :
    (s : Routes) (id : Text) (now : ℕ) (o : Option Route)
    → lookup id s.session_to_node ≡ o
    → IsIndexed s
    → IsIndexed (touch_found s id now o).0
unfolding touch_found
touch_found-IsIndexed s id now none h v = v
touch_found-IsIndexed s id now (some r) h v =
    if_cases (λ (x : Routes × Option Text). IsIndexed x.0) (is_empty (trim_space r.node_id)) _ _
      (λ _. v) (λ _. put_route-IsIndexed s id r (record r { last_used = now }) h refl v)

pub touch-IsIndexed :
    (s : Routes) (id : Text) (now : ℕ)
    → IsIndexed s
    → IsIndexed (touch_terminal_session_route s id now).0
unfolding touch_terminal_session_route
touch-IsIndexed s id now v =
    if_cases (λ (x : Routes × Option Text). IsIndexed x.0) (is_empty (trim_space id)) _ _ (λ _. v)
      (λ _.
        touch_found-IsIndexed s (trim_space id) now (lookup (trim_space id) s.session_to_node) refl
          v)

clear_reservation_found-IsIndexed :
    (s : Routes) (id node : Text) (res : ℕ) (o : Option Route)
    → lookup id s.session_to_node ≡ o
    → IsIndexed s
    → IsIndexed (clear_reservation_found s id node res o).0
unfolding clear_reservation_found
clear_reservation_found-IsIndexed s id node res none h v = v
clear_reservation_found-IsIndexed s id node res (some r) h v =
    if_cases (λ (x : Routes × ReleaseResult). IsIndexed x.0)
      (text_eq r.node_id node && r.reservation_id == res) _ _
      (λ _.
        if_cases (λ (x : Routes × ReleaseResult). IsIndexed x.0) (ltb 1 r.provisional_uses) _ _
          (λ _. put_route-IsIndexed s id r _ h refl v) (λ _. delete_locked-IsIndexed s id r h v))
      (λ _. v)

pub clear_reservation-IsIndexed :
    (s : Routes) (id node : Text) (res : ℕ)
    → IsIndexed s
    → IsIndexed (clear_terminal_session_route_reservation s id node res).0
unfolding clear_terminal_session_route_reservation
clear_reservation-IsIndexed s id node res v =
    if_cases (λ (x : Routes × ReleaseResult). IsIndexed x.0)
      (res == 0 || is_empty (trim_space id) || is_empty (trim_space node)) _ _ (λ _. v)
      (λ _.
        clear_reservation_found-IsIndexed s (trim_space id) (trim_space node) res
          (lookup (trim_space id) s.session_to_node) refl v)
