-- ===== src/Routes/Refines.antt =====
-- console/internal/grpcserver/terminal_session_routes.go: the routes against the board of phases.
use onlyboxes.Prelude.{
  ℕ, ◌≡◌, refl, sym, ap, ◌∙◌, true, false, Option, none, some, Text, arith, lookup, lookup-insert,
  lookup-remove, trim_space, is_empty, text_eq→eq, ◌==◌,
}
use onlyboxes.Routes.Defs.{
  Route, Routes, put_route, add_route, delete_terminal_session_route_locked, next_reservation,
}
use onlyboxes.Routes.Reserve.{join_route, provisional_route, reserve_found, claim_found}
use onlyboxes.Routes.Spec.{
  Phase, free, provisional, confirmed, Board, Answer, on_node, turn, join_phase, reserve_phase,
  claim_phase, claimed, phase_of, is_tidy, Agrees,
}

-- Both step to states that agree, with the same answer.
abbrev pub Simulates : Routes × Answer → Board × Answer → Type 0
Simulates x y = Agrees x.0 y.0 × (x.1 ≡ y.1)

-- A write to one route, whose phase the board takes.
pub put-Agrees :
    (s : Routes) (b : Board) (id : Text) (t : Route) (p : Phase)
    → is_tidy (some t) ≡ true
    → phase_of (some t) ≡ p
    → Agrees s b
    → Agrees (put_route s id t) (turn b id p)
put-Agrees s b id t p w e a = record {
  tidy = λ i. ground (arith, lookup-insert id i t s.session_to_node, a.tidy i);
  same_phases = λ i. ground (arith, lookup-insert id i t s.session_to_node, a.same_phases i);
  same_seq = a.same_seq;
}

-- A write to one route that keeps its phase.
pub keep-Agrees :
    (s : Routes) (b : Board) (id : Text) (t : Route)
    → is_tidy (some t) ≡ true
    → phase_of (some t) ≡ b.phases id
    → Agrees s b
    → Agrees (put_route s id t) b
keep-Agrees s b id t w e a = record {
  tidy = λ i. ground (arith, lookup-insert id i t s.session_to_node, a.tidy i);
  same_phases =
      λ i. ground (arith, lookup-insert id i t s.session_to_node, a.same_phases i, text_eq→eq id i);
  same_seq = a.same_seq;
}

-- A phase that is there already.
stay-Agrees :
    (s : Routes) (b : Board) (id : Text) (p : Phase)
    → p ≡ b.phases id
    → Agrees s b
    → Agrees s (turn b id p)
stay-Agrees s b id p e a = record {
  tidy = a.tidy;
  same_phases = λ i. ground (arith, a.same_phases i, text_eq→eq id i);
  same_seq = a.same_seq;
}

node_is_named : (r : Route) → is_tidy (some r) ≡ true → is_empty (trim_space r.node_id) ≡ false
node_is_named r w = ground arith

pub delete-Agrees :
    (s : Routes) (b : Board) (id : Text) (r : Route)
    → Agrees s b
    → Agrees (delete_terminal_session_route_locked s id r) (turn b id free)
unfolding delete_terminal_session_route_locked
delete-Agrees s b id r a = record {
  tidy = λ i. ground (arith, lookup-remove id i s.session_to_node, a.tidy i);
  same_phases = λ i. ground (arith, lookup-remove id i s.session_to_node, a.same_phases i);
  same_seq = a.same_seq;
}

pub next_reservation_ne : (n : ℕ) → (next_reservation n == 0) ≡ false
unfolding next_reservation
next_reservation_ne n = ground arith

fresh_is_tidy :
    (node : Text) (now res : ℕ)
    → is_empty (trim_space node) ≡ false
    → (res == 0) ≡ false
    → (is_tidy (some (provisional_route node now res)) ≡ true)
      × (phase_of (some (provisional_route node now res)) ≡ provisional node res 1)
fresh_is_tidy node now res h e = (ground arith, ground arith)

join_is_tidy :
    (now : ℕ) (r : Route)
    → is_tidy (some r) ≡ true
    → (is_tidy (some (join_route now r)) ≡ true)
      × (phase_of (some (join_route now r)) ≡ join_phase (phase_of (some r)))
unfolding join_route
join_is_tidy now r h = (ground arith, ground arith)

-- A reservation of a session that has a route.
reserve_some-Simulates :
    (s : Routes) (b : Board) (id node : Text) (now : ℕ) (r : Route) (p : Phase)
    → is_tidy (some r) ≡ true
    → phase_of (some r) ≡ p
    → b.phases id ≡ p
    → Agrees s b
    → Simulates
        (put_route s id (join_route now r), on_node r.node_id r.reservation_id)
        (reserve_phase b id node p)
reserve_some-Simulates s b id node now r free w e f a = absurd (ground arith)
reserve_some-Simulates s b id node now r (provisional n res uses) w e f a = (
  put-Agrees s b id (join_route now r) _ (join_is_tidy now r w).0
      ((join_is_tidy now r w).1 ∙ ap join_phase e) a,
  ground arith,
)
reserve_some-Simulates s b id node now r (confirmed n res) w e f a = (
  keep-Agrees s b id (join_route now r) (join_is_tidy now r w).0
      ((join_is_tidy now r w).1 ∙ ap join_phase e ∙ sym f) a,
  ground arith,
)

abbrev noted : Routes × Text × ℕ → Routes × Answer
noted r = (r.0, on_node r.1 r.2)

-- A reservation of a session that has none, with the next id of a reservation.
reserve_none-Simulates :
    (s : Routes) (b : Board) (id node : Text) (now n : ℕ)
    → is_empty (trim_space node) ≡ false
    → (n == 0) ≡ false
    → Agrees s b
    → Agrees
        (add_route (record s { reservation_seq = n }) id (provisional_route node now n))
        (turn (record b { seq = n }) id (provisional node n 1))
reserve_none-Simulates s b id node now n e f a =
    let t = provisional_route node now n in
    record {
      tidy = λ i. ground (arith, lookup-insert id i t s.session_to_node, a.tidy i);
      same_phases = λ i. ground (arith, lookup-insert id i t s.session_to_node, a.same_phases i);
      same_seq = refl;
    }

pub reserve_found-Simulates :
    (s : Routes) (b : Board) (id node : Text) (now : ℕ) (o : Option Route)
    → lookup id s.session_to_node ≡ o
    → is_empty (trim_space node) ≡ false
    → Agrees s b
    → Simulates (noted (reserve_found s id node now o)) (reserve_phase b id node (b.phases id))
unfolding reserve_found
reserve_found-Simulates s b id node now none h e a =
    rw (sym (a.same_phases id), h, sym a.same_seq)
      (
        reserve_none-Simulates s b id node now (next_reservation s.reservation_seq) e
            (next_reservation_ne s.reservation_seq) a,
        refl,
      )
reserve_found-Simulates s b id node now (some r) h e a =
    rw (sym (a.same_phases id), h)
      (reserve_some-Simulates s b id node now r (phase_of (some r)) (sym (ap is_tidy h) ∙ a.tidy id)
        refl (sym (a.same_phases id) ∙ ap phase_of h) a)

pub claim_found-Simulates :
    (s : Routes) (b : Board) (id : Text) (now : ℕ) (o : Option Route)
    → lookup id s.session_to_node ≡ o
    → Agrees s b
    → Simulates
        ((claim_found s id now o).0, claimed (claim_found s id now o).1)
        (claim_phase b id (b.phases id))
unfolding claim_found
claim_found-Simulates s b id now none h a = (
  stay-Agrees s b id (join_phase (b.phases id)) (rw (sym (a.same_phases id), h) refl) a,
  rw (sym (a.same_phases id), h) refl,
)
claim_found-Simulates s b id now (some r) h a =
    let w : is_tidy (some r) ≡ true = sym (ap is_tidy h) ∙ a.tidy id in
    rw (sym (a.same_phases id), h, node_is_named r w)
      (
        put-Agrees s b id (join_route now r) _ (join_is_tidy now r w).0 (join_is_tidy now r w).1 a,
        ground arith,
      )
