-- ===== src/Routes/Runs.antt =====
-- console/internal/grpcserver/terminal_session_routes.go: runs of the routes against runs of the board.
use onlyboxes.Prelude.{
  ℕ, ◌≡◌, refl, ap, ◌∙◌, Bool, false, ◌||◌, List, [], ◌∷◌, Map, arith, lookup, trim_space,
  trim_space_idem, is_empty, ◌==◌, Bool-cases, inl, inr,
}
use onlyboxes.Routes.Defs.{StoredRoute, Routes}
use onlyboxes.Routes.Reserve.{
  reserve_terminal_session_route, claim_terminal_session_route, confirm_terminal_session_route,
  clear_terminal_session_route_reservation,
}
use onlyboxes.Routes.Spec.{
  free, Board, Op, reserving, claiming, confirming, giving_back, act_board, act, play, play_board,
  Agrees,
}
use onlyboxes.Routes.Refines.{Simulates, reserve_found-Simulates, claim_found-Simulates}
use onlyboxes.Routes.Confirms.{confirm_found-Simulates, give_back_found-Simulates}
use onlyboxes.Routes.Steps.{new_routes}

or_right : (a b : Bool) → (a || b) ≡ false → b ≡ false
or_right a b h = ground arith

or_left : (a b : Bool) → (a || b) ≡ false → a ≡ false
or_left a b h = ground arith

act-Simulates : (o : Op) (s : Routes) (b : Board) → Agrees s b → Simulates (act o s) (act_board o b)
unfolding reserve_terminal_session_route claim_terminal_session_route confirm_terminal_session_route
    clear_terminal_session_route_reservation
act-Simulates (reserving id node now) s b a =
    elim (Bool-cases (is_empty (trim_space id) || is_empty (trim_space node))) [
      | inl e ↦ rw e (a, refl)
      | inr e ↦ rw e (
          reserve_found-Simulates s b (trim_space id) (trim_space node) now
            (lookup (trim_space id) s.session_to_node) refl
            (ap is_empty (trim_space_idem node) ∙ or_right (is_empty (trim_space id)) _ e) a)
    ]
act-Simulates (claiming id now) s b a = elim (Bool-cases (is_empty (trim_space id))) [
  | inl e ↦ rw e (a, refl)
  | inr e ↦ rw e (
      claim_found-Simulates s b (trim_space id) now (lookup (trim_space id) s.session_to_node) refl
        a)
]
act-Simulates (confirming id node res now) s b a =
    elim (Bool-cases (is_empty (trim_space id) || is_empty (trim_space node))) [
      | inl e ↦ rw e (a, refl)
      | inr e ↦ rw e (
          confirm_found-Simulates s b (trim_space id) (trim_space node) res now
            (lookup (trim_space id) s.session_to_node) refl a)
    ]
act-Simulates (giving_back id node res) s b a =
    elim (Bool-cases (res == 0 || is_empty (trim_space id) || is_empty (trim_space node))) [
      | inl e ↦ rw e (a, refl)
      | inr e ↦ rw e (
          give_back_found-Simulates s b (trim_space id) (trim_space node) res
            (lookup (trim_space id) s.session_to_node) refl
            (or_left (res == 0) (is_empty (trim_space id))
              (or_left (res == 0 || is_empty (trim_space id)) (is_empty (trim_space node)) e))
            a)
    ]

play_simulates : (os : List Op) (s : Routes) (b : Board) → Agrees s b → play os s ≡ play_board os b
play_simulates [] s b a = refl
play_simulates (o ∷ os) s b a =
    let step = act-Simulates o s b a in
    rw (step.1, play_simulates os (act o s).0 (act_board o b).0 step.0) refl

-- No session has a route, and no reservation was made.
abbrev pub new_board : Board
new_board = record { phases = λ i. free; seq = 0 }

new_routes-Agrees : (ttl : ℕ) (rows : Map StoredRoute) → Agrees (new_routes ttl rows) new_board
new_routes-Agrees ttl rows = record {
  tidy = λ i. unfold lookup in refl;
  same_phases = λ i. unfold lookup in refl;
  same_seq = refl;
}

-- Whatever dispatches reserving, claiming, confirming and give back routes, in whatever order and at whatever
-- times, from a new table on: what each of them is answered is what the board of phases answers, where
-- a session is free, provisional with a count of users, or confirmed.
pub play-refines :
    (os : List Op) (ttl : ℕ) (rows : Map StoredRoute)
    → play os (new_routes ttl rows) ≡ play_board os new_board
play-refines os ttl rows =
    play_simulates os (new_routes ttl rows) new_board (new_routes-Agrees ttl rows)
