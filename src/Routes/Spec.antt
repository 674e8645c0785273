-- ===== src/Routes/Spec.antt =====
-- console/internal/grpcserver/terminal_session_routes.go: what a dispatch sees of the routes, without
-- times, leases, the index and the database. A session is free, is provisional with a reservation that
-- so many dispatches share, or is confirmed by a reservation.
use onlyboxes.Prelude.{
  ℕ, ◌+◌, ◌-◌, ◌≡◌, Bool, true, false, ◌&&◌, ◌||◌, not, Option, none, some, List, [], ◌∷◌, Text,
  lookup, trim_space, is_empty, text_eq, ltb, ◌==◌, if◌then◌else◌,
}
use onlyboxes.Routes.Defs.{Route, Routes, next_reservation}
use onlyboxes.Routes.Reserve.{
  ReleaseResult, not_owned, still_in_use, removed, reserve_terminal_session_route,
  claim_terminal_session_route, confirm_terminal_session_route,
  clear_terminal_session_route_reservation,
}

pub data Phase : Type 0 where
  free : Phase
  provisional : Text → ℕ → ℕ → Phase
  confirmed : Text → ℕ → Phase

pub record Board : Type 0 where
  pub phases : Text → Phase
  pub seq : ℕ

pub data Op : Type 0 where
  reserving : Text → Text → ℕ → Op
  claiming : Text → ℕ → Op
  confirming : Text → Text → ℕ → ℕ → Op
  giving_back : Text → Text → ℕ → Op

pub data Answer : Type 0 where
  no_route : Answer
  on_node : Text → ℕ → Answer
  done : Bool → Answer
  given_back : ReleaseResult → Answer

-- The session's new phase.
abbrev pub turn : Board → Text → Phase → Board
turn b id p = record b { phases = λ i. if text_eq id i then p else b.phases i }

abbrev pub join_phase : Phase → Phase
join_phase free = free
join_phase (provisional node res uses) = provisional node res (uses + 1)
join_phase (confirmed node res) = confirmed node res

abbrev pub answer_of : Phase → Answer
answer_of free = no_route
answer_of (provisional node res uses) = on_node node res
answer_of (confirmed node res) = on_node node 0

abbrev pub reserve_phase : Board → Text → Text → Phase → Board × Answer
reserve_phase b id node free =
    let res = next_reservation b.seq in
    (turn (record b { seq = res }) id (provisional node res 1), on_node node res)
reserve_phase b id node (provisional n res uses) =
    (turn b id (provisional n res (uses + 1)), on_node n res)
reserve_phase b id node (confirmed n res) = (b, on_node n 0)

abbrev pub claim_phase : Board → Text → Phase → Board × Answer
claim_phase b id p = (turn b id (join_phase p), answer_of p)

-- A provisional route is confirmed by its reservation; 0 passes too, and changes no phase.
abbrev pub confirm_phase : Board → Text → Text → ℕ → Phase → Board × Answer
confirm_phase b id node res free = (b, done false)
confirm_phase b id node res (provisional n r uses) =
    if text_eq n node && r == res
    then (turn b id (confirmed n res), done true)
    else (b, done (text_eq n node && res == 0))
confirm_phase b id node res (confirmed n r) = (b, done (text_eq n node && (res == 0 || r == res)))

abbrev pub give_back_phase : Board → Text → Text → ℕ → Phase → Board × Answer
give_back_phase b id node res (provisional n r uses) =
    if text_eq n node && r == res
    then if ltb 1 uses
      then (turn b id (provisional n r (uses - 1)), given_back still_in_use)
      else (turn b id free, given_back removed)
    else (b, given_back not_owned)
give_back_phase b id node res _ = (b, given_back not_owned)

-- What an operation does to the phases, and what it answers.
abbrev pub act_board : Op → Board → Board × Answer
act_board (reserving id node now) b =
    if is_empty (trim_space id) || is_empty (trim_space node)
    then (b, on_node [] 0)
    else reserve_phase b (trim_space id) (trim_space node) (b.phases (trim_space id))
act_board (claiming id now) b =
    if is_empty (trim_space id)
    then (b, no_route)
    else claim_phase b (trim_space id) (b.phases (trim_space id))
act_board (confirming id node res now) b =
    if is_empty (trim_space id) || is_empty (trim_space node)
    then (b, done false)
    else confirm_phase b (trim_space id) (trim_space node) res (b.phases (trim_space id))
act_board (giving_back id node res) b =
    if res == 0 || is_empty (trim_space id) || is_empty (trim_space node)
    then (b, given_back not_owned)
    else give_back_phase b (trim_space id) (trim_space node) res (b.phases (trim_space id))

abbrev pub claimed : Option (Text × ℕ) → Answer
claimed none = no_route
claimed (some (node, res)) = on_node node res

-- The source's operations.
abbrev pub act : Op → Routes → Routes × Answer
act (reserving id node now) s =
    let r = reserve_terminal_session_route s id node now in (r.0, on_node r.1 r.2)
act (claiming id now) s = let r = claim_terminal_session_route s id now in (r.0, claimed r.1)
act (confirming id node res now) s =
    let r = confirm_terminal_session_route s id node res now in (r.0, done r.1)
act (giving_back id node res) s =
    let r = clear_terminal_session_route_reservation s id node res in (r.0, given_back r.1)

abbrev pub play : List Op → Routes → List Answer
play [] s = []
play (o ∷ os) s = (act o s).1 ∷ play os (act o s).0

abbrev pub play_board : List Op → Board → List Answer
play_board [] b = []
play_board (o ∷ os) b = (act_board o b).1 ∷ play_board os (act_board o b).0

abbrev pub phase_of : Option Route → Phase
phase_of none = free
phase_of (some r) =
    if r.reservation_id == 0
    then confirmed r.node_id r.confirmed_reservation_id
    else provisional r.node_id r.reservation_id r.provisional_uses

-- A route names a worker, and a provisional one has not been confirmed before.
abbrev pub is_tidy : Option Route → Bool
is_tidy none = true
is_tidy (some r) =
    not (is_empty (trim_space r.node_id))
    && (r.reservation_id == 0 || r.confirmed_reservation_id == 0)

-- The routes and the board agree.
pub record Agrees (s : Routes) (b : Board) : Type 0 where
  pub tidy : (i : Text) → is_tidy (lookup i s.session_to_node) ≡ true
  pub same_phases : (i : Text) → phase_of (lookup i s.session_to_node) ≡ b.phases i
  pub same_seq : s.reservation_seq ≡ b.seq
