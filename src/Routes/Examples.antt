-- ===== src/Routes/Examples.antt =====
-- console/internal/grpcserver/terminal_session_routes.go: the theorems at small concrete tables.
use onlyboxes.Prelude.{
  ◌≡◌, refl, true, false, none, some, List, [], ◌∷◌, Text, codes, lookup, trim_space, trim_left,
  trim_right, is_space, text_eq, is_empty, if◌then◌else◌, ◌||◌,
}
use onlyboxes.Routes.Defs.{runs, absent, Routes, has, next_reservation}
use onlyboxes.Routes.Reserve.{
  provisional_route, reserve_terminal_session_route, clear_terminal_session_route_reservation,
  removed,
}
use onlyboxes.Routes.Commit.{commit_confirmed_terminal_session_route}
use onlyboxes.Routes.Sweep.{delete_terminal_session_routes_by_node, is_failure}
use onlyboxes.Routes.Index.{IsIndexed}
use onlyboxes.Routes.Steps.{new_routes, Step, Reach, start, next, Reach-IsIndexed}
use onlyboxes.Routes.Steps
use onlyboxes.Routes.ByNode.{scanned, delete_by_node-scanned}
use onlyboxes.Routes.Spec.{Op, reserving, claiming, confirming, giving_back, play, play_board}
use onlyboxes.Routes.Runs.{new_board, play-refines}
use onlyboxes.Routes.Shared.{claims, gives, last_user_removes}
use onlyboxes.Routes.Hazards.{commit_without_reservation}

abbrev shell : Text
shell = codes "shell"

abbrev box : Text
box = codes "box"

abbrev empty_routes : Routes
empty_routes = new_routes 1000 []

abbrev reserved_routes : Routes
reserved_routes = (reserve_terminal_session_route empty_routes shell box 10).0

abbrev reserved_Reach : Reach reserved_routes
reserved_Reach = next (start 1000 []) (Steps.reserve_route empty_routes shell box 10)

Reach-IsIndexed_example : IsIndexed reserved_routes
Reach-IsIndexed_example = Reach-IsIndexed reserved_routes reserved_Reach

reserved-IsIndexed : IsIndexed reserved_routes
reserved-IsIndexed = Reach-IsIndexed reserved_routes reserved_Reach

delete_by_node-scanned_example :
    lookup shell (delete_terminal_session_routes_by_node reserved_routes box runs).0.session_to_node
    ≡ (if is_empty (trim_space box) || is_failure runs
        then lookup shell reserved_routes.session_to_node
        else scanned (trim_space box) (lookup shell reserved_routes.session_to_node))
delete_by_node-scanned_example =
    delete_by_node-scanned reserved_routes box runs shell reserved-IsIndexed

abbrev two_users : List Op
two_users =
    reserving shell box 10
    ∷ claiming shell 11
    ∷ giving_back shell box 1
    ∷ confirming shell box 1 12
    ∷ claiming shell 13
    ∷ []

play-refines_example : play two_users (new_routes 1000 []) ≡ play_board two_users new_board
play-refines_example = play-refines two_users 1000 []

shell_trimmed : trim_space shell ≡ shell
unfolding trim_space trim_left trim_right is_space
shell_trimmed = refl

box_trimmed : trim_space box ≡ box
unfolding trim_space trim_left trim_right is_space
box_trimmed = refl

last_user_removes_example :
    let res = next_reservation 0 in
    let t =
      gives 2 shell box res
        (claims 2 shell 10 (reserve_terminal_session_route empty_routes shell box 10).0) in
    (has (lookup shell t.session_to_node) ≡ true)
    × ((clear_terminal_session_route_reservation t shell box res).1 ≡ removed)
    × (lookup shell (clear_terminal_session_route_reservation t shell box res).0.session_to_node
        ≡ none)
last_user_removes_example =
    last_user_removes empty_routes shell box 10 2 shell_trimmed box_trimmed refl refl
      (unfold lookup in refl)

abbrev provisional_routes : Routes
provisional_routes = record empty_routes {
  session_to_node = (shell, provisional_route box 10 7) ∷ [];
  node_to_sessions = (box, (shell, tt) ∷ []) ∷ [];
}

provisional_found :
    lookup shell provisional_routes.session_to_node ≡ some (provisional_route box 10 7)
unfolding lookup text_eq
provisional_found = refl

commit_without_reservation_example :
    let t = commit_confirmed_terminal_session_route provisional_routes shell box 0 500 20 absent in
    (t.1 ≡ true)
    × (commit_confirmed_terminal_session_route t.0 shell box 7 600 30 runs ≡ (t.0, false, none))
commit_without_reservation_example =
    commit_without_reservation provisional_routes shell box (provisional_route box 10 7) 500 20 600
      30 runs shell_trimmed box_trimmed refl refl refl refl provisional_found refl refl refl
