-- ===== src/Routes/Hazards.antt =====
-- console/internal/grpcserver/terminal_session_routes.go: a reservation id of 0 on a provisional route.
use onlyboxes.Prelude.{
  ℕ, ◌≡◌, refl, true, false, none, some, Text, arith, lookup, lookup-insert_self, trim_space,
  is_empty, text_eq_refl, ◌==◌,
}
use onlyboxes.Routes.Defs.{Route, Db, absent, Routes}
use onlyboxes.Routes.Reserve.{owns}
use onlyboxes.Routes.Commit.{
  leased, committed, commit_found, commit_confirmed_terminal_session_route,
}

-- For trimmed names that are not blank, and a provisional route that was never confirmed: where no
-- store is set, a dispatch without a reservation (0), whose result has a lease, confirms the route of
-- the dispatch that reserved it. That dispatch's own commit is then refused, whatever its lease.
pub commit_without_reservation :
    (s : Routes) (id node : Text) (r : Route) (lease now later_lease later : ℕ) (db : Db)
    → trim_space id ≡ id
    → trim_space node ≡ node
    → is_empty id ≡ false
    → is_empty node ≡ false
    → (lease == 0) ≡ false
    → (later_lease == 0) ≡ false
    → lookup id s.session_to_node ≡ some r
    → r.node_id ≡ node
    → (r.reservation_id == 0) ≡ false
    → r.confirmed_reservation_id ≡ 0
    → let t = commit_confirmed_terminal_session_route s id node 0 lease now absent in
      (t.1 ≡ true)
      × (commit_confirmed_terminal_session_route t.0 id node r.reservation_id later_lease later db
          ≡ (t.0, false, none))
unfolding commit_confirmed_terminal_session_route commit_found
commit_without_reservation s id node r lease now later_lease later db h1 h2 h3 h4 l1 l2 h on_node ne
      fresh =
    let first : owns r node 0 ≡ true = ground (arith, text_eq_refl node) in
    let next = committed 0 now (leased lease now r) in
    let second : owns next node r.reservation_id ≡ false = ground arith in
    rw (h1, h2, h3, h4, l1, l2, h, first, lookup-insert_self id next s.session_to_node, second)
      (refl, refl)
