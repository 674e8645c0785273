-- ===== src/Terminal/Claim.antt =====
-- worker/worker-docker/internal/runner/terminal_exec.go: the critical sections by which commands
-- take and give back a session.
use onlyboxes.Prelude.{
  ℕ, ◌+◌, Bool, true, false, ◌&&◌, Option, none, some, [], ◌∷◌, ◌++◌, Text, insert, remove, length,
  set, insert, trim_space, is_empty, ltb, leb, ◌==◌, if◌then◌else◌, not,
}
use onlyboxes.Terminal.Defs.{
  Session, Manager, Result, ok, err, execution_failed, session_not_found, session_busy,
  session_capacity_exceeded, current, put, schedule_session_lease_timer, stop_session_lease_timer,
  proxy_cancel, terminal_session_resource_name, force_remove_container, dec,
}

module _ (hash : Text → Text) where
  unfoldable pub new_session : Text → ℕ → Session
  new_session session_id lease_target = record {
    session_id = session_id;
    container_name = terminal_session_resource_name hash session_id;
    container_ip = [];
    lease_expires_at = lease_target;
    lease_timer = none;
    proxy_cancelled = false;
    inflight = 1;
    destroying = false;
    ready = false;
    init_err = none;
    capacity_reserved = true;
    retired = false;
  }

  -- The pointer of the new session, whose creation the caller now owes.
  unfoldable pub new_session_locked : Manager → Text → ℕ → Manager × Result ℕ
  unfolding new_session schedule_session_lease_timer
  new_session_locked m session_id lease_target =
      if ltb 0 m.max_active_sessions && leb m.max_active_sessions m.active_session_reservations
      then (m, err session_capacity_exceeded)
      else (
        record m {
          heap =
              m.heap
              ++ schedule_session_lease_timer m.closed (new_session session_id lease_target) ∷ [];
          sessions = insert session_id (length m.heap) m.sessions;
          active_session_reservations = m.active_session_reservations + 1;
          create_wg = m.create_wg + 1;
        },
        ok (length m.heap),
      )

  abbrev pub as_created : Manager × Result ℕ → Manager × Result (ℕ × Bool)
  as_created (m, ok p) = (m, ok (p, true))
  as_created (m, err e) = (m, err e)

  -- The session that is in use, with one more command and a lease that does not get shorter.
  unfoldable pub take_slot : Bool → Session → ℕ → Session
  unfolding schedule_session_lease_timer
  take_slot closed s lease_target =
      let taken : Session = record s { inflight = s.inflight + 1 } in
      if ltb s.lease_expires_at lease_target
      then schedule_session_lease_timer closed (record taken { lease_expires_at = lease_target })
      else taken

  unfoldable pub claim_found :
      Manager → Text → ℕ → Bool → Option (ℕ × Session) → Manager × Result (ℕ × Bool)
  unfolding take_slot
  claim_found m session_id lease_target create_if_missing (some (p, s)) =
      if s.destroying
      then (m, err session_not_found)
      else if leb m.session_max_inflight s.inflight
      then (m, err session_busy)
      else (put m p (take_slot m.closed s lease_target), ok (p, false))
  claim_found m session_id lease_target create_if_missing none =
      if create_if_missing
      then as_created (new_session_locked m session_id lease_target)
      else (m, err session_not_found)

  -- `uuid` is the id that the call of `uuid.NewString` gives.
  unfoldable pub claim_session : Manager → Text → ℕ → Bool → Text → Manager × Result (ℕ × Bool)
  claim_session m session_id lease_target create_if_missing uuid =
      if m.closed
      then (m, err execution_failed)
      else if is_empty session_id
      then as_created (new_session_locked m uuid lease_target)
      else claim_found m session_id lease_target create_if_missing (current m session_id)

-- The session is the map's, and usable.
unfoldable pub session_is_active : Manager → ℕ → Session → Bool
session_is_active m p session = elim (current m session.session_id) [
  | none ↦ false
  | some (q, s) ↦ q == p && not s.destroying && not m.closed
]

-- Deletes the map's entry; the caller goes on to `cleanupTrackedSession`.
abbrev pub retire : Manager → Text → ℕ → Session → Manager
retire m session_id p s = record m {
  heap = set m.heap p (record s { retired = true });
  sessions = remove session_id m.sessions;
  cleanup_wg = m.cleanup_wg + 1;
}

unfoldable pub release_found : Manager → Text → Option (ℕ × Session) → Manager × Option ℕ × Option ℕ
release_found m session_id none = (m, none, none)
release_found m session_id (some (p, s)) =
    let released : Session = record s { inflight = dec s.inflight } in
    if s.destroying && released.inflight == 0
    then (retire m session_id p released, some s.lease_expires_at, some p)
    else (put m p released, some s.lease_expires_at, none)

-- The lease if the id is known, and the session that the caller must clean up.
unfoldable pub release_session : Manager → Text → Manager × Option ℕ × Option ℕ
unfolding release_found
release_session m session_id =
    let id = trim_space session_id in
    if is_empty id then (m, none, none) else release_found m id (current m id)

abbrev pub dying_session : Session → Session
dying_session s =
    record (proxy_cancel (stop_session_lease_timer (record s { destroying = true }))) {
      inflight = dec s.inflight;
    }

unfoldable pub release_and_destroy_found :
    Manager → Text → Option (ℕ × Session) → Manager × Option ℕ
release_and_destroy_found m session_id none = (m, none)
release_and_destroy_found m session_id (some (p, s)) =
    let dying : Session = dying_session s in
    if dying.inflight == 0 then (retire m session_id p dying, some p) else (put m p dying, none)

unfoldable pub release_and_destroy_session : Manager → Text → Manager × Option ℕ
unfolding release_and_destroy_found
release_and_destroy_session m session_id =
    let id = trim_space session_id in
    if is_empty id then (m, none) else release_and_destroy_found m id (current m id)

unfoldable pub release_capacity_reservation : Manager → ℕ → Session → Manager
release_capacity_reservation m p s =
    if s.capacity_reserved
    then record m {
      heap = set m.heap p (record s { capacity_reserved = false });
      active_session_reservations = dec m.active_session_reservations;
    }
    else m

unfoldable pub cleanup_session : Manager → ℕ → Session → Manager
unfolding release_capacity_reservation force_remove_container
cleanup_session m p s =
    let cancelled = proxy_cancel s in
    release_capacity_reservation (force_remove_container (put m p cancelled) s.container_name) p
      cancelled

unfoldable pub cleanup_tracked_session : Manager → ℕ → Session → Manager
unfolding cleanup_session
cleanup_tracked_session m p s =
    let cleaned = cleanup_session m p s in record cleaned { cleanup_wg = dec cleaned.cleanup_wg }
