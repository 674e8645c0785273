-- ===== src/Terminal/Lifecycle.antt =====
-- worker/worker-docker/internal/runner/terminal_exec.go and session_recovery.go: creation, recovery
-- after a restart, and shutdown.
use onlyboxes.Prelude.{
  ℕ, ◌+◌, Bool, true, false, ◌||◌, Option, none, some, List, [], ◌∷◌, ◌++◌, Text, Map, insert,
  remove, length, get_elem?, set, text_eq, ◌==◌, if◌then◌else◌, not,
}
use onlyboxes.Terminal.Defs.{
  Session, Manager, Result, ok, err, current, put, schedule_session_lease_timer,
  stop_session_lease_timer, proxy_cancel, terminal_session_resource_name,
}
use onlyboxes.Terminal.Claim.{release_capacity_reservation, cleanup_session}

-- What the creator writes before it closes `ready`: the address, or the error, from Docker.
unfoldable pub publish : Manager → ℕ → Session → Result Text → Manager
publish m p s (ok ip) = put m p (record s { container_ip = ip; init_err = none; ready = true })
publish m p s (err e) = put m p (record s { container_ip = []; init_err = some e; ready = true })

-- The critical section of `cleanupInactiveCreatedSession`: whether the map's entry was the caller's.
unfoldable pub disown_found : Manager → Text → ℕ → Option (ℕ × Session) → Manager × Bool
disown_found m session_id p none = (m, false)
disown_found m session_id p (some (q, s)) =
    if q == p
    then (
      record m {
        heap = set m.heap q (record (proxy_cancel (stop_session_lease_timer s)) {
          destroying = true;
          retired = true;
        });
        sessions = remove session_id m.sessions;
      },
      true,
    )
    else (m, false)

unfoldable pub disown_inactive_created_session : Manager → ℕ → Session → Manager × Bool
unfolding disown_found
disown_inactive_created_session m p session =
    disown_found m session.session_id p (current m session.session_id)

unfoldable pub recover_existing_found : Manager → ℕ → Option (ℕ × Session) → Manager × Bool
unfolding schedule_session_lease_timer
recover_existing_found m lease_expires_at none = (m, false)
recover_existing_found m lease_expires_at (some (p, s)) = if s.destroying then (m, false) else (
  put m p
      (schedule_session_lease_timer m.closed (record s { lease_expires_at = lease_expires_at })),
  true,
)

-- The first critical section of recovery: whether the session is there and needs no container.
unfoldable pub recover_existing : Manager → Text → ℕ → Manager × Bool
unfolding recover_existing_found
recover_existing m session_id lease_expires_at =
    if m.closed
    then (m, false)
    else recover_existing_found m lease_expires_at (current m session_id)

-- The last critical section of recovery: `m.sessions[sessionID]` is `found`.
module _ (hash : Text → Text) where
  unfoldable pub recovered_session : Text → ℕ → Text → Session
  recovered_session session_id lease_expires_at container_ip = record {
    session_id = session_id;
    container_name = terminal_session_resource_name hash session_id;
    container_ip = container_ip;
    lease_expires_at = lease_expires_at;
    lease_timer = none;
    proxy_cancelled = false;
    inflight = 0;
    destroying = false;
    ready = true;
    init_err = none;
    capacity_reserved = true;
    retired = false;
  }

  unfoldable pub recover_found : Manager → Text → ℕ → Text → Option (ℕ × Session) → Manager × Bool
  unfolding recovered_session schedule_session_lease_timer
  recover_found m session_id lease_expires_at container_ip (some (p, s)) =
      if not (text_eq s.container_name (terminal_session_resource_name hash session_id))
        || s.destroying
      then (m, false)
      else (
        put m p (
            schedule_session_lease_timer m.closed
              (record s { lease_expires_at = lease_expires_at })),
        true,
      )
  recover_found m session_id lease_expires_at container_ip none = (
    record m {
      heap =
          m.heap
          ++ schedule_session_lease_timer m.closed
              (recovered_session session_id lease_expires_at container_ip)
            ∷ [];
      sessions = insert session_id (length m.heap) m.sessions;
      active_session_reservations = m.active_session_reservations + 1;
    },
    true,
  )

  -- Whether the status is RECOVERED, or else INVALID.
  unfoldable pub recover_locked : Manager → Text → ℕ → Text → Manager × Bool
  unfolding recover_found
  recover_locked m session_id lease_expires_at container_ip =
      if m.closed
      then (m, false)
      else recover_found m session_id lease_expires_at container_ip (current m session_id)

-- The sections of `Close`: it bars new sessions, and later takes all that are left.
unfoldable pub begin_close : Manager → Manager
begin_close m = record m { closed = true }

abbrev pub retire_at : ℕ → Option Session → List Session → List Session
retire_at p none heap = heap
retire_at p (some s) heap = set heap p (record (stop_session_lease_timer s) { retired = true })

unfoldable pub retire_all : Map ℕ → List Session → List Session
retire_all [] heap = heap
retire_all ((id, p) ∷ rest) heap = retire_all rest (retire_at p (get_elem? heap p) heap)

unfoldable pub take_all_sessions : Manager → Manager
unfolding retire_all
take_all_sessions m = record m { heap = retire_all m.sessions m.heap; sessions = [] }

-- What `Close` then does with each: a preserved container keeps running.
unfoldable pub close_session : Manager → ℕ → Session → Manager
unfolding release_capacity_reservation cleanup_session
close_session m p s =
    if m.preserve_on_close then release_capacity_reservation m p s else cleanup_session m p s
