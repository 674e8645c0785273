-- ===== src/Terminal/Lease.antt =====
-- worker/worker-docker/internal/runner/terminal_exec.go: renewal and expiry of leases.
use onlyboxes.Prelude.{
  ℕ, ◌+◌, Bool, true, false, ◌||◌, Option, none, some, List, [], ◌∷◌, ◌++◌, Text, Map, trim_space,
  is_empty, ltb, leb, ◌==◌, if◌then◌else◌, ℤ, not,
}
use onlyboxes.Terminal.Defs.{
  Session, Manager, Result, ok, err, Error, execution_failed, invalid_payload, session_not_found,
  current, put, schedule_session_lease_timer, stop_session_lease_timer, proxy_cancel,
  resolve_lease_duration,
}
use onlyboxes.Terminal.Claim.{retire}

unfoldable pub extend_lease : Bool → Session → ℕ → Session
unfolding schedule_session_lease_timer
extend_lease closed s lease_target =
    if ltb s.lease_expires_at lease_target
    then schedule_session_lease_timer closed (record s { lease_expires_at = lease_target })
    else s

unfoldable pub renew_found : Manager → ℕ → ℕ → Option (ℕ × Session) → Manager × Result ℕ
unfolding extend_lease
renew_found m now lease_target none = (m, err session_not_found)
renew_found m now lease_target (some (p, s)) =
    if s.destroying || leb s.lease_expires_at now
    then (m, err session_not_found)
    else let renewed : Session = extend_lease m.closed s lease_target in
      (put m p renewed, ok renewed.lease_expires_at)

abbrev pub renew_for : Manager → Text → ℕ → Result ℕ → Manager × Result ℕ
renew_for m id now (err e) = (m, err e)
renew_for m id now (ok duration) =
    if m.closed
    then (m, err execution_failed)
    else renew_found m now (now + duration) (current m id)

-- The result is the lease that the session has now.
unfoldable pub renew_lease : Manager → Text → ℤ → ℕ → Manager × Result ℕ
unfolding renew_found
renew_lease m session_id lease_ttl_sec now =
    let id = trim_space session_id in
    if is_empty id
    then (m, err invalid_payload)
    else renew_for m id now (resolve_lease_duration m (some lease_ttl_sec))

-- What every path that ends an expired session writes to it.
abbrev pub expired_session : Session → Session
expired_session s = proxy_cancel (stop_session_lease_timer (record s { destroying = true }))

unfoldable pub expire_found : Manager → ℕ → Text → ℕ → Option (ℕ × Session) → Manager × Option ℕ
unfolding schedule_session_lease_timer
expire_found m now session_id p none = (m, none)
expire_found m now session_id p (some (q, s)) =
    if m.closed || not (q == p) || s.destroying
    then (m, none)
    else if ltb now s.lease_expires_at
    then (put m q (schedule_session_lease_timer m.closed s), none)
    else (retire m session_id q (expired_session s), some q)

-- What the lease timer of the session `p` runs: the session to clean up, if it has expired.
unfoldable pub expire_session_lease : Manager → ℕ → Session → ℕ → Manager × Option ℕ
unfolding expire_found
expire_session_lease m p session now =
    expire_found m now session.session_id p (current m session.session_id)

-- One round of the janitor's loop. An id that the loop no longer finds is not visited.
unfoldable pub expire_entry : ℕ → Text → Option (ℕ × Session) → Manager × List ℕ → Manager × List ℕ
expire_entry now session_id none (m, expired) = (m, expired)
expire_entry now session_id (some (p, s)) (m, expired) =
    if s.destroying || ltb now s.lease_expires_at
    then (m, expired)
    else (retire m session_id p (expired_session s), expired ++ p ∷ [])

unfoldable pub expire_entries : ℕ → Map ℕ → Manager × List ℕ → Manager × List ℕ
unfolding expire_entry
expire_entries now [] acc = acc
expire_entries now ((session_id, p) ∷ rest) acc =
    expire_entries now rest (expire_entry now session_id (current acc.0 session_id) acc)

-- The critical section of the janitor: the sessions to clean up, in the order of the map.
unfoldable pub cleanup_expired_sessions : Manager → ℕ → Manager × List ℕ
unfolding expire_entries
cleanup_expired_sessions m now = expire_entries now m.sessions (m, [])

abbrev pub has_init_err : Option Error → Bool
has_init_err none = false
has_init_err (some e) = true

-- The second critical section of `ResolveProxyTarget`, for the session `p` found before.
-- `parse_addr` is net/netip: the address in its unmapped form, unless unspecified.
unfoldable pub resolve_proxy_found :
    (Text → Option Text)
    → Manager
    → ℕ
    → Text
    → ℕ
    → Option (ℕ × Session)
    → Manager × Option Text × Option ℕ
resolve_proxy_found parse_addr m now session_id p none = (m, none, none)
resolve_proxy_found parse_addr m now session_id p (some (q, s)) =
    if not (q == p) || s.destroying || has_init_err s.init_err
    then (m, none, none)
    else if leb s.lease_expires_at now
    then (retire m session_id q (expired_session s), none, some q)
    else (m, parse_addr (trim_space s.container_ip), none)

unfoldable pub resolve_proxy_target :
    (Text → Option Text) → Manager → Text → ℕ → ℕ → Manager × Option Text × Option ℕ
unfolding resolve_proxy_found
resolve_proxy_target parse_addr m session_id p now =
    resolve_proxy_found parse_addr m now session_id p (current m session_id)
