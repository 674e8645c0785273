-- ===== src/Terminal/Leases.antt =====
-- worker/worker-docker/internal/runner/terminal_exec.go: the bounds on leases, and renewal.
use onlyboxes.Prelude.{
  ℕ, zero, suc, ◌+◌, ◌*◌, ◌≤◌, ◌<◌, ◌≡◌, ◌↔◌, refl, false, none, some, Text, arith, ℤ, pos, negsuc,
  positive_or, trim_space, is_empty, max,
}
use onlyboxes.Terminal.Defs.{
  Session, Config, Manager, ok, err, Error, new_terminal_session_manager, resolve_lease_duration,
  current, put,
}
use onlyboxes.Terminal.Invariant.{Inv, IsEntry-at}
use onlyboxes.Terminal.Preservation.{current-some}
use onlyboxes.Terminal.Lease.{extend_lease, renew_lease}

-- The bounds that a manager's configuration settles on.
pub record HasLeaseBounds (m : Manager) : Type 0 where
  pub min_pos : 0 < m.lease_min_sec
  pub min_le_default : m.lease_min_sec ≤ m.lease_default_sec
  pub default_le_max : m.lease_default_sec ≤ m.lease_max_sec
  pub room : 0 < m.session_max_inflight
  pub output : 0 < m.output_limit_bytes

positive_or-pos : (v : ℤ) (d : ℕ) → 0 < d → 0 < positive_or v d
positive_or-pos (pos (suc n)) d h = omega arith
positive_or-pos (pos zero) d h = h
positive_or-pos (negsuc n) d h = h

-- Whatever the configuration holds, negative and zero values included, the new manager has
-- 0 < minimum ≤ default ≤ maximum, and positive limits on concurrent commands and output.
pub new-HasLeaseBounds : (cfg : Config) → HasLeaseBounds (new_terminal_session_manager cfg)
unfolding new_terminal_session_manager
new-HasLeaseBounds cfg = record {
  min_pos = positive_or-pos cfg.lease_min_sec 60 (omega arith);
  min_le_default =
      ground (arith, positive_or-pos cfg.lease_min_sec 60, positive_or-pos cfg.lease_max_sec 1800);
  default_le_max = ground arith;
  room = positive_or-pos cfg.session_max_inflight 1 (omega arith);
  output = positive_or-pos cfg.output_limit_bytes (1024 * 1024) (omega arith);
}

-- A request for a lease is granted exactly if it is within the bounds, and then at its own length;
-- a request that names none is always granted.
pub resolve_lease_duration_iff :
    (m : Manager) (ttl : ℤ) (d : ℕ)
    → (resolve_lease_duration m (some ttl) ≡ ok d)
      ↔ ((n : ℕ) × (ttl ≡ pos n) × (m.lease_min_sec ≤ n) × (n ≤ m.lease_max_sec) × (d ≡ n * 1000))
unfolding resolve_lease_duration
resolve_lease_duration_iff m (pos n) d =
    (λ h. (n, refl, ground arith, ground arith, ground arith), λ (k, e, lo, hi, eq). ground arith)
resolve_lease_duration_iff m (negsuc n) d =
    (λ h. absurd (cc h), λ (k, e, lo, hi, eq). absurd (cc e))

default_lease_granted :
    (m : Manager)
    → HasLeaseBounds m
    → resolve_lease_duration m none ≡ ok (m.lease_default_sec * 1000)
unfolding resolve_lease_duration
default_lease_granted m b = ground arith

extend_lease-max :
    (s : Session) (target : ℕ)
    → s.destroying ≡ false
    → s.lease_timer ≡ some s.lease_expires_at
    → let t = extend_lease false s target in
      (t.lease_expires_at ≡ max s.lease_expires_at target)
      × (t.lease_timer ≡ some (max s.lease_expires_at target))
      × (t.inflight ≡ s.inflight)
      × (t.destroying ≡ false)
unfolding extend_lease
extend_lease-max s target h armed = ground arith

-- On an open manager, a granted renewal of a session that is live, not being torn down and not yet
-- expired, gives the later of the old lease and the one asked for: the session ends up with that
-- lease and a timer armed for it, its commands untouched, and no other session is written.
pub renew_lease-live :
    (m : Manager) (id : Text) (ttl : ℤ) (now d p : ℕ) (s : Session)
    → Inv m
    → m.closed ≡ false
    → is_empty (trim_space id) ≡ false
    → resolve_lease_duration m (some ttl) ≡ ok d
    → current m (trim_space id) ≡ some (p, s)
    → s.destroying ≡ false
    → now < s.lease_expires_at
    → let later = max s.lease_expires_at (now + d) in
      (t : Session) × (renew_lease m id ttl now ≡ (put m p t, ok later))
      × (t.lease_expires_at ≡ later)
      × (t.lease_timer ≡ some later)
      × (t.inflight ≡ s.inflight)
      × (t.destroying ≡ false)
unfolding renew_lease
renew_lease-live m id ttl now d p s v open_ named granted found alive fresh =
    let (hl, hg) = current-some m (trim_space id) found in
    let armed = (IsEntry-at v (trim_space id) p s hl hg).armed open_ alive in
    let (lease, timer, same, up) = extend_lease-max s (now + d) alive armed in
    (extend_lease false s (now + d), ground arith, lease, timer, same, up)

-- A renewal that is refused, for whatever reason, changes nothing.
pub renew_lease-err :
    (m : Manager) (id : Text) (ttl : ℤ) (now : ℕ) {e : Error}
    → (renew_lease m id ttl now).1 ≡ err e
    → (renew_lease m id ttl now).0 ≡ m
unfolding renew_lease
renew_lease-err m id ttl now h = ground arith
