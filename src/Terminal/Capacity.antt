-- ===== src/Terminal/Capacity.antt =====
-- worker/worker-docker/internal/runner/terminal_exec.go: reservations against the capacity.
use onlyboxes.Prelude.{
  ℕ, suc, ◌+◌, ◌≤◌, ◌<◌, ◌≡◌, ◌⊎◌, Bool, Option, none, some, List, [], ◌∷◌, Text, Map, arith, ℤ,
  pos, count, ◌∙◌,
}
use native.Mathlib.Nat.{le_trans}
use onlyboxes.Terminal.Defs.{
  Session, Manager, Config, Result, ok, err, current, new_terminal_session_manager,
}
use onlyboxes.Terminal.Claim.{
  new_session_locked, claim_found, claim_session, release_session, release_and_destroy_session,
  cleanup_session, cleanup_tracked_session,
}
use onlyboxes.Terminal.Lease.{
  renew_lease, expire_session_lease, expire_entry, expire_entries, cleanup_expired_sessions,
  resolve_proxy_target,
}
use onlyboxes.Terminal.Lifecycle.{
  publish, disown_inactive_created_session, recover_existing, recover_locked, begin_close,
  take_all_sessions, close_session,
}
use onlyboxes.Terminal.Invariant.{reserved}
use onlyboxes.Terminal.Steps.{
  Step, Reach, Reach-Inv, claim, publish_created, disown, release, release_and_destroy, renew,
  expire, janitor, proxy, cleanup, cleanup_tracked, recover_known, recover, close_begins,
  close_takes, close_ends, here, next,
}

-- No more is reserved afterwards, and the capacity stays.
record NoMore (m n : Manager) : Type 0 where
  same_cap : n.max_active_sessions ≡ m.max_active_sessions
  no_more : n.active_session_reservations ≤ m.active_session_reservations

-- If more is reserved afterwards, it is within the capacity.
record Within (m n : Manager) : Type 0 where
  same_cap : n.max_active_sessions ≡ m.max_active_sessions
  within :
      0 < m.max_active_sessions
      → (n.active_session_reservations ≤ m.active_session_reservations)
        ⊎ (n.active_session_reservations ≤ m.max_active_sessions)

claim-Within :
    (hash : Text → Text) (m : Manager) (id : Text) (target : ℕ) (create : Bool) (uuid : Text)
    → Within m (claim_session hash m id target create uuid).0
unfolding claim_session claim_found new_session_locked
claim-Within hash m id target create uuid = ground arith

renew-NoMore : (m : Manager) (id : Text) (ttl : ℤ) (now : ℕ) → NoMore m (renew_lease m id ttl now).0
unfolding renew_lease
renew-NoMore m id ttl now = ground arith

release-NoMore : (m : Manager) (id : Text) → NoMore m (release_session m id).0
unfolding release_session
release-NoMore m id = ground arith

release_and_destroy-NoMore :
    (m : Manager) (id : Text) → NoMore m (release_and_destroy_session m id).0
unfolding release_and_destroy_session
release_and_destroy-NoMore m id = ground arith

expire-NoMore :
    (m : Manager) (p : ℕ) (s : Session) (now : ℕ) → NoMore m (expire_session_lease m p s now).0
unfolding expire_session_lease
expire-NoMore m p s now = ground arith

proxy-NoMore :
    (parse : Text → Option Text) (m : Manager) (id : Text) (p now : ℕ)
    → NoMore m (resolve_proxy_target parse m id p now).0
unfolding resolve_proxy_target
proxy-NoMore parse m id p now = ground arith

cleanup-NoMore : (m : Manager) (p : ℕ) (s : Session) → NoMore m (cleanup_session m p s)
unfolding cleanup_session
cleanup-NoMore m p s = ground arith

recover-Within1 :
    (hash : Text → Text) (m : Manager) (id : Text) (lease : ℕ) (ip : Text)
    → let n = (recover_locked hash m id lease ip).0 in
      (n.max_active_sessions ≡ m.max_active_sessions)
      × (n.active_session_reservations ≤ m.active_session_reservations + 1)
unfolding recover_locked
recover-Within1 hash m id lease ip = ground arith

expire_entry-NoMore :
    (now : ℕ) (id : Text) (o : Option (ℕ × Session)) (acc : Manager × List ℕ)
    → NoMore acc.0 (expire_entry now id o acc).0
unfolding expire_entry
expire_entry-NoMore now id none (m, acc) = ground arith
expire_entry-NoMore now id (some (p, s)) (m, acc) = ground arith

expire_entries-NoMore :
    (now : ℕ) (todo : Map ℕ) (acc : Manager × List ℕ) → NoMore acc.0 (expire_entries now todo acc).0
unfolding expire_entries
expire_entries-NoMore now [] acc = ground arith
expire_entries-NoMore now ((id, p) ∷ rest) acc =
    let one = expire_entry-NoMore now id (current acc.0 id) acc in
    let more = expire_entries-NoMore now rest (expire_entry now id (current acc.0 id) acc) in
    record { same_cap = more.same_cap ∙ one.same_cap; no_more = le_trans more.no_more one.no_more }

janitor-NoMore : (m : Manager) (now : ℕ) → NoMore m (cleanup_expired_sessions m now).0
unfolding cleanup_expired_sessions
janitor-NoMore m now = expire_entries-NoMore now m.sessions (m, [])

publish-NoMore : (m : Manager) (p : ℕ) (s : Session) (r : Result Text) → NoMore m (publish m p s r)
unfolding publish
publish-NoMore m p s (ok ip) = ground arith
publish-NoMore m p s (err e) = ground arith

disown-NoMore :
    (m : Manager) (p : ℕ) (s : Session) → NoMore m (disown_inactive_created_session m p s).0
unfolding disown_inactive_created_session
disown-NoMore m p s = ground arith

recover_existing-NoMore :
    (m : Manager) (id : Text) (lease : ℕ) → NoMore m (recover_existing m id lease).0
unfolding recover_existing
recover_existing-NoMore m id lease = ground arith

close_session-NoMore : (m : Manager) (p : ℕ) (s : Session) → NoMore m (close_session m p s)
unfolding close_session
close_session-NoMore m p s = ground arith

cleanup_tracked-NoMore :
    (m : Manager) (p : ℕ) (s : Session) → NoMore m (cleanup_tracked_session m p s)
unfolding cleanup_tracked_session
cleanup_tracked-NoMore m p s = ground arith

close-NoMore : (m : Manager) → NoMore m (begin_close m)
unfolding begin_close
close-NoMore m = ground arith

take_all-NoMore : (m : Manager) → NoMore m (take_all_sessions m)
unfolding take_all_sessions
take_all-NoMore m = ground arith

new_cap :
    (cfg : Config) (n : ℕ)
    → cfg.max_active_sessions ≡ pos (suc n)
    → (0 < (new_terminal_session_manager cfg).max_active_sessions)
      × ((new_terminal_session_manager cfg).active_session_reservations ≡ 0)
unfolding new_terminal_session_manager
new_cap cfg n h = ground arith

new_cap_eq :
    (cfg : Config) (n : ℕ)
    → cfg.max_active_sessions ≡ pos (suc n)
    → (new_terminal_session_manager cfg).max_active_sessions ≡ suc n
unfolding new_terminal_session_manager
new_cap_eq cfg n h = ground arith

module _ (hash : Text → Text) (parse_addr : Text → Option Text) where
  -- How many sessions recovery may have put in.
  abbrev pub recovered : {m n : Manager} → Step hash parse_addr m n → ℕ
  recovered (recover id lease ip) = 1
  recovered _ = 0

  abbrev pub recoveries : {m n : Manager} → Reach hash parse_addr m n → ℕ
  recoveries here = 0
  recoveries (next r st) = recoveries r + recovered st

  abbrev Bounded : ℕ → Manager → Manager → ℕ → Type 0
  Bounded k m n more =
      0 < m.max_active_sessions
      → m.active_session_reservations ≤ m.max_active_sessions + k
      → (n.max_active_sessions ≡ m.max_active_sessions)
        × (n.active_session_reservations ≤ n.max_active_sessions + (k + more))

  NoMore-Bounded : {m n : Manager} (k : ℕ) → NoMore m n → Bounded k m n 0
  NoMore-Bounded k w h b = ground arith

  Within-Bounded : {m n : Manager} (k : ℕ) → Within m n → Bounded k m n 0
  Within-Bounded k w h b = ground (arith, w.within h)

  recover-Bounded :
      (k : ℕ) (m : Manager) (id : Text) (lease : ℕ) (ip : Text)
      → Bounded k m (recover_locked hash m id lease ip).0 1
  recover-Bounded k m id lease ip h b = ground (arith, recover-Within1 hash m id lease ip)

  step-Bounded :
      {m n : Manager} (st : Step hash parse_addr m n) (k : ℕ) → Bounded k m n (recovered st)
  step-Bounded {m} (claim id target create uuid fresh) k =
      Within-Bounded k (claim-Within hash m id target create uuid)
  step-Bounded {m} (publish_created p s r h) k = NoMore-Bounded k (publish-NoMore m p s r)
  step-Bounded {m} (disown p s) k = NoMore-Bounded k (disown-NoMore m p s)
  step-Bounded {m} (release id) k = NoMore-Bounded k (release-NoMore m id)
  step-Bounded {m} (release_and_destroy id) k = NoMore-Bounded k (release_and_destroy-NoMore m id)
  step-Bounded {m} (renew id ttl now) k = NoMore-Bounded k (renew-NoMore m id ttl now)
  step-Bounded {m} (expire p s now) k = NoMore-Bounded k (expire-NoMore m p s now)
  step-Bounded {m} (janitor now) k = NoMore-Bounded k (janitor-NoMore m now)
  step-Bounded {m} (proxy id p now) k = NoMore-Bounded k (proxy-NoMore parse_addr m id p now)
  step-Bounded {m} (cleanup p s r) k = NoMore-Bounded k (cleanup-NoMore m p s)
  step-Bounded {m} (cleanup_tracked p s r) k = NoMore-Bounded k (cleanup_tracked-NoMore m p s)
  step-Bounded {m} (recover_known id lease) k =
      NoMore-Bounded k (recover_existing-NoMore m id lease)
  step-Bounded {m} (recover id lease ip) k = recover-Bounded k m id lease ip
  step-Bounded {m} close_begins k = NoMore-Bounded k (close-NoMore m)
  step-Bounded {m} close_takes k = NoMore-Bounded k (take_all-NoMore m)
  step-Bounded {m} (close_ends p s r) k = NoMore-Bounded k (close_session-NoMore m p s)

  reach_bounded :
      {m n : Manager} (r : Reach hash parse_addr m n)
      → 0 < m.max_active_sessions
      → m.active_session_reservations ≡ 0
      → (n.max_active_sessions ≡ m.max_active_sessions)
        × (n.active_session_reservations ≤ n.max_active_sessions + recoveries r)
  reach_bounded here h z = ground arith
  reach_bounded (next {t} r st) h z =
      let (same, b) = reach_bounded r h z in ground (arith, step-Bounded st (recoveries r), same, b)

-- With a capacity configured, whatever critical sections run in whatever order from a new manager
-- on, at most that many sessions hold a reservation, and one more for each session that recovery
-- has put in: no claim goes past the capacity.
pub Reach-capacity :
    (hash : Text → Text) (parse_addr : Text → Option Text) (cfg : Config) (n : ℕ) {m : Manager}
    (r : Reach hash parse_addr (new_terminal_session_manager cfg) m)
    → cfg.max_active_sessions ≡ pos (suc n)
    → count reserved m.heap ≤ suc n + recoveries hash parse_addr r
Reach-capacity hash parse_addr cfg n {m} r h =
    let (same, b) = reach_bounded hash parse_addr r (new_cap cfg n h).0 (new_cap cfg n h).1 in
    ground (arith, Reach-Inv hash parse_addr cfg m r, same, b, new_cap_eq cfg n h)
