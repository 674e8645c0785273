-- ===== src/Terminal/Steps.antt =====
-- worker/worker-docker/internal/runner/terminal_exec.go: the manager under concurrency. Any
-- interleaving of the critical sections of commands, timers, the janitor, the proxy, recovery and
-- shutdown is a sequence of these steps.
use onlyboxes.Prelude.{
  ℕ, zero, suc, ◌<◌, ◌≡◌, refl, Bool, Option, none, some, Text, arith, lookup, get_elem?, ℤ,
  positive_or,
}
use onlyboxes.Terminal.Defs.{Session, Config, Manager, Result, new_terminal_session_manager}
use onlyboxes.Terminal.Claim.{
  claim_session, release_session, release_and_destroy_session, cleanup_session,
  cleanup_tracked_session,
}
use onlyboxes.Terminal.Lease.{
  renew_lease, expire_session_lease, cleanup_expired_sessions, resolve_proxy_target,
}
use onlyboxes.Terminal.Lifecycle.{
  publish, disown_inactive_created_session, recover_existing, recover_locked, begin_close,
  take_all_sessions, close_session,
}
use onlyboxes.Terminal.Invariant.{Inv}
use onlyboxes.Terminal.Preservation.{
  IsRetired, claim_session-Inv, release_session-Inv, release_and_destroy_session-Inv,
}
use onlyboxes.Terminal.Cleanup.{cleanup_session-Inv, cleanup_tracked_session-Inv}
use onlyboxes.Terminal.Expiry.{
  renew_lease-Inv, expire_session_lease-Inv, resolve_proxy_target-Inv, publish-Inv,
  disown_inactive_created_session-Inv, recover_existing-Inv, recover_locked-Inv, begin_close-Inv,
  close_session-Inv,
}
use onlyboxes.Terminal.Janitor.{cleanup_expired_sessions-Inv}
use onlyboxes.Terminal.Shutdown.{take_all_sessions-Inv}

module _ (hash : Text → Text) (parse_addr : Text → Option Text) where
  pub data Step (m : Manager) : Manager → Type 0 where
    -- `uuid.NewString` gives an id that is not in use.
    claim :
        (id : Text) (target : ℕ) (create : Bool) (uuid : Text)
        → lookup uuid m.sessions ≡ none
        → Step m (claim_session hash m id target create uuid).0
    publish_created :
        (p : ℕ) (s : Session) (r : Result Text)
        → get_elem? m.heap p ≡ some s
        → Step m (publish m p s r)
    disown : (p : ℕ) (s : Session) → Step m (disown_inactive_created_session m p s).0
    release : (id : Text) → Step m (release_session m id).0
    release_and_destroy : (id : Text) → Step m (release_and_destroy_session m id).0
    renew : (id : Text) (ttl : ℤ) (now : ℕ) → Step m (renew_lease m id ttl now).0
    expire : (p : ℕ) (s : Session) (now : ℕ) → Step m (expire_session_lease m p s now).0
    janitor : (now : ℕ) → Step m (cleanup_expired_sessions m now).0
    proxy : (id : Text) (p now : ℕ) → Step m (resolve_proxy_target parse_addr m id p now).0
    cleanup : (p : ℕ) (s : Session) → IsRetired m p s → Step m (cleanup_session m p s)
    cleanup_tracked :
        (p : ℕ) (s : Session) → IsRetired m p s → Step m (cleanup_tracked_session m p s)
    recover_known : (id : Text) (lease : ℕ) → Step m (recover_existing m id lease).0
    recover : (id : Text) (lease : ℕ) (ip : Text) → Step m (recover_locked hash m id lease ip).0
    close_begins : Step m (begin_close m)
    close_takes : Step m (take_all_sessions m)
    close_ends : (p : ℕ) (s : Session) → IsRetired m p s → Step m (close_session m p s)

  pub data Reach (m : Manager) : Manager → Type 0 where
    here : Reach m m
    next : {t u : Manager} → Reach m t → Step t u → Reach m u

  pub Step-Inv : {m n : Manager} → Step m n → Inv m → Inv n
  Step-Inv {m} (claim id target create uuid fresh) v =
      claim_session-Inv hash m id target create uuid fresh v
  Step-Inv {m} (publish_created p s r h) v = publish-Inv m p s r h v
  Step-Inv {m} (disown p s) v = disown_inactive_created_session-Inv m p s v
  Step-Inv {m} (release id) v = release_session-Inv m id v
  Step-Inv {m} (release_and_destroy id) v = release_and_destroy_session-Inv m id v
  Step-Inv {m} (renew id ttl now) v = renew_lease-Inv m id ttl now v
  Step-Inv {m} (expire p s now) v = expire_session_lease-Inv m p s now v
  Step-Inv {m} (janitor now) v = cleanup_expired_sessions-Inv m now v
  Step-Inv {m} (proxy id p now) v = resolve_proxy_target-Inv parse_addr m id p now v
  Step-Inv {m} (cleanup p s r) v = cleanup_session-Inv m p s r v
  Step-Inv {m} (cleanup_tracked p s r) v = cleanup_tracked_session-Inv m p s r v
  Step-Inv {m} (recover_known id lease) v = recover_existing-Inv m id lease v
  Step-Inv {m} (recover id lease ip) v = recover_locked-Inv hash m id lease ip v
  Step-Inv {m} close_begins v = begin_close-Inv m v
  Step-Inv {m} close_takes v = take_all_sessions-Inv m v
  Step-Inv {m} (close_ends p s r) v = close_session-Inv m p s r v

  Reach-Inv_from : {m n : Manager} → Inv m → Reach m n → Inv n
  Reach-Inv_from v here = v
  Reach-Inv_from v (next r st) = Step-Inv st (Reach-Inv_from v r)

positive_or-pos : (v : ℤ) (d : ℕ) → 0 < d → 0 < positive_or v d
positive_or-pos (ℤ.pos (suc n)) d h = omega arith
positive_or-pos (ℤ.pos zero) d h = h
positive_or-pos (ℤ.negsuc n) d h = h

pub new-Inv : (cfg : Config) → Inv (new_terminal_session_manager cfg)
unfolding new_terminal_session_manager
new-Inv cfg = record {
  positive = positive_or-pos cfg.session_max_inflight 1 (omega arith);
  accounts = refl;
  entries = λ id p h. unfold lookup in absurd (cc h);
  no_leak = λ p s h hr. absurd (cc h);
}

-- Whatever critical sections run, in whatever order, from a new manager on: the number of
-- reservations is the number of sessions that hold one, every session in the map holds one, runs at
-- most the allowed number of commands, and is armed to expire at its lease unless it is being torn
-- down or the manager is closed, and every session that holds a reservation is in the map or in the
-- hands of a cleanup.
pub Reach-Inv :
    (hash : Text → Text) (parse_addr : Text → Option Text) (cfg : Config) (m : Manager)
    → Reach hash parse_addr (new_terminal_session_manager cfg) m
    → Inv m
Reach-Inv hash parse_addr cfg m r = Reach-Inv_from hash parse_addr (new-Inv cfg) r
