-- ===== src/Terminal/Janitor.antt =====
-- worker/worker-docker/internal/runner/terminal_exec.go: the invariant and the janitor's round.
use onlyboxes.Prelude.{
  ℕ, ◌≡◌, refl, Option, none, some, List, [], ◌∷◌, Text, Map, ltb, ◌||◌, if_cases,
}
use onlyboxes.Terminal.Defs.{Session, Manager, current}
use onlyboxes.Terminal.Lease.{
  expired_session, expire_entry, expire_entries, cleanup_expired_sessions,
}
use onlyboxes.Terminal.Invariant.{Inv}
use onlyboxes.Terminal.Preservation.{retire-Inv}

expire_entry-Inv :
    (now : ℕ) (id : Text) (m : Manager) (expired : List ℕ) (o : Option (ℕ × Session))
    → current m id ≡ o
    → Inv m
    → Inv (expire_entry now id o (m, expired)).0
unfolding expire_entry
expire_entry-Inv now id m expired none h v = v
expire_entry-Inv now id m expired (some (p, s)) h v =
    if_cases (λ (r : Manager × List ℕ). Inv r.0) (s.destroying || ltb now s.lease_expires_at) _ _
      (λ _. v) (λ _. retire-Inv m id p s (expired_session s) h refl v)

expire_entries-Inv :
    (now : ℕ) (todo : Map ℕ) (acc : Manager × List ℕ)
    → Inv acc.0
    → Inv (expire_entries now todo acc).0
unfolding expire_entries
expire_entries-Inv now [] acc v = v
expire_entries-Inv now ((id, p) ∷ rest) acc v =
    expire_entries-Inv now rest (expire_entry now id (current acc.0 id) acc)
      (expire_entry-Inv now id acc.0 acc.1 (current acc.0 id) refl v)

pub cleanup_expired_sessions-Inv :
    (m : Manager) (now : ℕ) → Inv m → Inv (cleanup_expired_sessions m now).0
unfolding cleanup_expired_sessions
cleanup_expired_sessions-Inv m now v = expire_entries-Inv now m.sessions (m, []) v
