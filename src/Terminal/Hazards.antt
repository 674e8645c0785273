-- ===== src/Terminal/Hazards.antt =====
-- worker/worker-docker/internal/runner/terminal_exec.go: the slots of commands whose session is torn
-- down, or replaced under its id.
use onlyboxes.Prelude.{
  ℕ, ◌≤◌, ◌<◌, ◌≡◌, refl, true, none, some, List, [], ◌∷◌, ◌++◌, Text, Map, arith, lookup, insert,
  length, lookup-insert_self, lookup-remove_self, get_elem?-append_length, trim_space, is_empty,
  ltb, leb, ◌&&◌, false,
}
use onlyboxes.Terminal.Defs.{
  Session, Manager, ok, current, deref, put, schedule_session_lease_timer,
}
use onlyboxes.Terminal.Claim.{
  retire, new_session, new_session_locked, claim_found, claim_session, release_session,
  release_and_destroy_session,
}
use onlyboxes.Terminal.Lease.{expired_session, expire_session_lease}

expire_session_lease-retire :
    (m : Manager) (p : ℕ) (s : Session) (now : ℕ)
    → m.closed ≡ false
    → current m s.session_id ≡ some (p, s)
    → s.destroying ≡ false
    → s.lease_expires_at ≤ now
    → expire_session_lease m p s now ≡ (retire m s.session_id p (expired_session s), some p)
unfolding expire_session_lease
expire_session_lease-retire m p s now open_ found alive over = ground arith

current-retire :
    (m : Manager) (id : Text) (p : ℕ) (s : Session) → current (retire m id p s) id ≡ none
unfolding current
current-retire m id p s = rw (lookup-remove_self id m.sessions) refl

-- The session that a claim puts in where there was none.
fresh_session : (Text → Text) → Text → ℕ → Session
fresh_session hash id target = schedule_session_lease_timer false (new_session hash id target)

fresh_session_state :
    (hash : Text → Text) (id : Text) (target : ℕ)
    → let t = fresh_session hash id target in
      (t.inflight ≡ 1) × (t.destroying ≡ false) × (t.ready ≡ false)
unfolding fresh_session schedule_session_lease_timer new_session
fresh_session_state hash id target = (refl, refl, refl)

current-add :
    (id : Text) (s : Session) (sessions : Map ℕ) (heap : List Session)
    → deref (heap ++ s ∷ []) (lookup id (insert id (length heap) sessions)) ≡ some (length heap, s)
unfolding deref
current-add id s sessions heap =
    rw (lookup-insert_self id (length heap) sessions)
      (ground (arith, get_elem?-append_length heap s))

claim-add :
    (hash : Text → Text) (m : Manager) (id : Text) (target : ℕ) (uuid : Text)
    → m.closed ≡ false
    → (ltb 0 m.max_active_sessions && leb m.max_active_sessions m.active_session_reservations)
      ≡ false
    → is_empty id ≡ false
    → current m id ≡ none
    → let c = claim_session hash m id target true uuid in
      (c.1 ≡ ok (length m.heap, true))
      × (current c.0 id ≡ some (length m.heap, fresh_session hash id target))
unfolding claim_session claim_found new_session_locked fresh_session current
claim-add hash m id target uuid open_ room named missing =
    ground (arith, current-add id (fresh_session hash id target) m.sessions m.heap)

release-fresh :
    (m : Manager) (id : Text) (q : ℕ) (t : Session)
    → trim_space id ≡ id
    → is_empty id ≡ false
    → current m id ≡ some (q, t)
    → t.inflight ≡ 1
    → t.destroying ≡ false
    → ((release_session m id).0 ≡ put m q (record t { inflight = 0 }))
      × ((release_and_destroy_session m id).1 ≡ some q)
unfolding release_session release_and_destroy_session
release-fresh m id q t trimmed named found one alive = ground arith

-- In a manager that is open, and whose capacity, where there is one, is not used up (the session that
-- ran out still counts): a session runs out while a command is at work in it, and a second command
-- claims the id, which is not blank and is trimmed, anew. The session that the second command creates counts one command. When the first command ends it
-- releases by the id alone, and so takes the second command's slot: the new session counts none
-- while its creator is at work, or, where the first command failed, is torn down under it.
pub release_of_stale_command :
    (hash : Text → Text) (m : Manager) (p : ℕ) (s : Session) (now target : ℕ) (uuid : Text)
    → m.closed ≡ false
    → (ltb 0 m.max_active_sessions && leb m.max_active_sessions m.active_session_reservations)
      ≡ false
    → trim_space s.session_id ≡ s.session_id
    → is_empty s.session_id ≡ false
    → current m s.session_id ≡ some (p, s)
    → s.destroying ≡ false
    → 0 < s.inflight
    → s.lease_expires_at ≤ now
    → let gone = (expire_session_lease m p s now).0 in
      let claimed = claim_session hash gone s.session_id target true uuid in
      (q : ℕ) × (t : Session) × (claimed.1 ≡ ok (q, true))
      × (current claimed.0 s.session_id ≡ some (q, t))
      × (t.inflight ≡ 1)
      × ((release_session claimed.0 s.session_id).0 ≡ put claimed.0 q (record t { inflight = 0 }))
      × ((release_and_destroy_session claimed.0 s.session_id).1 ≡ some q)
release_of_stale_command hash m p s now target uuid open_ room trimmed named found alive busy over =
    let id = s.session_id in
    let gone = retire m id p (expired_session s) in
    let (claimed, held) =
      claim-add hash gone id target uuid open_ room named
        (current-retire m id p (expired_session s)) in
    let (one, up, early) = fresh_session_state hash id target in
    let (slot, torn) =
      release-fresh (claim_session hash gone id target true uuid).0 id (length gone.heap)
        (fresh_session hash id target) trimmed named held one up in
    rw (expire_session_lease-retire m p s now open_ found alive over)
      (length gone.heap, fresh_session hash id target, claimed, held, one, slot, torn)
