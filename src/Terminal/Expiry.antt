-- ===== src/Terminal/Expiry.antt =====
-- worker/worker-docker/internal/runner/terminal_exec.go: the invariant and the sections that renew,
-- expire, create, recover and close.
use onlyboxes.Prelude.{
  ℕ, ◌+◌, ◌≡◌, refl, Bool, true, Option, none, some, Text, arith, get_elem?, ◌==◌, ltb, leb,
  trim_space, is_empty, ℤ, not, ◌||◌, if_cases, text_eq,
}
use onlyboxes.Terminal.Defs.{
  put, Session, Manager, Result, ok, err, current, schedule_session_lease_timer,
  terminal_session_resource_name, resolve_lease_duration,
}
use onlyboxes.Terminal.Lease.{
  extend_lease, renew_found, renew_for, renew_lease, expired_session, expire_found,
  expire_session_lease, resolve_proxy_found, resolve_proxy_target, has_init_err,
}
use onlyboxes.Terminal.Lifecycle.{
  publish, disown_found, disown_inactive_created_session, recovered_session, recover_found,
  recover_existing, recover_existing_found, recover_locked, begin_close, close_session,
}
use onlyboxes.Terminal.Invariant.{
  IsEntry, Inv, IsValid-set, IsValid-drop, IsValid-add, IsValid-close,
}
use onlyboxes.Terminal.Preservation.{
  current-some, current-none, schedule-IsEntry, IsRetired, retire-Inv, put-Inv,
}
use onlyboxes.Terminal.Cleanup.{release_capacity_reservation-Inv, cleanup_session-Inv}

extend_lease-IsEntry :
    (closed : Bool) (max : ℕ) (id : Text) (s : Session) (target : ℕ)
    → IsEntry closed max id s
    → IsEntry closed max id (extend_lease closed s target)
unfolding extend_lease
extend_lease-IsEntry closed max id s target k = ground arith

extend_lease_same :
    (closed : Bool) (s : Session) (target : ℕ)
    → let t = extend_lease closed s target in
      (t.session_id ≡ s.session_id)
      × (t.capacity_reserved ≡ s.capacity_reserved)
      × (t.retired ≡ s.retired)
unfolding extend_lease
extend_lease_same closed s target = ground arith

renew_found-Inv :
    (m : Manager) (now target : ℕ) (id : Text) (o : Option (ℕ × Session))
    → current m id ≡ o
    → Inv m
    → Inv (renew_found m now target o).0
unfolding renew_found
renew_found-Inv m now target id none h v = v
renew_found-Inv m now target id (some (p, s)) h v =
    if_cases (λ (r : Manager × Result ℕ). Inv r.0) (s.destroying || leb s.lease_expires_at now) _ _
      (λ _. v)
      λ _.
        let (same_id, same_res, same_ret) = extend_lease_same m.closed s target in
        put-Inv m id p s (extend_lease m.closed s target) h same_id same_res same_ret
          (λ j. extend_lease-IsEntry m.closed m.session_max_inflight j s target) v

renew_for-Inv :
    (m : Manager) (id : Text) (now : ℕ) (d : Result ℕ) → Inv m → Inv (renew_for m id now d).0
renew_for-Inv m id now (err e) v = v
renew_for-Inv m id now (ok d) v =
    if_cases (λ (r : Manager × Result ℕ). Inv r.0) m.closed _ _ (λ _. v)
      (λ _. renew_found-Inv m now (now + d) id (current m id) refl v)

pub renew_lease-Inv :
    (m : Manager) (id : Text) (ttl : ℤ) (now : ℕ) → Inv m → Inv (renew_lease m id ttl now).0
unfolding renew_lease
renew_lease-Inv m id ttl now v =
    if_cases (λ (r : Manager × Result ℕ). Inv r.0) (is_empty (trim_space id)) _ _ (λ _. v)
      (λ _. renew_for-Inv m (trim_space id) now (resolve_lease_duration m (some ttl)) v)

schedule_same :
    (closed : Bool) (s : Session)
    → let t = schedule_session_lease_timer closed s in
      (t.session_id ≡ s.session_id)
      × (t.capacity_reserved ≡ s.capacity_reserved)
      × (t.retired ≡ s.retired)
unfolding schedule_session_lease_timer
schedule_same closed s = ground arith

disarm-IsEntry :
    (closed : Bool) (max : ℕ) (id : Text) (s : Session)
    → IsEntry closed max id s
    → IsEntry true max id s
disarm-IsEntry closed max id s k = ground arith

expire_found-Inv :
    (m : Manager) (now : ℕ) (id : Text) (p : ℕ) (o : Option (ℕ × Session))
    → current m id ≡ o
    → Inv m
    → Inv (expire_found m now id p o).0
unfolding expire_found
expire_found-Inv m now id p none h v = v
expire_found-Inv m now id p (some (q, s)) h v =
    if_cases (λ (r : Manager × Option ℕ). Inv r.0) (m.closed || not (q == p) || s.destroying) _ _
      (λ _. v)
      λ _.
        if_cases (λ (r : Manager × Option ℕ). Inv r.0) (ltb now s.lease_expires_at) _ _
          (λ _.
            let (same_id, same_res, same_ret) = schedule_same m.closed s in
            put-Inv m id q s (schedule_session_lease_timer m.closed s) h same_id same_res same_ret
              (λ j k.
                schedule-IsEntry m.closed m.session_max_inflight j s
                  (disarm-IsEntry m.closed m.session_max_inflight j s k))
              v)
          (λ _. retire-Inv m id q s (expired_session s) h refl v)

pub expire_session_lease-Inv :
    (m : Manager) (p : ℕ) (s : Session) (now : ℕ) → Inv m → Inv (expire_session_lease m p s now).0
unfolding expire_session_lease
expire_session_lease-Inv m p s now v =
    expire_found-Inv m now s.session_id p (current m s.session_id) refl v

resolve_proxy_found-Inv :
    (parse : Text → Option Text) (m : Manager) (now : ℕ) (id : Text) (p : ℕ)
    (o : Option (ℕ × Session))
    → current m id ≡ o
    → Inv m
    → Inv (resolve_proxy_found parse m now id p o).0
unfolding resolve_proxy_found
resolve_proxy_found-Inv parse m now id p none h v = v
resolve_proxy_found-Inv parse m now id p (some (q, s)) h v =
    if_cases (λ (r : Manager × Option Text × Option ℕ). Inv r.0)
      (not (q == p) || s.destroying || has_init_err s.init_err) _ _ (λ _. v)
      λ _.
        if_cases (λ (r : Manager × Option Text × Option ℕ). Inv r.0) (leb s.lease_expires_at now) _
          _ (λ _. retire-Inv m id q s (expired_session s) h refl v) (λ _. v)

pub resolve_proxy_target-Inv :
    (parse : Text → Option Text) (m : Manager) (id : Text) (p now : ℕ)
    → Inv m
    → Inv (resolve_proxy_target parse m id p now).0
unfolding resolve_proxy_target
resolve_proxy_target-Inv parse m id p now v =
    resolve_proxy_found-Inv parse m now id p (current m id) refl v

pub publish-Inv :
    (m : Manager) (p : ℕ) (s : Session) (r : Result Text)
    → get_elem? m.heap p ≡ some s
    → Inv m
    → Inv (publish m p s r)
unfolding publish
publish-Inv m p s (ok ip) h v = IsValid-set v p s _ h refl refl refl (λ j k. ground arith)
publish-Inv m p s (err e) h v = IsValid-set v p s _ h refl refl refl (λ j k. ground arith)

disown_found-Inv :
    (m : Manager) (id : Text) (p : ℕ) (o : Option (ℕ × Session))
    → current m id ≡ o
    → Inv m
    → Inv (disown_found m id p o).0
unfolding disown_found
disown_found-Inv m id p none h v = v
disown_found-Inv m id p (some (q, s)) h v =
    if_cases (λ (r : Manager × Bool). Inv r.0) (q == p) _ _
      (λ _. let (hl, hg) = current-some m id h in IsValid-drop v id q s _ hl hg refl refl) (λ _. v)

pub disown_inactive_created_session-Inv :
    (m : Manager) (p : ℕ) (s : Session) → Inv m → Inv (disown_inactive_created_session m p s).0
unfolding disown_inactive_created_session
disown_inactive_created_session-Inv m p s v =
    disown_found-Inv m s.session_id p (current m s.session_id) refl v

relet-Inv :
    (m : Manager) (id : Text) (p lease : ℕ) (s : Session)
    → current m id ≡ some (p, s)
    → Inv m
    → Inv (put m p (schedule_session_lease_timer m.closed (record s { lease_expires_at = lease })))
relet-Inv m id p lease s h v =
    let t : Session = record s { lease_expires_at = lease } in
    let (same_id, same_res, same_ret) = schedule_same m.closed t in
    put-Inv m id p s (schedule_session_lease_timer m.closed t) h same_id same_res same_ret
      (λ j k. schedule-IsEntry m.closed m.session_max_inflight j t (ground arith)) v

recover_existing_found-Inv :
    (m : Manager) (id : Text) (lease : ℕ) (o : Option (ℕ × Session))
    → current m id ≡ o
    → Inv m
    → Inv (recover_existing_found m lease o).0
unfolding recover_existing_found
recover_existing_found-Inv m id lease none h v = v
recover_existing_found-Inv m id lease (some (p, s)) h v =
    if_cases (λ (r : Manager × Bool). Inv r.0) s.destroying _ _ (λ _. v)
      (λ _. relet-Inv m id p lease s h v)

pub recover_existing-Inv :
    (m : Manager) (id : Text) (lease : ℕ) → Inv m → Inv (recover_existing m id lease).0
unfolding recover_existing
recover_existing-Inv m id lease v =
    if_cases (λ (r : Manager × Bool). Inv r.0) m.closed _ _ (λ _. v)
      (λ _. recover_existing_found-Inv m id lease (current m id) refl v)

module _ (hash : Text → Text) where
  recovered_session-IsEntry :
      (closed : Bool) (max : ℕ) (id : Text) (lease : ℕ) (ip : Text)
      → IsEntry closed max id
          (schedule_session_lease_timer closed (recovered_session hash id lease ip))
  unfolding recovered_session
  recovered_session-IsEntry closed max id lease ip =
      schedule-IsEntry closed max id (recovered_session hash id lease ip) (ground arith)

  recover_found-Inv :
      (m : Manager) (id : Text) (lease : ℕ) (ip : Text) (o : Option (ℕ × Session))
      → current m id ≡ o
      → Inv m
      → Inv (recover_found hash m id lease ip o).0
  unfolding recover_found
  recover_found-Inv m id lease ip none h v =
      IsValid-add v id _ (current-none m id v h)
        (recovered_session-IsEntry m.closed m.session_max_inflight id lease ip)
  recover_found-Inv m id lease ip (some (p, s)) h v =
      if_cases (λ (r : Manager × Bool). Inv r.0)
        (not (text_eq s.container_name (terminal_session_resource_name hash id)) || s.destroying) _
        _ (λ _. v) (λ _. relet-Inv m id p lease s h v)

  pub recover_locked-Inv :
      (m : Manager) (id : Text) (lease : ℕ) (ip : Text)
      → Inv m
      → Inv (recover_locked hash m id lease ip).0
  unfolding recover_locked
  recover_locked-Inv m id lease ip v =
      if_cases (λ (r : Manager × Bool). Inv r.0) m.closed _ _ (λ _. v)
        (λ _. recover_found-Inv m id lease ip (current m id) refl v)

pub begin_close-Inv : (m : Manager) → Inv m → Inv (begin_close m)
unfolding begin_close
begin_close-Inv m v = IsValid-close v

pub close_session-Inv :
    (m : Manager) (p : ℕ) (s : Session) → IsRetired m p s → Inv m → Inv (close_session m p s)
unfolding close_session
close_session-Inv m p s r v =
    if_cases Inv m.preserve_on_close _ _ (λ _. release_capacity_reservation-Inv m p s r v)
      (λ _. cleanup_session-Inv m p s r v)
