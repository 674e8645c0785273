-- ===== src/Terminal/Preservation.antt =====
-- worker/worker-docker/internal/runner/terminal_exec.go: the invariant and the sections of commands.
use onlyboxes.Prelude.{
  ℕ, ◌<◌, ◌≡◌, refl, inl, inr, Bool, true, false, Option, none, some, Text, arith, lookup,
  get_elem?, ◌==◌, ltb, leb, Bool-cases, Option-cases, trim_space, is_empty, ◌&&◌, if_cases,
}
use onlyboxes.Terminal.Defs.{
  Session, Manager, Result, ok, err, current, put, dec, schedule_session_lease_timer,
}
use onlyboxes.Terminal.Claim.{
  new_session, as_created, new_session_locked, take_slot, claim_found, claim_session, dying_session,
  retire, release_found, release_session, release_and_destroy_found, release_and_destroy_session,
}
use onlyboxes.Terminal.Invariant.{IsEntry, Inv, IsValid-set, IsValid-drop, IsValid-add}

pub current-some :
    (m : Manager) (id : Text) {p : ℕ} {s : Session}
    → current m id ≡ some (p, s)
    → (lookup id m.sessions ≡ some p) × (get_elem? m.heap p ≡ some s)
unfolding current
current-some m id h = elim (Option-cases (lookup id m.sessions)) [
  | inl e ↦ absurd (ground arith)
  | inr (q, e) ↦ elim (Option-cases (get_elem? m.heap q)) [
    | inl f ↦ absurd (ground arith)
    | inr (t, f) ↦ ground arith
  ]
]

pub current-none :
    (m : Manager) (id : Text) → Inv m → current m id ≡ none → lookup id m.sessions ≡ none
unfolding current
current-none m id v h = elim (Option-cases (lookup id m.sessions)) [
  | inl e ↦ e
  | inr (q, e) ↦ let (s, hs, k) = v.entries id q e in absurd (ground arith)
]

pub schedule-IsEntry :
    (closed : Bool) (max : ℕ) (id : Text) (s : Session)
    → IsEntry true max id s
    → IsEntry closed max id (schedule_session_lease_timer closed s)
unfolding schedule_session_lease_timer
schedule-IsEntry closed max id s k = ground arith

-- Only a session that is out of the map is cleaned up.
abbrev pub IsRetired : Manager → ℕ → Session → Type 0
IsRetired m p s = (get_elem? m.heap p ≡ some s) × (s.retired ≡ true)

pub retire-Inv :
    (m : Manager) (id : Text) (p : ℕ) (s s' : Session)
    → current m id ≡ some (p, s)
    → s'.capacity_reserved ≡ s.capacity_reserved
    → Inv m
    → Inv (retire m id p s')
retire-Inv m id p s s' h hres v =
    let (hl, hg) = current-some m id h in
    IsValid-drop v id p s (record s' { retired = true }) hl hg hres refl

pub put-Inv :
    (m : Manager) (id : Text) (p : ℕ) (s s' : Session)
    → current m id ≡ some (p, s)
    → s'.session_id ≡ s.session_id
    → s'.capacity_reserved ≡ s.capacity_reserved
    → s'.retired ≡ s.retired
    → ((j : Text)
        → IsEntry m.closed m.session_max_inflight j s
        → IsEntry m.closed m.session_max_inflight j s')
    → Inv m
    → Inv (put m p s')
put-Inv m id p s s' h hid hres hret keep v =
    IsValid-set v p s s' (current-some m id h).1 hid hres hret keep

module _ (hash : Text → Text) where
  new_session-IsEntry :
      (closed : Bool) (max : ℕ) (id : Text) (target : ℕ)
      → 0 < max
      → IsEntry closed max id (schedule_session_lease_timer closed (new_session hash id target))
  unfolding new_session
  new_session-IsEntry closed max id target h =
      schedule-IsEntry closed max id (new_session hash id target) (ground arith)

  pub new_session_locked-Inv :
      (m : Manager) (id : Text) (target : ℕ)
      → lookup id m.sessions ≡ none
      → Inv m
      → Inv (new_session_locked hash m id target).0
  unfolding new_session_locked
  new_session_locked-Inv m id target h v =
      elim (Bool-cases
        (ltb 0 m.max_active_sessions && leb m.max_active_sessions m.active_session_reservations)) [
          | inl full ↦ rw full v
          | inr free ↦ rw free (
              IsValid-add v id _ h
                (new_session-IsEntry m.closed m.session_max_inflight id target v.positive))
        ]

  take_slot-IsEntry :
      (closed : Bool) (max : ℕ) (id : Text) (s : Session) (target : ℕ)
      → s.destroying ≡ false
      → s.inflight < max
      → IsEntry closed max id s
      → IsEntry closed max id (take_slot hash closed s target)
  unfolding take_slot
  take_slot-IsEntry closed max id s target h b k = ground arith

  take_slot_same :
      (closed : Bool) (s : Session) (target : ℕ)
      → let t = take_slot hash closed s target in
        (t.session_id ≡ s.session_id)
        × (t.capacity_reserved ≡ s.capacity_reserved)
        × (t.retired ≡ s.retired)
  unfolding take_slot
  take_slot_same closed s target = ground arith

  as_created-Inv : (r : Manager × Result ℕ) → Inv r.0 → Inv (as_created hash r).0
  as_created-Inv (m, ok p) v = v
  as_created-Inv (m, err e) v = v

  claim_found-Inv :
      (m : Manager) (id : Text) (target : ℕ) (create : Bool) (o : Option (ℕ × Session))
      → current m id ≡ o
      → Inv m
      → Inv (claim_found hash m id target create o).0
  unfolding claim_found
  claim_found-Inv m id target true none h v =
      as_created-Inv _ (new_session_locked-Inv m id target (current-none m id v h) v)
  claim_found-Inv m id target false none h v = v
  claim_found-Inv m id target create (some (p, s)) h v =
      if_cases (λ (r : Manager × Result (ℕ × Bool)). Inv r.0) s.destroying _ _ (λ _. v)
        λ e.
          if_cases (λ (r : Manager × Result (ℕ × Bool)). Inv r.0)
            (leb m.session_max_inflight s.inflight) _ _ (λ _. v)
            λ room.
              let (same_id, same_res, same_ret) = take_slot_same m.closed s target in
              put-Inv m id p s (take_slot hash m.closed s target) h same_id same_res same_ret
                (λ j. take_slot-IsEntry m.closed m.session_max_inflight j s target e (ground arith))
                v

  -- `uuid.NewString` gives an id that the map does not have.
  pub claim_session-Inv :
      (m : Manager) (id : Text) (target : ℕ) (create : Bool) (uuid : Text)
      → lookup uuid m.sessions ≡ none
      → Inv m
      → Inv (claim_session hash m id target create uuid).0
  unfolding claim_session
  claim_session-Inv m id target create uuid fresh v =
      if_cases (λ (r : Manager × Result (ℕ × Bool)). Inv r.0) m.closed _ _ (λ _. v)
        λ _.
          if_cases (λ (r : Manager × Result (ℕ × Bool)). Inv r.0) (is_empty id) _ _
            (λ _. as_created-Inv _ (new_session_locked-Inv m uuid target fresh v))
            (λ _. claim_found-Inv m id target create (current m id) refl v)

release_found-Inv :
    (m : Manager) (id : Text) (o : Option (ℕ × Session))
    → current m id ≡ o
    → Inv m
    → Inv (release_found m id o).0
unfolding release_found
release_found-Inv m id none h v = v
release_found-Inv m id (some (p, s)) h v =
    if_cases (λ (r : Manager × Option ℕ × Option ℕ). Inv r.0) (s.destroying && dec s.inflight == 0)
      _ _ (λ _. retire-Inv m id p s (record s { inflight = dec s.inflight }) h refl v)
      (λ go.
        put-Inv m id p s (record s { inflight = dec s.inflight }) h refl refl refl
          (λ j k. ground arith) v)

pub release_session-Inv : (m : Manager) (id : Text) → Inv m → Inv (release_session m id).0
unfolding release_session
release_session-Inv m id v =
    if_cases (λ (r : Manager × Option ℕ × Option ℕ). Inv r.0) (is_empty (trim_space id)) _ _
      (λ _. v) (λ _. release_found-Inv m (trim_space id) (current m (trim_space id)) refl v)

release_and_destroy_found-Inv :
    (m : Manager) (id : Text) (o : Option (ℕ × Session))
    → current m id ≡ o
    → Inv m
    → Inv (release_and_destroy_found m id o).0
unfolding release_and_destroy_found
release_and_destroy_found-Inv m id none h v = v
release_and_destroy_found-Inv m id (some (p, s)) h v =
    if_cases (λ (r : Manager × Option ℕ). Inv r.0) (dec s.inflight == 0) _ _
      (λ _. retire-Inv m id p s (dying_session s) h refl v)
      (λ go. put-Inv m id p s (dying_session s) h refl refl refl (λ j k. ground arith) v)

pub release_and_destroy_session-Inv :
    (m : Manager) (id : Text) → Inv m → Inv (release_and_destroy_session m id).0
unfolding release_and_destroy_session
release_and_destroy_session-Inv m id v =
    if_cases (λ (r : Manager × Option ℕ). Inv r.0) (is_empty (trim_space id)) _ _ (λ _. v)
      (λ _. release_and_destroy_found-Inv m (trim_space id) (current m (trim_space id)) refl v)
