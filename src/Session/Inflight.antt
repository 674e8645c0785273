-- ===== src/Session/Inflight.antt =====
-- console/internal/grpcserver/session_runtime.go: the sections of a session and the accounting of
-- slots.
use onlyboxes.Prelude.{
  ℕ, ◌-◌, ◌<◌, ◌≡◌, ◌≢◌, refl, ap, Bool, true, Option, none, some, Text, Map, arith, lookup, insert,
  remove, tally-insert, tally-remove, insert-Distinct, remove-Distinct, text_eq_iff, trim_space,
  is_empty, ltb, if_cases,
}
use onlyboxes.Session.Defs.{
  Result, ok, err, PendingCommand, SessionCapability, ActiveSession, normalize_capability,
  max_or_default, inflight_found, inflight_snapshot, try_acquire_capability, release_found,
  release_capability,
}
use onlyboxes.Session.Pending.{register_pending, take_pending}
use onlyboxes.Session.Slots.{
  System, grab, drop, uses, Exact, HasSlots, normalize_capability_idem, put-named, put-Exact,
  drop_self, drop_ne, acquired, acquire_found-HasSlots,
}

pub try_acquire-HasSlots :
    (s : ActiveSession) (held : Text → ℕ) (c : Text)
    → HasSlots (record { session = s; held = held })
    → HasSlots (acquired held (normalize_capability c) (try_acquire_capability s c))
unfolding try_acquire_capability
try_acquire-HasSlots s held c v =
    let name = normalize_capability c in
    if_cases (λ (r : ActiveSession × Bool). HasSlots (acquired held name r)) (is_empty name) _ _
      (λ _. v) (λ _. acquire_found-HasSlots s held name (lookup name s.capabilities) refl v)

release_found-HasSlots :
    (s : ActiveSession) (held : Text → ℕ) (name : Text) (o : Option SessionCapability)
    → lookup name s.capabilities ≡ o
    → 0 < held name
    → HasSlots (record { session = s; held = held })
    → HasSlots (record { session = release_found s name o; held = drop held name })
unfolding release_found
release_found-HasSlots s held name none h pos v = record {
  distinct = v.distinct;
  named = v.named;
  exact = λ c st k.
      let apart : name ≢ c =
        λ e. absurd (cc (h, k, ap (λ (j : Text). lookup j s.capabilities) e)) in
      ground (arith, v.exact c st k, drop_ne held name c apart);
}
release_found-HasSlots s held name (some st) h pos v =
    let fewer : SessionCapability = record st { inflight = st.inflight - 1 } in
    if_cases (λ (t : ActiveSession). HasSlots (record { session = t; held = drop held name }))
      (ltb 0 st.inflight) _ _
      (λ _. record {
        distinct = v.distinct;
        named = put-named s.capabilities name st fewer h v.named;
        exact =
            put-Exact s.capabilities s.pending held (drop held name) name st fewer h v.exact
              (ground (arith, v.exact name st h, drop_self held name))
              (ground (arith, v.exact name st h)) (λ c ne. drop_ne held name c ne);
      })
      (λ none_left. absurd (ground (arith, v.exact name st h)))

-- Nothing is counted under a blank name.
drop_blank :
    (s : ActiveSession) (held : Text → ℕ) (name : Text)
    → is_empty name ≡ true
    → HasSlots (record { session = s; held = held })
    → HasSlots (record { session = s; held = drop held name })
drop_blank s held name e v = record {
  distinct = v.distinct;
  named = v.named;
  exact = λ c st k.
      let apart : name ≢ c =
        λ f. absurd (cc (v.named name e, k, ap (λ (j : Text). lookup j s.capabilities) f)) in
      ground (arith, v.exact c st k, drop_ne held name c apart);
}

pub release-HasSlots :
    (s : ActiveSession) (held : Text → ℕ) (c : Text)
    → 0 < held (normalize_capability c)
    → HasSlots (record { session = s; held = held })
    → HasSlots
        (record { session = release_capability s c; held = drop held (normalize_capability c) })
unfolding release_capability
release-HasSlots s held c pos v =
    let name = normalize_capability c in
    if_cases (λ (t : ActiveSession). HasSlots (record { session = t; held = drop held name }))
      (is_empty name) _ _ (λ e. drop_blank s held name e v)
      (λ _. release_found-HasSlots s held name (lookup name s.capabilities) refl pos v)

snapshot_found-HasSlots :
    (s : ActiveSession) (held : Text → ℕ) (name : Text) (o : Option SessionCapability)
    → lookup name s.capabilities ≡ o
    → HasSlots (record { session = s; held = held })
    → HasSlots (record { session = (inflight_found s name o).0; held = held })
unfolding inflight_found
snapshot_found-HasSlots s held name none h v = v
snapshot_found-HasSlots s held name (some st) h v =
    let full : SessionCapability = record st { max_inflight = max_or_default st } in
    record {
      distinct = v.distinct;
      named = put-named s.capabilities name st full h v.named;
      exact =
          put-Exact s.capabilities s.pending held held name st full h v.exact (v.exact name st h).0
            (ground (arith, v.exact name st h)) (λ c ne. refl);
    }

pub snapshot-HasSlots :
    (s : ActiveSession) (held : Text → ℕ) (c : Text)
    → HasSlots (record { session = s; held = held })
    → HasSlots (record { session = (inflight_snapshot s c).0; held = held })
unfolding inflight_snapshot
snapshot-HasSlots s held c v =
    let name = normalize_capability c in
    if_cases
      (λ (r : ActiveSession × Option (ℕ × ℕ)). HasSlots (record { session = r.0; held = held }))
      (is_empty name) _ _ (λ _. v)
      (λ _. snapshot_found-HasSlots s held name (lookup name s.capabilities) refl v)

-- A slot that moves from a goroutine's hands into the map of pending commands.
abbrev pub registered : (Text → ℕ) → Text → ActiveSession × Result ℕ → System
registered held k (s, ok ch) = record { session = s; held = drop held k }
registered held k (s, err e) = record { session = s; held = held }

register-Exact :
    (caps : Map SessionCapability) (pending : Map PendingCommand) (held : Text → ℕ) (id cap : Text)
    (ch : ℕ)
    → lookup id pending ≡ none
    → 0 < held (normalize_capability cap)
    → Exact caps pending held
    → Exact caps
        (insert id (record { result_ch = ch; capability = normalize_capability cap }) pending)
        (drop held (normalize_capability cap))
register-Exact caps pending held id cap ch fresh pos exact c st h = ground (
  arith,
  exact c st h,
  tally-insert (uses c) id (record { result_ch = ch; capability = normalize_capability cap })
      pending fresh,
  normalize_capability_idem cap,
  text_eq_iff (normalize_capability cap) c,
)

pub register-HasSlots :
    (s : ActiveSession) (held : Text → ℕ) (id cap : Text)
    → lookup (trim_space id) s.pending ≡ none
    → 0 < held (normalize_capability cap)
    → HasSlots (record { session = s; held = held })
    → HasSlots (registered held (normalize_capability cap) (register_pending s id cap))
unfolding register_pending
register-HasSlots s held id cap fresh pos v =
    if_cases
      (λ (r : ActiveSession × Result ℕ). HasSlots (registered held (normalize_capability cap) r))
      (is_empty (trim_space id)) _ _ (λ _. v)
      λ _.
        if_cases
          (λ (r : ActiveSession × Result ℕ).
            HasSlots (registered held (normalize_capability cap) r))
          s.done _ _ (λ _. v)
          λ _. record {
            distinct = insert-Distinct (trim_space id) _ s.pending v.distinct;
            named = v.named;
            exact =
                register-Exact s.capabilities s.pending held (trim_space id) cap _ fresh pos
                  v.exact;
          }

-- And out of it again, when the command is taken in order to be ended.
abbrev pub handed : (Text → ℕ) → ActiveSession × Option PendingCommand → System
handed held (s, none) = record { session = s; held = held }
handed held (s, some p) = record {
  session = s;
  held = grab held (normalize_capability p.capability);
}

take_found-HasSlots :
    (s : ActiveSession) (held : Text → ℕ) (id : Text) (o : Option PendingCommand)
    → lookup id s.pending ≡ o
    → HasSlots (record { session = s; held = held })
    → HasSlots (
        handed held (elim o [
          | none ↦ (s, none)
          | some p ↦ (record s { pending = remove id s.pending }, some p)
        ]))
take_found-HasSlots s held id none h v = v
take_found-HasSlots s held id (some p) h v = record {
  distinct = remove-Distinct id s.pending v.distinct;
  named = v.named;
  exact = λ c st k. ground (
    arith,
    v.exact c st k,
    tally-remove (uses c) id p s.pending v.distinct h,
    text_eq_iff (normalize_capability p.capability) c,
  );
}

pub take_pending-HasSlots :
    (s : ActiveSession) (held : Text → ℕ) (id : Text)
    → HasSlots (record { session = s; held = held })
    → HasSlots (handed held (take_pending s id))
unfolding take_pending
take_pending-HasSlots s held id v =
    if_cases (λ (r : ActiveSession × Option PendingCommand). HasSlots (handed held r))
      (is_empty (trim_space id)) _ _ (λ _. v)
      (λ _. take_found-HasSlots s held (trim_space id) (lookup (trim_space id) s.pending) refl v)
