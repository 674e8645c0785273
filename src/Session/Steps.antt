-- ===== src/Session/Steps.antt =====
-- console/internal/grpcserver/session_runtime.go: a worker's session under concurrency. Any
-- interleaving of dispatches, results and the closing of the session is a sequence of these steps.
use onlyboxes.Prelude.{
  ℕ, ◌+◌, ◌≤◌, ◌<◌, ◌≡◌, inl, inr, refl, sym, ap, subst, ◌∙◌, true, false, Option, none, some, List,
  [], ◌∷◌, Text, Map, arith, lookup, insert, Distinct, tally, lookup-insert_cases, lookup-insert,
  text_eq_iff, trim_space, is_empty, if_cases,
}
use onlyboxes.Session.Defs.{
  Error, CommandOutcome, PendingCommand, SessionCapability, CapabilityDeclaration, ActiveSession,
  normalize_capability, max_or_default, add_capabilities, capabilities_from_hello,
  new_active_session, inflight_snapshot, try_acquire_capability, release_capability,
}
use onlyboxes.Session.Pending.{
  register_pending, take_pending, close_result, finish_pending, begin_close, take_all_pending,
}
use onlyboxes.Session.Slots.{System, drop, uses, HasSlots, acquired}
use onlyboxes.Session.Inflight.{
  try_acquire-HasSlots, release-HasSlots, snapshot-HasSlots, registered, register-HasSlots, handed,
  take_pending-HasSlots,
}

pub data Step (y : System) : System → Type 0 where
  acquire :
      (c : Text)
      → Step y (acquired y.held (normalize_capability c) (try_acquire_capability y.session c))
  snapshot : (c : Text) → Step y (record y { session = (inflight_snapshot y.session c).0 })
  -- A dispatch that fails before it has registered gives its slot back.
  give_back :
      (c : Text)
      → 0 < y.held (normalize_capability c)
      → Step y (record {
        session = release_capability y.session c;
        held = drop y.held (normalize_capability c);
      })
  -- The id is that of a new UUID.
  register :
      (id c : Text)
      → lookup (trim_space id) y.session.pending ≡ none
      → 0 < y.held (normalize_capability c)
      → Step y (registered y.held (normalize_capability c) (register_pending y.session id c))
  -- A result, or the end of the dispatch, takes a command out of the map.
  take : (id : Text) → Step y (handed y.held (take_pending y.session id))
  finish :
      (p : PendingCommand) (outcome : Option CommandOutcome)
      → 0 < y.held (normalize_capability p.capability)
      → Step y (record {
        session = finish_pending y.session p outcome;
        held = drop y.held (normalize_capability p.capability);
      })
  close_begins :
      (reason : Option Error) → Step y (record y { session = begin_close y.session reason })
  close_takes : Step y (record {
    session = (take_all_pending y.session).0;
    held = λ c. y.held c + tally (uses c) y.session.pending;
  })

pub data Reach (y : System) : System → Type 0 where
  here : Reach y y
  next : {z w : System} → Reach y z → Step z w → Reach y w

close_result_same :
    (s : ActiveSession) (p : PendingCommand) (outcome : Option CommandOutcome)
    → ((close_result s p outcome).capabilities ≡ s.capabilities)
      × ((close_result s p outcome).pending ≡ s.pending)
unfolding close_result
close_result_same s p outcome = ground arith

close_result-HasSlots :
    (s : ActiveSession) (held : Text → ℕ) (p : PendingCommand) (outcome : Option CommandOutcome)
    → HasSlots (record { session = s; held = held })
    → HasSlots (record { session = close_result s p outcome; held = held })
close_result-HasSlots s held p outcome v =
    let (caps, pend) = close_result_same s p outcome in
    record {
      distinct = subst Distinct (sym pend) v.distinct;
      named = λ c e. ap (lookup c) caps ∙ v.named c e;
      exact = λ c st h.
          subst
            (λ (q : Map PendingCommand).
              (st.inflight ≡ tally (uses c) q + held c) × (st.inflight ≤ max_or_default st))
            (sym pend) (v.exact c st (sym (ap (lookup c) caps) ∙ h));
    }

begin_close_same :
    (s : ActiveSession) (reason : Option Error)
    → ((begin_close s reason).capabilities ≡ s.capabilities)
      × ((begin_close s reason).pending ≡ s.pending)
unfolding begin_close
begin_close_same s reason = ground arith

begin_close-HasSlots :
    (s : ActiveSession) (held : Text → ℕ) (reason : Option Error)
    → HasSlots (record { session = s; held = held })
    → HasSlots (record { session = begin_close s reason; held = held })
unfolding begin_close
begin_close-HasSlots s held reason v =
    if_cases (λ (t : ActiveSession). HasSlots (record { session = t; held = held })) s.done _ _
      (λ _. v) (λ _. record { distinct = v.distinct; named = v.named; exact = v.exact })

pub Step-HasSlots : {y z : System} → Step y z → HasSlots y → HasSlots z
unfolding finish_pending take_all_pending
Step-HasSlots {y} (acquire c) v = try_acquire-HasSlots y.session y.held c v
Step-HasSlots {y} (snapshot c) v = snapshot-HasSlots y.session y.held c v
Step-HasSlots {y} (give_back c pos) v = release-HasSlots y.session y.held c pos v
Step-HasSlots {y} (register id c fresh pos) v = register-HasSlots y.session y.held id c fresh pos v
Step-HasSlots {y} (take id) v = take_pending-HasSlots y.session y.held id v
Step-HasSlots {y} (finish p outcome pos) v =
    close_result-HasSlots (release_capability y.session p.capability)
      (drop y.held (normalize_capability p.capability)) p outcome
      (release-HasSlots y.session y.held p.capability pos v)
Step-HasSlots {y} (close_begins reason) v = begin_close-HasSlots y.session y.held reason v
Step-HasSlots {y} close_takes v = record {
  distinct = tt;
  named = v.named;
  exact = λ c st h. ground (arith, v.exact c st h);
}

-- No capability of a new session is in use, and none is blank.
abbrev IsIdle : Map SessionCapability → Type 0
IsIdle caps =
    ((c : Text) → is_empty c ≡ true → lookup c caps ≡ none)
    × ((c : Text) (st : SessionCapability) → lookup c caps ≡ some st → st.inflight ≡ 0)

insert-IsIdle :
    (caps : Map SessionCapability) (name : Text) (max : ℕ)
    → is_empty name ≡ false
    → IsIdle caps
    → IsIdle (insert name (record { max_inflight = max; inflight = 0 }) caps)
insert-IsIdle caps name max e (named, idle) = (
  λ c f. ground (
    arith,
    named c f,
    lookup-insert name c (record { max_inflight = max; inflight = 0 }) caps,
    text_eq_iff name c,
  ),
  λ c st h. elim (lookup-insert_cases name c _ caps h) [
    | inl (k, f) ↦ ap (λ (t : SessionCapability). t.inflight) f
    | inr (ne, old) ↦ idle c st old
  ],
)

add_capabilities-IsIdle :
    (cs : List CapabilityDeclaration) (caps : Map SessionCapability)
    → IsIdle caps
    → IsIdle (add_capabilities cs caps)
unfolding add_capabilities
add_capabilities-IsIdle [] caps v = v
add_capabilities-IsIdle (c ∷ cs) caps v = add_capabilities-IsIdle cs _ (
    if_cases IsIdle (is_empty (normalize_capability c.name)) _ _ (λ _. v)
      (λ e. insert-IsIdle caps (normalize_capability c.name) _ e v))

abbrev pub new_system : List CapabilityDeclaration → System
new_system cs = record { session = new_active_session cs; held = λ c. 0 }

new-HasSlots : (cs : List CapabilityDeclaration) → HasSlots (new_system cs)
unfolding new_active_session capabilities_from_hello
new-HasSlots cs =
    let (named, idle) =
      add_capabilities-IsIdle cs []
        (λ c e. unfold lookup in refl, λ c st h. unfold lookup in absurd (cc h)) in
    record { distinct = tt; named = named; exact = λ c st h. ground (arith, idle c st h) }

Reach-HasSlots_from : {y z : System} → HasSlots y → Reach y z → HasSlots z
Reach-HasSlots_from v here = v
Reach-HasSlots_from v (next r st) = Step-HasSlots st (Reach-HasSlots_from v r)

-- From a new session on, through any interleaving of dispatches, results, releases and the closing
-- of the session: the commands in flight that a capability counts are exactly the pending commands
-- that use it and the slots in the hands of a goroutine, and never more than its limit.
pub Reach-HasSlots :
    (cs : List CapabilityDeclaration) {y : System} → Reach (new_system cs) y → HasSlots y
Reach-HasSlots cs r = Reach-HasSlots_from (new-HasSlots cs) r
