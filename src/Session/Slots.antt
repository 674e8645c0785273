-- ===== src/Session/Slots.antt =====
-- console/internal/grpcserver/session_runtime.go: the accounting of capability slots, those of pending
-- commands and those in the hands of goroutines.
use onlyboxes.Prelude.{
  ℕ, ◌+◌, ◌-◌, ◌≤◌, ◌≡◌, ◌≢◌, inl, inr, refl, sym, subst, Bool, true, false, Option, none, some,
  Text, Map, arith, lookup, insert, Distinct, tally, lookup-insert_cases, lookup-insert, text_eq,
  text_eq_iff, text_eq_refl, is_empty, leb, if◌then◌else◌, if_cases, normalize_idem,
}
use onlyboxes.Session.Defs.{
  PendingCommand, SessionCapability, ActiveSession, normalize_capability, max_or_default,
  acquire_found,
}

-- `held c` counts the slots of the capability `c` that goroutines hold outside the map of pending
-- commands: acquired and not yet registered, or taken out of the map and not yet released.
pub record System : Type 0 where
  pub session : ActiveSession
  pub held : Text → ℕ

abbrev pub grab : (Text → ℕ) → Text → Text → ℕ
grab held k c = if text_eq k c then held c + 1 else held c

abbrev pub drop : (Text → ℕ) → Text → Text → ℕ
drop held k c = if text_eq k c then held c - 1 else held c

-- A pending command counts for the capability whose slot its end gives back.
abbrev pub uses : Text → PendingCommand → Bool
uses c p = text_eq (normalize_capability p.capability) c

abbrev pub Exact : Map SessionCapability → Map PendingCommand → (Text → ℕ) → Type 0
Exact capabilities pending held =
    (c : Text) (st : SessionCapability)
    → lookup c capabilities ≡ some st
    → (st.inflight ≡ tally (uses c) pending + held c) × (st.inflight ≤ max_or_default st)

pub record HasSlots (y : System) : Type 0 where
  pub distinct : Distinct y.session.pending
  pub named : (c : Text) → is_empty c ≡ true → lookup c y.session.capabilities ≡ none
  pub exact : Exact y.session.capabilities y.session.pending y.held

pub normalize_capability_idem :
    (c : Text) → normalize_capability (normalize_capability c) ≡ normalize_capability c
unfolding normalize_capability
normalize_capability_idem c = normalize_idem c

-- A capability that the session has, written anew.
pub put-named :
    (caps : Map SessionCapability) (name : Text) (st new : SessionCapability)
    → lookup name caps ≡ some st
    → ((c : Text) → is_empty c ≡ true → lookup c caps ≡ none)
    → (c : Text) → is_empty c ≡ true
    → lookup c (insert name new caps) ≡ none
put-named caps name st new found named c e =
    ground (arith, named c e, lookup-insert name c new caps, text_eq_iff name c)

pub put-Exact :
    (caps : Map SessionCapability) (pending : Map PendingCommand) (held held' : Text → ℕ)
    (name : Text) (st new : SessionCapability)
    → lookup name caps ≡ some st
    → Exact caps pending held
    → (new.inflight ≡ tally (uses name) pending + held' name)
    → new.inflight ≤ max_or_default new
    → ((c : Text) → name ≢ c → held' c ≡ held c)
    → Exact (insert name new caps) pending held'
put-Exact caps pending held held' name st new found exact at_name bound apart c st' h =
    elim (lookup-insert_cases name c new caps h) [
      | inl (e, f) ↦
          subst
            (λ (k : Text).
              (st'.inflight ≡ tally (uses k) pending + held' k)
              × (st'.inflight ≤ max_or_default st'))
            e
            (subst
              (λ (t : SessionCapability).
                (t.inflight ≡ tally (uses name) pending + held' name)
                × (t.inflight ≤ max_or_default t))
              (sym f) (at_name, bound))
      | inr (ne, old) ↦ ground (arith, exact c st' old, apart c ne)
    ]

pub grab_self : (held : Text → ℕ) (k : Text) → grab held k k ≡ held k + 1
grab_self held k = ground (arith, text_eq_refl k)

pub grab_ne : (held : Text → ℕ) (k c : Text) → k ≢ c → grab held k c ≡ held c
grab_ne held k c ne = ground (arith, text_eq_iff k c)

pub drop_self : (held : Text → ℕ) (k : Text) → drop held k k ≡ held k - 1
drop_self held k = ground (arith, text_eq_refl k)

pub drop_ne : (held : Text → ℕ) (k c : Text) → k ≢ c → drop held k c ≡ held c
drop_ne held k c ne = ground (arith, text_eq_iff k c)

-- The system after an attempt to acquire.
abbrev pub held_after : Bool → (Text → ℕ) → Text → Text → ℕ
held_after true held k = grab held k
held_after false held k = held

abbrev pub acquired : (Text → ℕ) → Text → ActiveSession × Bool → System
acquired held k (s, got) = record { session = s; held = held_after got held k }

pub acquire_found-HasSlots :
    (s : ActiveSession) (held : Text → ℕ) (name : Text) (o : Option SessionCapability)
    → lookup name s.capabilities ≡ o
    → HasSlots (record { session = s; held = held })
    → HasSlots (acquired held name (acquire_found s name o))
unfolding acquire_found
acquire_found-HasSlots s held name none h v = v
acquire_found-HasSlots s held name (some st) h v =
    let full : SessionCapability = record st { max_inflight = max_or_default st } in
    let more : SessionCapability = record full { inflight = st.inflight + 1 } in
    if_cases (λ (r : ActiveSession × Bool). HasSlots (acquired held name r))
      (leb (max_or_default st) st.inflight) _ _
      (λ _. record {
        distinct = v.distinct;
        named = put-named s.capabilities name st full h v.named;
        exact =
            put-Exact s.capabilities s.pending held held name st full h v.exact
              (v.exact name st h).0 (ground (arith, v.exact name st h)) (λ c ne. refl);
      })
      (λ room. record {
        distinct = v.distinct;
        named = put-named s.capabilities name st more h v.named;
        exact =
            put-Exact s.capabilities s.pending held (grab held name) name st more h v.exact
              (ground (arith, v.exact name st h, grab_self held name))
              (ground (arith, v.exact name st h)) (λ c ne. grab_ne held name c ne);
      })
