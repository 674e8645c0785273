-- ===== src/Terminal/Shutdown.antt =====
-- worker/worker-docker/internal/runner/terminal_exec.go: the invariant and the section of `Close` that
-- takes all sessions.
use onlyboxes.Prelude.{
  ℕ, ◌≡◌, refl, sym, ◌≢◌, ◌⊎◌, inl, inr, true, Option, none, some, List, [], ◌∷◌, Text, Map, arith,
  lookup, get_elem?, count, count-set, get_elem?-set_cases, ap, ◌∙◌,
}
use onlyboxes.Terminal.Defs.{Session, Manager, stop_session_lease_timer}
use onlyboxes.Terminal.Lifecycle.{retire_at, retire_all, take_all_sessions}
use onlyboxes.Terminal.Invariant.{Inv, reserved}

abbrev taken : Session → Session
taken s = record (stop_session_lease_timer s) { retired = true }

count-retire_at :
    (p : ℕ) (heap : List Session) (o : Option Session)
    → get_elem? heap p ≡ o
    → count reserved (retire_at p o heap) ≡ count reserved heap
count-retire_at p heap none h = refl
count-retire_at p heap (some s) h = ground (arith, count-set reserved heap p (taken s) h)

count-retire_all :
    (todo : Map ℕ) (heap : List Session)
    → count reserved (retire_all todo heap) ≡ count reserved heap
unfolding retire_all
count-retire_all [] heap = refl
count-retire_all ((id, p) ∷ rest) heap =
    count-retire_all rest (retire_at p (get_elem? heap p) heap)
    ∙ count-retire_at p heap (get_elem? heap p) refl

-- A session after a round is retired, or as it was and not the one of this round.
get_elem?-retire_at :
    (p : ℕ) (heap : List Session) (o : Option Session) (q : ℕ) (t : Session)
    → get_elem? heap p ≡ o
    → get_elem? (retire_at p o heap) q ≡ some t
    → (t.retired ≡ true) ⊎ ((p ≢ q) × (get_elem? heap q ≡ some t))
get_elem?-retire_at p heap none q t h k = inr (λ e. absurd (cc (h, k, ap (get_elem? heap) e)), k)
get_elem?-retire_at p heap (some s) q t h k = elim (get_elem?-set_cases heap p q h k) [
  | inl (e, f) ↦ inl (ap (λ (r : Session). r.retired) f)
  | inr e ↦ inr e
]

get_elem?-retire_all :
    (todo : Map ℕ) (heap : List Session) (q : ℕ) (t : Session) (id : Text)
    → get_elem? (retire_all todo heap) q ≡ some t
    → (t.retired ≡ true) ⊎ ((get_elem? heap q ≡ some t) × (lookup id todo ≢ some q))
unfolding retire_all lookup
get_elem?-retire_all [] heap q t id h = inr (h, λ e. cc)
get_elem?-retire_all ((j, p) ∷ rest) heap q t id h =
    elim (get_elem?-retire_all rest (retire_at p (get_elem? heap p) heap) q t id h) [
      | inl gone ↦ inl gone
      | inr (old, apart) ↦ elim (get_elem?-retire_at p heap (get_elem? heap p) q t refl old) [
        | inl gone ↦ inl gone
        | inr (ne, older) ↦ inr (older, λ e. ground arith)
      ]
    ]

pub take_all_sessions-Inv : (m : Manager) → Inv m → Inv (take_all_sessions m)
unfolding take_all_sessions
take_all_sessions-Inv m v = record {
  positive = v.positive;
  accounts = v.accounts ∙ sym (count-retire_all m.sessions m.heap);
  entries = λ id p h. unfold lookup in absurd (cc h);
  no_leak = λ q t h hr. elim (get_elem?-retire_all m.sessions m.heap q t t.session_id h) [
    | inl gone ↦ inl gone
    | inr (old, apart) ↦ elim (v.no_leak q t old hr) [
      | inl gone ↦ inl gone
      | inr held ↦ absurd (apart held)
    ]
  ];
}
