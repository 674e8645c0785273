-- ===== src/Terminal/Swept.antt =====
-- worker/worker-docker/internal/runner/terminal_exec.go: the map after a round of the janitor.
use onlyboxes.Prelude.{
  ℕ, ◌≡◌, ◌<◌, ◌⊎◌, inl, inr, refl, sym, ap, subst, ◌∙◌, true, ◌||◌, Option, none, some, List, [],
  ◌∷◌, Text, Map, arith, lookup, lookup-remove_self, lookup-remove-some, get_elem?,
  get_elem?-set_cases, text_eq, text_eq→eq, ltb, if_cases, Bool-cases, Option-cases,
}
use onlyboxes.Terminal.Defs.{Session, Manager, current, deref}
use onlyboxes.Terminal.Claim.{retire}
use onlyboxes.Terminal.Lease.{
  expired_session, expire_entry, expire_entries, cleanup_expired_sessions,
}
use onlyboxes.Terminal.Preservation.{current-some}

-- If the map has the id, its session has not run out, or is being torn down.
abbrev NotOverdue : ℕ → Manager → Text → Type 0
NotOverdue now m id =
    (p : ℕ) (s : Session)
    → current m id ≡ some (p, s)
    → (s.destroying ≡ true) ⊎ (now < s.lease_expires_at)

current-of :
    (m : Manager) (id : Text) (p : ℕ) (s : Session)
    → lookup id m.sessions ≡ some p
    → get_elem? m.heap p ≡ some s
    → current m id ≡ some (p, s)
unfolding current deref
current-of m id p s h g = ground arith

retire-NotOverdue :
    (now : ℕ) (m : Manager) (id : Text) (p : ℕ) (s : Session) → NotOverdue now (retire m id p s) id
retire-NotOverdue now m id p s q t h =
    absurd (cc (sym (lookup-remove_self id m.sessions) ∙ (current-some (retire m id p s) id h).0))

retire-keeps :
    (now : ℕ) (m : Manager) (id j : Text) (p : ℕ) (s : Session)
    → current m id ≡ some (p, s)
    → NotOverdue now m j
    → NotOverdue now (retire m id p (expired_session s)) j
retire-keeps now m id j p s found old q t h =
    let (hl, hg) = current-some (retire m id p (expired_session s)) j h in
    let (ne, there) = lookup-remove-some id j m.sessions hl in
    elim (get_elem?-set_cases m.heap p q (current-some m id found).1 hg) [
      | inl (e, f) ↦ inl (ap (λ (x : Session). x.destroying) f)
      | inr (e, f) ↦ old q t (current-of m j q t there f)
    ]

same_entry :
    {p q : ℕ} {s t : Session} {o : Option (ℕ × Session)} → o ≡ some (p, s) → o ≡ some (q, t) → s ≡ t
same_entry h k = let e = sym h ∙ k in cc

expire_entry-NotOverdue :
    (now : ℕ) (id : Text) (o : Option (ℕ × Session)) (m : Manager) (expired : List ℕ)
    → current m id ≡ o
    → NotOverdue now (expire_entry now id o (m, expired)).0 id
unfolding expire_entry
expire_entry-NotOverdue now id none m expired found = λ p s h. absurd (cc (sym found ∙ h))
expire_entry-NotOverdue now id (some (p, s)) m expired found =
    if_cases (λ (r : Manager × List ℕ). NotOverdue now r.0 id)
      (s.destroying || ltb now s.lease_expires_at) _ _
      (λ kept q t h.
        let same = same_entry found h in
        subst (λ (x : Session). (x.destroying ≡ true) ⊎ (now < x.lease_expires_at)) same
          (either s kept))
      (λ _. retire-NotOverdue now m id p (expired_session s))
  where
    either :
        (x : Session)
        → (x.destroying || ltb now x.lease_expires_at) ≡ true
        → (x.destroying ≡ true) ⊎ (now < x.lease_expires_at)
    either x k = ground arith

expire_entry-keeps :
    (now : ℕ) (id j : Text) (o : Option (ℕ × Session)) (m : Manager) (expired : List ℕ)
    → current m id ≡ o
    → NotOverdue now m j
    → NotOverdue now (expire_entry now id o (m, expired)).0 j
unfolding expire_entry
expire_entry-keeps now id j none m expired found old = old
expire_entry-keeps now id j (some (p, s)) m expired found old =
    if_cases (λ (r : Manager × List ℕ). NotOverdue now r.0 j)
      (s.destroying || ltb now s.lease_expires_at) _ _ (λ _. old)
      (λ _. retire-keeps now m id j p s found old)

expire_entries-swept :
    (now : ℕ) (id : Text) (entries : Map ℕ) (m : Manager) (expired : List ℕ)
    → NotOverdue now m id ⊎ ((p : ℕ) × (lookup id entries ≡ some p))
    → NotOverdue now (expire_entries now entries (m, expired)).0 id
unfolding expire_entries
expire_entries-swept now id [] m expired (inl done) = done
expire_entries-swept now id [] m expired (inr (p, e)) = unfold lookup in absurd (cc e)
expire_entries-swept now id ((k, p) ∷ rest) m expired (inl done) =
    let step = expire_entry now k (current m k) (m, expired) in
    expire_entries-swept now id rest step.0 step.1
      (inl (expire_entry-keeps now k id (current m k) m expired refl done))
expire_entries-swept now id ((k, p) ∷ rest) m expired (inr (q, e)) =
    let step = expire_entry now k (current m k) (m, expired) in
    elim (Bool-cases (text_eq k id)) [
      | inl same ↦ expire_entries-swept now id rest step.0 step.1 (
          inl (
            subst (NotOverdue now step.0) (text_eq→eq k id same)
              (expire_entry-NotOverdue now k (current m k) m expired refl)))
      | inr differ ↦
          expire_entries-swept now id rest step.0 step.1 (inr (q, unfold lookup in ground arith))
    ]

-- After a round of the janitor, every session that the map still has is one whose lease is not
-- over at that instant, or one that is being torn down and waits for its last command.
pub cleanup_expired_sessions-swept :
    (m : Manager) (now : ℕ) (id : Text) (p : ℕ) (s : Session)
    → current (cleanup_expired_sessions m now).0 id ≡ some (p, s)
    → (s.destroying ≡ true) ⊎ (now < s.lease_expires_at)
unfolding cleanup_expired_sessions
cleanup_expired_sessions-swept m now id p s h = elim (Option-cases (lookup id m.sessions)) [
  | inl e ↦
      expire_entries-swept now id m.sessions m []
        (inl (λ q t k. absurd (cc (sym e ∙ (current-some m id k).0)))) p s h
  | inr (q, e) ↦ expire_entries-swept now id m.sessions m [] (inr (q, e)) p s h
]
