-- ===== src/Terminal/Invariant.antt =====
-- worker/worker-docker/internal/runner/terminal_exec.go: what holds of the manager between two
-- critical sections, over the parts of its state that the accounting of reservations turns on.
use onlyboxes.Prelude.{
  ℕ, ◌+◌, ◌≤◌, ◌<◌, ◌≡◌, sym, subst, ◌≢◌, ◌⊎◌, inl, inr, Bool, true, false, Option, none, some,
  List, [], ◌∷◌, ◌++◌, Text, Map, arith, lookup, insert, remove, length, get_elem?, set, count,
  count-set, count-append, get_elem?-set_self, get_elem?-set_ne, get_elem?-append_left,
  get_elem?-append_length, get_elem?-set_cases, get_elem?-append_cases, lookup-insert_cases,
  lookup-insert_ne, lookup-insert_self, lookup-remove-some, lookup-remove_ne, ℕ_discrete, ap, ◌∙◌,
}
use onlyboxes.Terminal.Defs.{Session, Manager, dec}

abbrev pub reserved : Session → Bool
reserved s = s.capacity_reserved

-- A session that the map holds under `id`.
pub record IsEntry (closed : Bool) (max : ℕ) (id : Text) (s : Session) : Type 0 where
  pub named : s.session_id ≡ id
  pub holds_capacity : s.capacity_reserved ≡ true
  pub not_retired : s.retired ≡ false
  pub draining : s.destroying ≡ true → 0 < s.inflight
  pub bounded : s.inflight ≤ max
  pub armed : closed ≡ false → s.destroying ≡ false → s.lease_timer ≡ some s.lease_expires_at

pub record IsValid (closed : Bool) (max : ℕ) (sessions : Map ℕ) (heap : List Session)
    (reservations : ℕ) : Type 0 where
  pub positive : 0 < max
  pub accounts : reservations ≡ count reserved heap
  pub entries :
      (id : Text) (p : ℕ)
      → lookup id sessions ≡ some p
      → (s : Session) × (get_elem? heap p ≡ some s) × IsEntry closed max id s
  pub no_leak :
      (p : ℕ) (s : Session)
      → get_elem? heap p ≡ some s
      → s.capacity_reserved ≡ true
      → (s.retired ≡ true) ⊎ (lookup s.session_id sessions ≡ some p)

abbrev pub Inv : Manager → Type 0
Inv m = IsValid m.closed m.session_max_inflight m.sessions m.heap m.active_session_reservations

same_some {ℓ} : {A : Type ℓ} {o : Option A} {a b : A} → o ≡ some a → o ≡ some b → a ≡ b
same_some h k = cc

module _ {closed : Bool} {max : ℕ} {sessions : Map ℕ} {heap : List Session} {n : ℕ} where
  pub IsEntry-at :
      IsValid closed max sessions heap n
      → (id : Text) (p : ℕ) (s : Session) → lookup id sessions ≡ some p
      → get_elem? heap p ≡ some s
      → IsEntry closed max id s
  IsEntry-at v id p s hl hg =
      let (t, ht, e) = v.entries id p hl in subst (IsEntry closed max id) (same_some ht hg) e

  -- A write to a session that stays where it is.
  pub IsValid-set :
      IsValid closed max sessions heap n
      → (p : ℕ) (s s' : Session) → get_elem? heap p ≡ some s
      → s'.session_id ≡ s.session_id
      → s'.capacity_reserved ≡ s.capacity_reserved
      → s'.retired ≡ s.retired
      → ((id : Text) → IsEntry closed max id s → IsEntry closed max id s')
      → IsValid closed max sessions (set heap p s') n
  IsValid-set v p s s' hg hid hres hret keep = record {
    positive = v.positive;
    accounts = ground (arith, v.accounts, count-set reserved heap p s' hg);
    entries = λ id q hl. elim (ℕ_discrete p q) [
      | yes pq ↦ (
        s',
        subst (λ r. get_elem? (set heap p s') r ≡ some s') pq (get_elem?-set_self heap p s' hg),
        keep id (IsEntry-at v id q s hl (subst (λ r. get_elem? heap r ≡ some s) pq hg)),
      )
      | no ne ↦ let (t, ht, k) = v.entries id q hl in (t, get_elem?-set_ne heap p q s' ne ∙ ht, k)
    ];
    no_leak = λ q t ht hr. elim (get_elem?-set_cases heap p q hg ht) [
      | inl (pq, ts) ↦ ground (arith, v.no_leak p s hg, pq, ts)
      | inr (ne, old) ↦ v.no_leak q t old hr
    ];
  }

  -- A session that leaves the map for good.
  pub IsValid-drop :
      IsValid closed max sessions heap n
      → (id : Text) (p : ℕ) (s s' : Session) → lookup id sessions ≡ some p
      → get_elem? heap p ≡ some s
      → s'.capacity_reserved ≡ s.capacity_reserved
      → s'.retired ≡ true
      → IsValid closed max (remove id sessions) (set heap p s') n
  IsValid-drop v id p s s' hl hg hres hret = record {
    positive = v.positive;
    accounts = ground (arith, v.accounts, count-set reserved heap p s' hg);
    entries = λ j q hj.
        let (ne, old) = lookup-remove-some id j sessions hj in
        let (t, ht, k) = v.entries j q old in
        let apart : p ≢ q = λ pq. ne (
          sym (IsEntry-at v id p s hl hg).named
          ∙ (IsEntry-at v j q s old (subst (λ r. get_elem? heap r ≡ some s) pq hg)).named) in
        (t, get_elem?-set_ne heap p q s' apart ∙ ht, k);
    no_leak = λ q t ht hr. elim (get_elem?-set_cases heap p q hg ht) [
      | inl (pq, ts) ↦ inl (ap (λ (r : Session). r.retired) ts ∙ hret)
      | inr (ne, old) ↦ elim (v.no_leak q t old hr) [
        | inl gone ↦ inl gone
        | inr held ↦ inr (
            lookup-remove_ne id t.session_id sessions
              (λ e. ne (same_some hl (subst (λ j. lookup j sessions ≡ some q) (sym e) held)))
            ∙ held)
      ]
    ];
  }

  -- A new session under an id that the map does not have.
  pub IsValid-add :
      IsValid closed max sessions heap n
      → (id : Text) (s : Session) → lookup id sessions ≡ none
      → IsEntry closed max id s
      → IsValid closed max (insert id (length heap) sessions) (heap ++ s ∷ []) (n + 1)
  IsValid-add v id s hl k = record {
    positive = v.positive;
    accounts = ground (arith, v.accounts, count-append reserved heap (s ∷ []), k.holds_capacity);
    entries = λ j q hj. elim (lookup-insert_cases id j (length heap) sessions hj) [
      | inl (ij, e) ↦ (
        s,
        subst (λ r. get_elem? (heap ++ s ∷ []) r ≡ some s) (sym e) (get_elem?-append_length heap s),
        subst (λ i. IsEntry closed max i s) ij k,
      )
      | inr (ne, old) ↦
          let (t, ht, l) = v.entries j q old in (t, get_elem?-append_left heap (s ∷ []) q ht, l)
    ];
    no_leak = λ q t ht hr. elim (get_elem?-append_cases heap s q ht) [
      | inl old ↦ elim (v.no_leak q t old hr) [
        | inl gone ↦ inl gone
        | inr held ↦ inr (
            lookup-insert_ne id t.session_id (length heap) sessions
              (λ e. absurd (cc (hl, subst (λ j. lookup j sessions ≡ some q) (sym e) held)))
            ∙ held)
      ]
      | inr (e, ts) ↦ inr (cc (lookup-insert_self id (length heap) sessions, e, ts, k.named))
    ];
  }

  -- A session that gives its reservation back, out of the map.
  pub IsValid-free :
      IsValid closed max sessions heap n
      → (p : ℕ) (s s' : Session) → get_elem? heap p ≡ some s
      → s.retired ≡ true
      → s.capacity_reserved ≡ true
      → s'.capacity_reserved ≡ false
      → IsValid closed max sessions (set heap p s') (dec n)
  IsValid-free v p s s' hg hret hres hres' = record {
    positive = v.positive;
    accounts = ground (arith, v.accounts, count-set reserved heap p s' hg);
    entries = λ id q hl.
        let (t, ht, k) = v.entries id q hl in
        let apart : p ≢ q = λ pq. absurd (cc (k.not_retired, hret, hg, ht, pq)) in
        (t, get_elem?-set_ne heap p q s' apart ∙ ht, k);
    no_leak = λ q t ht hr. elim (get_elem?-set_cases heap p q hg ht) [
      | inl (pq, ts) ↦ absurd (cc (hr, hres', ts))
      | inr (ne, old) ↦ v.no_leak q t old hr
    ];
  }

  pub IsValid-close : IsValid closed max sessions heap n → IsValid true max sessions heap n
  IsValid-close v = record {
    positive = v.positive;
    accounts = v.accounts;
    entries = λ id p hl.
        let (s, hs, k) = v.entries id p hl in
        (
          s,
          hs,
          record {
            named = k.named;
            holds_capacity = k.holds_capacity;
            not_retired = k.not_retired;
            draining = k.draining;
            bounded = k.bounded;
            armed = λ e. cc;
          },
        );
    no_leak = v.no_leak;
  }
