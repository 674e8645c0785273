-- ===== src/Session/Report.antt =====
-- console/internal/grpcserver/session_runtime.go: what a report of recovery must say to be accepted.
use onlyboxes.Prelude.{
  ◌≡◌, refl, true, none, some, List, [], ◌∷◌, Text, Map, arith, lookup, insert, length,
  lookup-insert, Distinct, text_eq_iff, ◌↔◌, trim_space, Option-cases, inl, inr,
}
use onlyboxes.Session.Recovery.{
  Status, status_eq, RecoveryResult, Recovery, matches_all, matches_recovery_results,
}

status_eq→eq : (a b : Status) → status_eq a b ≡ true → a ≡ b
status_eq→eq a b h = ground arith

status_eq_refl : (a : Status) → status_eq a a ≡ true
status_eq_refl a = ground arith

some_eq {ℓ} : {A : Type ℓ} {a b : A} → some a ≡ some b → a ≡ b
some_eq h = cc

-- The first entry of a report that matches.
matches-first :
    (expected : Map Status) (seen : Map (Unit {0})) (r : RecoveryResult) (rs : List RecoveryResult)
    → matches_all expected seen (r ∷ rs) ≡ true
    → (lookup (trim_space r.session_id) expected ≡ some r.status)
      × (lookup (trim_space r.session_id) seen ≡ none)
      × (matches_all expected (insert (trim_space r.session_id) tt seen) rs ≡ true)
unfolding matches_all
matches-first expected seen r rs h =
    elim (Option-cases (lookup (trim_space r.session_id) expected)) [
      | inl e ↦ absurd (ground arith)
      | inr (st, e) ↦ elim (Option-cases (lookup (trim_space r.session_id) seen)) [
        | inl f ↦ ground (arith, status_eq→eq st r.status)
        | inr (u, f) ↦ absurd (ground arith)
      ]
    ]

-- Each entry is one of the results, under its id without white space around it and with its status.
abbrev pub AreExpected : Map Status → List RecoveryResult → Type 0
AreExpected expected [] = Unit {0}
AreExpected expected (r ∷ rs) =
    (lookup (trim_space r.session_id) expected ≡ some r.status) × AreExpected expected rs

-- The sessions of a report.
abbrev pub sessions_of : List RecoveryResult → Map (Unit {0})
sessions_of [] = []
sessions_of (r ∷ rs) = (trim_space r.session_id, tt) ∷ sessions_of rs

-- None of the sessions has been seen.
abbrev AreUnseen : Map (Unit {0}) → List RecoveryResult → Type 0
AreUnseen seen [] = Unit {0}
AreUnseen seen (r ∷ rs) = (lookup (trim_space r.session_id) seen ≡ none) × AreUnseen seen rs

unseen_before :
    (id : Text) (seen : Map (Unit {0})) (rs : List RecoveryResult)
    → AreUnseen (insert id tt seen) rs
    → AreUnseen seen rs × (lookup id (sessions_of rs) ≡ none)
unfolding lookup
unseen_before id seen [] h = (tt, refl)
unseen_before id seen (r ∷ rs) (here, later) =
    let (a, b) = unseen_before id seen rs later in
    let k = trim_space r.session_id in
    (
      (ground (arith, lookup-insert id k tt seen), a),
      ground (arith, lookup-insert id k tt seen, text_eq_iff id k, text_eq_iff k id),
    )

unseen_after :
    (id : Text) (seen : Map (Unit {0})) (rs : List RecoveryResult)
    → AreUnseen seen rs
    → lookup id (sessions_of rs) ≡ none
    → AreUnseen (insert id tt seen) rs
unfolding lookup
unseen_after id seen [] h n = tt
unseen_after id seen (r ∷ rs) (here, later) n =
    let k = trim_space r.session_id in
    (
      ground (arith, lookup-insert id k tt seen, text_eq_iff id k, text_eq_iff k id),
      unseen_after id seen rs later (ground (arith, n)),
    )

matches-parts :
    (expected : Map Status) (seen : Map (Unit {0})) (rs : List RecoveryResult)
    → matches_all expected seen rs ≡ true
    → AreExpected expected rs × Distinct (sessions_of rs) × AreUnseen seen rs
matches-parts expected seen [] h = (tt, tt, tt)
matches-parts expected seen (r ∷ rs) h =
    let (here, fresh, more) = matches-first expected seen r rs h in
    let (known, distinct, unseen) =
      matches-parts expected (insert (trim_space r.session_id) tt seen) rs more in
    let (before, alone) = unseen_before (trim_space r.session_id) seen rs unseen in
    ((here, known), (alone, distinct), (fresh, before))

parts-match :
    (expected : Map Status) (seen : Map (Unit {0})) (rs : List RecoveryResult)
    → AreExpected expected rs
    → Distinct (sessions_of rs)
    → AreUnseen seen rs
    → matches_all expected seen rs ≡ true
unfolding matches_all
parts-match expected seen [] known distinct unseen = refl
parts-match expected seen (r ∷ rs) (here, known) (alone, distinct) (fresh, unseen) =
    let more =
      parts-match expected (insert (trim_space r.session_id) tt seen) rs known distinct
        (unseen_after (trim_space r.session_id) seen rs unseen alone) in
    ground (arith, here, fresh, status_eq_refl r.status, more)

none_seen : (rs : List RecoveryResult) → AreUnseen [] rs
unfolding lookup
none_seen [] = tt
none_seen (r ∷ rs) = (refl, none_seen rs)

-- A report is accepted exactly if it has as many entries as there were results, each entry is one of
-- them, under its id and with its status, and no session stands twice.
pub accepted_report :
    (r : Recovery) (report : List RecoveryResult)
    → (matches_recovery_results r report ≡ true) ↔ (
        (length report ≡ length r.recovery_results)
        × AreExpected r.recovery_results report
        × Distinct (sessions_of report))
unfolding matches_recovery_results
accepted_report r report = (
  (λ h.
      let all : matches_all r.recovery_results [] report ≡ true = ground (arith, h) in
      let (known, distinct, unseen) = matches-parts r.recovery_results [] report all in
      (ground (arith, h), known, distinct)),
  (λ (same, known, distinct).
      let all = parts-match r.recovery_results [] report known distinct (none_seen report) in
      ground (arith, same, all)),
)
