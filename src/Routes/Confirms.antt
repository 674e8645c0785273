-- ===== src/Routes/Confirms.antt =====
-- console/internal/grpcserver/terminal_session_routes.go: confirmation and release against the board of phases.
use onlyboxes.Prelude.{
  ℕ, ◌-◌, ◌≡◌, refl, sym, ap, ◌∙◌, Bool, true, false, ◌&&◌, Option, none, some, Text, arith, lookup,
  text_eq, ltb, ◌==◌, if_cases, Bool-cases, inl, inr,
}
use onlyboxes.Routes.Defs.{Route, Routes, put_route}
use onlyboxes.Routes.Reserve.{
  ReleaseResult, not_owned, owns, confirmed_route, confirm_found, clear_reservation_found,
}
use onlyboxes.Routes.Spec.{
  provisional, confirmed, Board, Answer, done, given_back, confirm_phase, give_back_phase, phase_of,
  is_tidy, Agrees,
}
use onlyboxes.Routes.Refines.{Simulates, put-Agrees, keep-Agrees, delete-Agrees}

abbrev told : Routes × Bool → Routes × Answer
told x = (x.0, done x.1)

confirm_confirmed-Simulates :
    (s : Routes) (b : Board) (id node : Text) (res now : ℕ) (r : Route)
    → is_tidy (some r) ≡ true
    → (r.reservation_id == 0) ≡ true
    → b.phases id ≡ confirmed r.node_id r.confirmed_reservation_id
    → Agrees s b
    → Simulates
        (told (confirm_found s id node res now (some r)))
        (confirm_phase b id node res (confirmed r.node_id r.confirmed_reservation_id))
unfolding confirm_found
confirm_confirmed-Simulates s b id node res now r w e f a =
    if_cases
      (λ (x : Routes × Bool).
        Simulates (told x)
          (confirm_phase b id node res (confirmed r.node_id r.confirmed_reservation_id)))
      (owns r node res) (put_route s id (confirmed_route now res r), true) (s, false)
      (λ o. (
        keep-Agrees s b id (confirmed_route now res r) (ground arith) (ground arith) a,
        ground arith,
      ))
      (λ o. (a, ground arith))

confirm_provisional-Simulates :
    (s : Routes) (b : Board) (id node : Text) (res now : ℕ) (r : Route)
    → is_tidy (some r) ≡ true
    → (r.reservation_id == 0) ≡ false
    → b.phases id ≡ provisional r.node_id r.reservation_id r.provisional_uses
    → Agrees s b
    → Simulates
        (told (confirm_found s id node res now (some r)))
        (confirm_phase b id node res (provisional r.node_id r.reservation_id r.provisional_uses))
unfolding confirm_found
confirm_provisional-Simulates s b id node res now r w e f a =
    if_cases (Simulates (told (confirm_found s id node res now (some r))))
      (text_eq r.node_id node && r.reservation_id == res) _ _
      (λ o.
        let t : owns r node res ≡ true = ground arith in
        rw t
          (put-Agrees s b id (confirmed_route now res r) _ (ground arith) (ground arith) a, refl))
      (λ o.
        if_cases
          (λ (x : Routes × Bool). Simulates (told x) (b, done (text_eq r.node_id node && res == 0)))
          (owns r node res) (put_route s id (confirmed_route now res r), true) (s, false)
          (λ t. (
            keep-Agrees s b id (confirmed_route now res r) (ground arith) (ground arith) a,
            ground arith,
          ))
          (λ t. (a, ground arith)))

pub confirm_found-Simulates :
    (s : Routes) (b : Board) (id node : Text) (res now : ℕ) (o : Option Route)
    → lookup id s.session_to_node ≡ o
    → Agrees s b
    → Simulates
        (told (confirm_found s id node res now o))
        (confirm_phase b id node res (b.phases id))
unfolding confirm_found
confirm_found-Simulates s b id node res now none h a = rw (sym (a.same_phases id), h) (a, refl)
confirm_found-Simulates s b id node res now (some r) h a =
    let w : is_tidy (some r) ≡ true = sym (ap is_tidy h) ∙ a.tidy id in
    let f : b.phases id ≡ phase_of (some r) = sym (a.same_phases id) ∙ ap phase_of h in
    elim (Bool-cases (r.reservation_id == 0)) [
      | inl e ↦
          let g : b.phases id ≡ confirmed r.node_id r.confirmed_reservation_id = f ∙ (rw e refl) in
          rw g (confirm_confirmed-Simulates s b id node res now r w e g a)
      | inr e ↦
          let g : b.phases id ≡ provisional r.node_id r.reservation_id r.provisional_uses =
            f ∙ (rw e refl) in
          rw g (confirm_provisional-Simulates s b id node res now r w e g a)
    ]

abbrev released_as : Routes × ReleaseResult → Routes × Answer
released_as x = (x.0, given_back x.1)

give_back_confirmed-Simulates :
    (s : Routes) (b : Board) (id node : Text) (res : ℕ) (r : Route)
    → (res == 0) ≡ false
    → (r.reservation_id == 0) ≡ true
    → Agrees s b
    → Simulates
        (released_as (clear_reservation_found s id node res (some r)))
        (b, given_back not_owned)
unfolding clear_reservation_found
give_back_confirmed-Simulates s b id node res r n e a =
    let t : (text_eq r.node_id node && r.reservation_id == res) ≡ false = ground arith in
    rw t (a, refl)

give_back_provisional-Simulates :
    (s : Routes) (b : Board) (id node : Text) (res : ℕ) (r : Route)
    → is_tidy (some r) ≡ true
    → (r.reservation_id == 0) ≡ false
    → Agrees s b
    → Simulates
        (released_as (clear_reservation_found s id node res (some r)))
        (give_back_phase b id node res (provisional r.node_id r.reservation_id r.provisional_uses))
unfolding clear_reservation_found
give_back_provisional-Simulates s b id node res r w e a =
    elim (Bool-cases (text_eq r.node_id node && r.reservation_id == res)) [
      | inr o ↦ rw o (a, refl)
      | inl o ↦ elim (Bool-cases (ltb 1 r.provisional_uses)) [
        | inl u ↦
            rw (o, u)
              (
                put-Agrees s b id (record r { provisional_uses = r.provisional_uses - 1 }) _
                    (ground arith) (ground arith) a,
                refl,
              )
        | inr u ↦ rw (o, u) (delete-Agrees s b id r a, refl)
      ]
    ]

pub give_back_found-Simulates :
    (s : Routes) (b : Board) (id node : Text) (res : ℕ) (o : Option Route)
    → lookup id s.session_to_node ≡ o
    → (res == 0) ≡ false
    → Agrees s b
    → Simulates
        (released_as (clear_reservation_found s id node res o))
        (give_back_phase b id node res (b.phases id))
unfolding clear_reservation_found
give_back_found-Simulates s b id node res none h n a = rw (sym (a.same_phases id), h) (a, refl)
give_back_found-Simulates s b id node res (some r) h n a =
    let w : is_tidy (some r) ≡ true = sym (ap is_tidy h) ∙ a.tidy id in
    let f : b.phases id ≡ phase_of (some r) = sym (a.same_phases id) ∙ ap phase_of h in
    elim (Bool-cases (r.reservation_id == 0)) [
      | inl e ↦
          let g : b.phases id ≡ confirmed r.node_id r.confirmed_reservation_id = f ∙ (rw e refl) in
          rw g (give_back_confirmed-Simulates s b id node res r n e a)
      | inr e ↦
          let g : b.phases id ≡ provisional r.node_id r.reservation_id r.provisional_uses =
            f ∙ (rw e refl) in
          rw g (give_back_provisional-Simulates s b id node res r w e a)
    ]
