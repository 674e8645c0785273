-- ===== src/Dispatch/Tries.antt =====
-- console/internal/grpcserver/service_dispatch.go: the workers that `dispatchCommand` tries.
use onlyboxes.Prelude.{
  ℕ, zero, suc, ◌≤◌, ◌≡◌, refl, ap, subst, ◌∙◌, Bool, true, false, ◌&&◌, ◌||◌, not, Option, none,
  some, List, [], ◌∷◌, Text, Map, arith, lookup, insert, length, get_elem?, trim_space, is_empty,
  text_eq, ◌==◌, if_cases, Bool-cases, inl, inr,
}
use onlyboxes.Session.Defs.{CommandOutcome, normalize_capability}
use onlyboxes.Session.Recovery.{task_capability_terminal_exec}
use onlyboxes.Routes.Defs.{has}
use onlyboxes.Dispatch.Defs.{
  Worker, Service, Error, Result, ok, err, pause, pick_session_for_node_and_capability,
}
use onlyboxes.Dispatch.Pick.{pick_session_for_capability}
use onlyboxes.Dispatch.Route.{
  World, Picked, node_of, node_at, is_no_capability, target_checked, pick_session_for_dispatch,
}
use onlyboxes.Dispatch.Attempt.{Delivery, AttemptResult, dispatch_command_attempt}
use onlyboxes.Dispatch.Run.{
  Run, after_attempt, attempt, before_attempt, attempts, max_attempts, dispatch_command,
}
use onlyboxes.Dispatch.Names.{name_of, IsNamed, Moves-trans, IsFair, pause-Moves}
use onlyboxes.Dispatch.Fresh.{IsFresh-moved, pick-Chosen}
use onlyboxes.Dispatch.Excluded.{Bound, with_reservation-Bound, pick_for_session-Bound}
use onlyboxes.Dispatch.Settled.{Ends, attempt-Ends}

-- None of the workers was tried before, or is tried twice.
abbrev pub IsDistinct : Map (Unit {0}) → List Text → Type 0
IsDistinct before [] = Unit
IsDistinct before (n ∷ ns) = (has (lookup n before) ≡ false) × IsDistinct (insert n tt before) ns

-- At most so many workers are tried, and each once.
abbrev pub Tries : ℕ → Map (Unit {0}) → Run → Type 0
Tries n before r = (length r.tried ≤ n) × IsDistinct before r.tried

node_of-name : (o : Option Worker) (n : Text) → name_of o ≡ some n → node_of o ≡ n
node_of-name none n h = absurd (cc)
node_of-name (some w) n h = ground arith

module _ (w : World) (d : Delivery) (context_ended : ℕ → Option Error) (capability id target : Text)
    (aware : Bool) (fair : IsFair w.gap) where
  abbrev Retry : Type 0
  Retry = Text → Service → CommandOutcome → Run

  after-Tries :
      (s : Service) (n r : ℕ) (e : Map (Unit {0})) (retry : Service → CommandOutcome → Run)
      (x : Service × Result AttemptResult)
      → Ends r s x
      → IsNamed s
      → ((u : Service) (o : CommandOutcome) → IsNamed u → Tries n e (retry u o))
      → Tries n e (after_attempt w d context_ended capability id target aware n retry x)
  after-Tries s n r e retry (t, err x) h named again = (omega arith, tt)
  after-Tries s n r e retry (t, ok x) h named again =
      if_cases (Tries n e) (not x.capacity_retryable || n == 0) _ _ (λ _. (omega arith, tt))
        (λ _. again t x.outcome (h.0.names named))

  attempt-Tries :
      (s : Service) (n : ℕ) (e : Map (Unit {0})) (retry : Retry) (last : Option CommandOutcome)
      (x : Picked)
      → Bound e s x
      → IsNamed s
      → ((node : Text) (u : Service) (o : CommandOutcome)
          → IsNamed u
          → Tries n (insert node tt e) (retry node u o))
      → Tries (suc n) e (attempt w d context_ended capability id target aware n retry last x)
  attempt-Tries s n e retry last (t, err x) h named again = (omega arith, tt)
  attempt-Tries s n e retry last (t, ok (i, r)) h named again =
      let u = pause w.gap t in
      let m = Moves-trans h.0 (pause-Moves fair t) in
      let f = IsFresh-moved i (pause-Moves fair t) h.1 in
      let node = node_at u i in
      let same : node ≡ f.node = node_of-name (get_elem? u.heap i) f.node f.named in
      let rest =
        after-Tries u n r (insert node tt e) (λ v o. retry node (pause w.gap v) o)
          (dispatch_command_attempt w d capability id node r u i)
          (attempt-Ends w d fair capability id node r i u) (m.names named)
          (λ v o named. again node (pause w.gap v) o ((pause-Moves fair v).names named)) in
      (omega (arith, rest.0), (ap (λ (k : Text). has (lookup k e)) same ∙ f.fresh, rest.1))

  before-Tries :
      (n : ℕ) (e : Map (Unit {0})) (s : Service) (o : Option Error) (r : Run)
      → Tries n e r
      → Tries n e (before_attempt w d context_ended capability id target aware s o r)
  before-Tries n e s none r h = h
  before-Tries n e s (some x) r h = (omega arith, tt)

  pick-Bound :
      (s : Service) (e : Map (Unit {0}))
      → is_empty (trim_space target) ≡ true
      → IsNamed s
      → Bound e s (pick_session_for_dispatch w s capability id target e aware)
  unfolding pick_session_for_dispatch
  pick-Bound s e blank named = rw blank (
      if_cases (Bound e s) (is_empty (trim_space id)) _ _
        (λ _.
          with_reservation-Bound e s 0
            (pick_session_for_capability w.gap s capability e aware (w.online s.pauses))
            (pick-Chosen e w.gap s capability aware (w.online s.pauses) fair named))
        (λ _. pick_for_session-Bound w s capability (trim_space id) e aware fair named))

  attempts-Tries :
      (n : ℕ) (e : Map (Unit {0})) (last : Option CommandOutcome) (s : Service)
      → is_empty (trim_space target) ≡ true
      → IsNamed s
      → Tries n e (attempts w d context_ended capability id target aware n e last s)
  unfolding attempts
  attempts-Tries zero e none s blank named = (omega arith, tt)
  attempts-Tries zero e (some o) s blank named = (omega arith, tt)
  attempts-Tries (suc n) e last s blank named =
      before-Tries (suc n) e s (context_ended s.pauses) _ (
        attempt-Tries s n e
          (λ node u o.
            attempts w d context_ended capability id target aware n (insert node tt e) (some o) u)
          last (pick_session_for_dispatch w s capability id target e aware)
          (pick-Bound s e blank named) named
          (λ node u o named. attempts-Tries n (insert node tt e) (some o) u blank named))

  -- A command with a target has no reservation.
  abbrev Unreserved : Picked → Type 0
  Unreserved (s, ok (i, r)) = r ≡ 0
  Unreserved (s, err e) = Unit

  target-Unreserved :
      (name : Text) (x : Service × Result ℕ) → Unreserved (target_checked w name capability x)
  target-Unreserved name (s, ok i) = refl
  target-Unreserved name (s, err e) =
      if_cases Unreserved (is_no_capability e) _ _ (λ _. tt) (λ _. tt)

  ended_after :
      (s : Service) (n : ℕ) (retry : Service → CommandOutcome → Run)
      (x : Service × Result AttemptResult)
      → Ends 0 s x
      → (after_attempt w d context_ended capability id target aware n retry x).tried ≡ []
  ended_after s n retry (t, err e) h = refl
  ended_after s n retry (t, ok x) h = rw (h.1 refl) refl

  targeted-Tries :
      (s : Service) (n : ℕ) (retry : Retry) (last : Option CommandOutcome) (x : Picked)
      → Unreserved x
      → Tries (suc n) [] (attempt w d context_ended capability id target aware n retry last x)
  targeted-Tries s n retry last (t, err x) h = (omega arith, tt)
  targeted-Tries s n retry last (t, ok (i, r)) h =
      let u = pause w.gap t in
      let node = node_at u i in
      let x = dispatch_command_attempt w d capability id node r u i in
      let done =
        ended_after u n (λ v o. retry node (pause w.gap v) o) x
          (subst (λ k. Ends k u x) h (attempt-Ends w d fair capability id node r i u)) in
      rw done (omega arith, (unfold lookup in refl, tt))

  target_attempts-Tries :
      (n : ℕ) (last : Option CommandOutcome) (s : Service)
      → is_empty (trim_space target) ≡ false
      → Tries n [] (attempts w d context_ended capability id target aware n [] last s)
  unfolding attempts pick_session_for_dispatch
  target_attempts-Tries zero none s named = (omega arith, tt)
  target_attempts-Tries zero (some o) s named = (omega arith, tt)
  target_attempts-Tries (suc n) last s named =
      before-Tries (suc n) [] s (context_ended s.pauses) _ (
        targeted-Tries s n
          (λ node u o.
            attempts w d context_ended capability id target aware n (insert node tt []) (some o) u)
          last _
          (rw named (
            target-Unreserved (trim_space target)
              (pick_session_for_node_and_capability s (trim_space target) capability))))

  all_attempts-Tries :
      (n : ℕ) (s : Service)
      → IsNamed s
      → Tries n [] (attempts w d context_ended capability id target aware n [] none s)
  all_attempts-Tries n s named = elim (Bool-cases (is_empty (trim_space target))) [
    | inl e ↦ attempts-Tries n [] none s e named
    | inr e ↦ target_attempts-Tries n none s e
  ]

-- Where sessions are listed under their trimmed ids and other goroutines keep it so: a dispatch ends
-- after at most as many attempts as `maxAttempts` allows, whatever the workers and the store answer,
-- and no two of the attempts are on the same worker.
pub dispatch_command-Tries :
    (w : World) (d : Delivery) (context_ended : ℕ → Option Error) (capability : Text)
    (id_of : Text → Text) (target : Text) (known_new : Bool) (s : Service)
    → IsFair w.gap
    → IsNamed s
    → Tries
        (max_attempts
          (normalize_capability capability)
          (id_of (normalize_capability capability))
          (w.online s.pauses))
        []
        (dispatch_command w d context_ended capability id_of target known_new s)
unfolding dispatch_command
dispatch_command-Tries w d context_ended capability id_of target known_new s fair named =
    let name = normalize_capability capability in
    let n = max_attempts name (id_of name) (w.online s.pauses) in
    if_cases (Tries n []) (is_empty name) _ _ (λ _. (omega arith, tt))
      (λ _.
        all_attempts-Tries w d context_ended name (id_of name) target
          (text_eq name task_capability_terminal_exec && known_new) fair n (pause w.gap s)
          ((pause-Moves fair s).names named))
