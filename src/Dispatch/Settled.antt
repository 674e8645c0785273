-- ===== src/Dispatch/Settled.antt =====
-- console/internal/grpcserver/service_dispatch.go: `dispatchCommandAttempt` and the sessions' ids.
use onlyboxes.Prelude.{
  ℕ, ◌≡◌, refl, Bool, true, false, ◌||◌, not, Option, none, some, Text, arith, get_elem?, is_empty,
  text_eq, ◌==◌, if◌then◌else◌, if_cases,
}
use onlyboxes.Session.Defs.{ActiveSession, CommandOutcome, ResultCh}
use onlyboxes.Session.Defs
use onlyboxes.Session.Pending.{register_pending}
use onlyboxes.Session.Recovery.{task_capability_terminal_exec}
use onlyboxes.Routes.Defs.{Routes}
use onlyboxes.Routes.Reserve.{ReleaseResult}
use onlyboxes.Routes.Commit
use onlyboxes.Routes.Commit.{commit_confirmed_terminal_session_route, clear_terminal_session_route}
use onlyboxes.Dispatch.Defs.{
  Worker, Service, Error, Result, ok, err, pause, put_session, release_at,
}
use onlyboxes.Dispatch.Route.{World, set_routes}
use onlyboxes.Dispatch.Attempt.{
  task_capability_terminal_lease_renew, Delivery, AttemptResult, is_session_not_found,
  is_session_capacity, no_error, Event, context_done, channel_closed, result, event_of, channel_at,
  rollback, confirm_in_memory, commit_answer, commit_route, commit_settled, cleared,
  capacity_result, settle_outcome, settle_event, dispatched, sent, enqueue_error, is_done,
  unregister_found, registered, register_found, with_command_id, dispatch_command_attempt,
}
use onlyboxes.Dispatch.Names.{
  Moves, Moves-refl, Moves-trans, IsFair, pause-Moves, put_session-Moves, release_at-Moves,
}

-- An attempt keeps the sessions' ids, and is retried only if it had a reservation.
abbrev pub Ends : ℕ → Service → Service × Result AttemptResult → Type 0
Ends r s (t, ok x) = Moves s t × ((r == 0) ≡ true → x.capacity_retryable ≡ false)
Ends r s (t, err e) = Moves s t

pub Ends-after :
    (r : ℕ) {s t : Service} (x : Service × Result AttemptResult)
    → Moves s t
    → Ends r t x
    → Ends r s x
Ends-after r (u, ok x) m h = (Moves-trans m h.0, h.1)
Ends-after r (u, err e) m h = Moves-trans m h

Ends-Moves : (r : ℕ) (s : Service) (x : Service × Result AttemptResult) → Ends r s x → Moves s x.0
Ends-Moves r s (t, ok x) h = h.0
Ends-Moves r s (t, err e) h = h

set_routes-Moves : (s : Service) (r : Routes) → Moves s (set_routes s r)
set_routes-Moves s r = record { keeps = λ i n h. h; names = λ h. h }

module _ (w : World) (d : Delivery) (fair : IsFair w.gap) (capability id node : Text) (r : ℕ) where
  rollback-Moves : (s : Service) → Moves s (rollback w d capability id node r s).0
  unfolding rollback
  rollback-Moves s =
      if_cases (λ (x : Service × ReleaseResult). Moves s x.0) (r == 0 || is_empty id) _ _
        (λ _. Moves-refl s) (λ _. set_routes-Moves s _)

  confirm-Moves : (s : Service) → Moves s (confirm_in_memory w d capability id node r s)
  unfolding confirm_in_memory
  confirm-Moves s =
      if_cases (Moves s) (is_empty id) _ _ (λ _. Moves-refl s) (λ _. set_routes-Moves s _)

  maybe_confirm-Moves :
      (s : Service) → Moves s (if r == 0 then s else confirm_in_memory w d capability id node r s)
  maybe_confirm-Moves s = if_cases (Moves s) (r == 0) _ _ (λ _. Moves-refl s) (λ _. confirm-Moves s)

  commit_answer-Moves :
      (s : Service) (x : Routes × Bool × Option Commit.Error)
      → Moves s (commit_answer w d capability id node r s x).0
  commit_answer-Moves s (routes, true, none) = set_routes-Moves s routes
  commit_answer-Moves s (routes, true, some e) = set_routes-Moves s routes
  commit_answer-Moves s (routes, false, e) = set_routes-Moves s routes

  commit-Moves :
      (s : Service) (payload : Text) → Moves s (commit_route w d capability id node r s payload).0
  unfolding commit_route
  commit-Moves s payload =
      if_cases (λ (x : Service × Bool). Moves s x.0) (is_empty id) _ _ (λ _. Moves-refl s)
        (λ _. commit_answer-Moves s _)

  commit_settled-Ends :
      (s : Service) (o : CommandOutcome) (x : Service × Bool)
      → Moves s x.0
      → Ends r s (commit_settled w d capability id node r o x)
  commit_settled-Ends s o (t, true) m = (m, λ _. refl)
  commit_settled-Ends s o (t, false) m = m

  cleared-Ends :
      (s : Service) (o : CommandOutcome) (x : Routes × Option Commit.Error)
      → Ends r s (cleared w d capability id node r o s x)
  cleared-Ends s o (routes, none) = (set_routes-Moves s routes, λ _. refl)
  cleared-Ends s o (routes, some e) = set_routes-Moves s routes

  capacity-Ends :
      (s : Service) (o : CommandOutcome) (x : Service × ReleaseResult)
      → Moves s x.0
      → Ends r s (capacity_result w d capability id node r o x)
  capacity-Ends s o (t, released) m = (m, λ e. ground (arith, e))

  settle-Ends :
      (s : Service) (o : CommandOutcome) → Ends r s (settle_outcome w d capability id node r s o)
  unfolding settle_outcome
  settle-Ends s o =
      if_cases (Ends r s) (is_empty id) _ _ (λ _. (Moves-refl s, λ _. refl))
        (λ _.
          if_cases (Ends r s) (no_error o.err) _ _
            (λ _.
              if_cases (Ends r s)
                (text_eq capability task_capability_terminal_exec
                  || text_eq capability task_capability_terminal_lease_renew)
                _ _ (λ _. commit_settled-Ends s o _ (commit-Moves s o.payload_json))
                (λ _. (confirm-Moves s, λ _. refl)))
            (λ _.
              if_cases (Ends r s) (is_session_not_found o.err) _ _
                (λ _.
                  if_cases (Ends r s) (not (r == 0)) _ _ (λ _. (rollback-Moves s, λ _. refl))
                    (λ _.
                      cleared-Ends s o
                        (clear_terminal_session_route s.routes id node (w.db s.pauses))))
                (λ _.
                  if_cases (Ends r s) (is_session_capacity o.err) _ _
                    (λ _. capacity-Ends s o _ (rollback-Moves s))
                    (λ _. (maybe_confirm-Moves s, λ _. refl)))))

  event-Ends : (s : Service) (v : Event) → Ends r s (settle_event w d capability id node r s v)
  unfolding settle_event
  event-Ends s (context_done e) = maybe_confirm-Moves s
  event-Ends s channel_closed = rollback-Moves s
  event-Ends s (result o) = settle-Ends s o

  dispatched-Ends :
      (i ch : ℕ) (s : Service) (o : Option Error)
      → Ends r s (dispatched w d capability id node r i ch s o)
  dispatched-Ends i ch s (some e) = maybe_confirm-Moves s
  dispatched-Ends i ch s none =
      let t = pause w.gap s in
      let v = event_of d t.pauses (channel_at (get_elem? t.heap i) ch) in
      Ends-after r (settle_event w d capability id node r t v) (pause-Moves fair s) (event-Ends t v)

  sent-Ends :
      (i ch : ℕ) (s : Service) (o : Option Error)
      → Ends r s (sent w d capability id node r i ch s o)
  sent-Ends i ch s (some e) = rollback-Moves s
  sent-Ends i ch s none =
      let t = pause w.gap s in
      let o = d.on_dispatched s.pauses in
      Ends-after r (dispatched w d capability id node r i ch t o) (pause-Moves fair s)
        (dispatched-Ends i ch t o)

  unregister-Ends :
      (i : ℕ) (command_id : Text) (s : Service) (x : Service × Result AttemptResult)
      (o : Option Worker)
      → Ends r s x
      → Ends r s (unregister_found w d capability id node r i command_id x o)
  unregister-Ends i c s (t, ok x) none h = h
  unregister-Ends i c s (t, err e) none h = h
  unregister-Ends i c s (t, ok x) (some y) h = (Moves-trans h.0 (put_session-Moves t i _), h.1)
  unregister-Ends i c s (t, err e) (some y) h = Moves-trans h (put_session-Moves t i _)

  registered-Ends :
      (i : ℕ) (c : Text) (s : Service) (x : Defs.Result ℕ)
      → Ends r s (registered w d capability id node r i c s x)
  registered-Ends i c s (Defs.err e) =
      Moves-trans (release_at-Moves s capability i) (rollback-Moves (release_at s capability i))
  registered-Ends i c s (Defs.ok ch) =
      let t = pause w.gap s in
      let x = sent w d capability id node r i ch t (
        enqueue_error w d capability id node r
          (is_done w d capability id node r (get_elem? t.heap i)) (d.enqueued t.pauses)) in
      unregister-Ends i c s x (get_elem? x.0.heap i)
        (Ends-after r x (pause-Moves fair s) (sent-Ends i ch t _))

  register-Ends :
      (i : ℕ) (c : Text) (s : Service) (o : Option Worker)
      → Ends r s (register_found w d capability id node r i c s o)
  register-Ends i c s none = rollback-Moves s
  register-Ends i c s (some x) =
      let y = register_pending x.session c capability in
      Ends-after r (registered w d capability id node r i c (put_session s i y.0) y.1)
        (put_session-Moves s i y.0) (registered-Ends i c (put_session s i y.0) y.1)

  with_id-Ends :
      (i : ℕ) (s : Service) (o : Option Text)
      → Ends r s (with_command_id w d capability id node r i s o)
  with_id-Ends i s none =
      Moves-trans (release_at-Moves s capability i) (rollback-Moves (release_at s capability i))
  with_id-Ends i s (some c) = register-Ends i c s (get_elem? s.heap i)

  pub attempt-Ends :
      (i : ℕ) (s : Service) → Ends r s (dispatch_command_attempt w d capability id node r s i)
  unfolding dispatch_command_attempt
  attempt-Ends i s = with_id-Ends i s (d.command_id s.pauses)
