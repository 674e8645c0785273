-- ===== src/Dispatch/Attempt.antt =====
-- console/internal/grpcserver/service_dispatch.go: `dispatchCommandAttempt`, one command to one worker.
--
-- `Delivery` is what the caller's context, the ids of commands and the outbound channel do.
use onlyboxes.Prelude.{
  ℕ, Bool, true, false, ◌&&◌, ◌||◌, not, Option, none, some, Text, codes, get_elem?, trim_space,
  to_lower, is_empty, text_eq, ◌==◌, if◌then◌else◌, ℤ, pos,
}
use onlyboxes.Session.Defs.{ActiveSession, CommandOutcome, ResultCh, waiting, closed_with}
use onlyboxes.Session.Defs
use onlyboxes.Session.Pending.{register_pending, unregister_pending}
use onlyboxes.Session.Recovery.{task_capability_terminal_exec}
use onlyboxes.Routes.Defs.{Routes}
use onlyboxes.Routes.Reserve.{
  ReleaseResult, not_owned, removed, confirm_terminal_session_route,
  clear_terminal_session_route_reservation,
}
use onlyboxes.Routes.Commit
use onlyboxes.Routes.Commit.{commit_confirmed_terminal_session_route, clear_terminal_session_route}
use onlyboxes.Dispatch.Defs.{
  Worker, Service, Error, command_id_failed, worker_unavailable, session_closed,
  persist_route_failed, delete_route_failed, Result, ok, err, pause, put_session, release_at,
}
use onlyboxes.Dispatch.Route.{World, set_routes}

abbrev pub task_capability_terminal_lease_renew : Text
task_capability_terminal_lease_renew = codes "terminalleaserenew"

-- `decode_lease` is the field lease_expires_unix_ms of a decoded result.
pub record Delivery : Type 0 where
  pub command_id : ℕ → Option Text
  pub enqueued : ℕ → Option Error
  pub on_dispatched : ℕ → Option Error
  pub context_error : ℕ → Error
  pub context_first : ℕ → Bool
  pub decode_lease : Text → Option ℤ

pub record AttemptResult : Type 0 where
  pub outcome : CommandOutcome
  pub capacity_retryable : Bool

abbrev pub positive_lease : Option ℤ → ℕ
positive_lease (some (pos n)) = n
positive_lease _ = 0

unfoldable pub terminal_session_lease_expires : Delivery → Text → ℕ
terminal_session_lease_expires d payload =
    if is_empty payload then 0 else positive_lease (d.decode_lease payload)

-- `strings.EqualFold`, on ASCII.
unfoldable pub is_command_error_code : Option Defs.Error → Text → Bool
is_command_error_code (some (Defs.command_execution error_code message)) code =
    text_eq (to_lower (trim_space error_code)) (to_lower code)
is_command_error_code _ code = false

unfoldable pub is_session_not_found : Option Defs.Error → Bool
unfolding is_command_error_code
is_session_not_found e = is_command_error_code e (codes "session_not_found")

unfoldable pub is_session_capacity : Option Defs.Error → Bool
unfolding is_command_error_code
is_session_capacity e = is_command_error_code e (codes "session_capacity_exceeded")

abbrev pub no_error : Option Defs.Error → Bool
no_error none = true
no_error (some e) = false

-- What comes out of the select on the context and the channel of the result.
pub data Event : Type 0 where
  context_done : Error → Event
  channel_closed : Event
  result : CommandOutcome → Event

abbrev pub event_of : Delivery → ℕ → Option ResultCh → Event
event_of d n (some (closed_with none)) =
    if d.context_first n then context_done (d.context_error n) else channel_closed
event_of d n (some (closed_with (some o))) =
    if d.context_first n then context_done (d.context_error n) else result o
event_of d n _ = context_done (d.context_error n)

abbrev pub channel_at : Option Worker → ℕ → Option ResultCh
channel_at none ch = none
channel_at (some w) ch = get_elem? w.session.results ch

module _ (w : World) (d : Delivery) (capability id : Text) (node : Text) (reservation : ℕ) where
  unfoldable pub rollback : Service → Service × ReleaseResult
  rollback s =
      if reservation == 0 || is_empty id
      then (s, not_owned)
      else let r = clear_terminal_session_route_reservation s.routes id node reservation in
        (set_routes s r.0, r.1)

  unfoldable pub confirm_in_memory : Service → Service
  confirm_in_memory s =
      if is_empty id
      then s
      else set_routes s
          (confirm_terminal_session_route s.routes id node reservation (w.clock s.pauses)).0

  abbrev pub commit_answer : Service → Routes × Bool × Option Commit.Error → Service × Bool
  commit_answer s (routes, true, none) = (set_routes s routes, true)
  commit_answer s (routes, confirmed, e) = (set_routes s routes, false)

  -- False is an error.
  unfoldable pub commit_route : Service → Text → Service × Bool
  unfolding terminal_session_lease_expires
  commit_route s payload =
      if is_empty id
      then (s, true)
      else commit_answer s (
          commit_confirmed_terminal_session_route s.routes id node reservation
            (terminal_session_lease_expires d payload) (w.clock s.pauses) (w.db s.pauses))

  abbrev pub final : Service → CommandOutcome → Service × Result AttemptResult
  final s o = (s, ok (record { outcome = o; capacity_retryable = false }))

  abbrev pub commit_settled : CommandOutcome → Service × Bool → Service × Result AttemptResult
  commit_settled o (s, true) = final s o
  commit_settled o (s, false) = (s, err persist_route_failed)

  abbrev pub cleared :
      CommandOutcome → Service → Routes × Option Commit.Error → Service × Result AttemptResult
  cleared o s (routes, none) = final (set_routes s routes) o
  cleared o s (routes, some e) = (set_routes s routes, err delete_route_failed)

  abbrev pub is_removed : ReleaseResult → Bool
  is_removed removed = true
  is_removed _ = false

  abbrev pub capacity_result :
      CommandOutcome → Service × ReleaseResult → Service × Result AttemptResult
  capacity_result o (s, released) = (
    s,
    ok (record {
      outcome = o;
      capacity_retryable =
          text_eq capability task_capability_terminal_exec
          && not (reservation == 0)
          && is_removed released;
    }),
  )

  unfoldable pub settle_outcome : Service → CommandOutcome → Service × Result AttemptResult
  unfolding rollback confirm_in_memory commit_route is_session_not_found is_session_capacity
  settle_outcome s o =
      if is_empty id
      then final s o
      else if no_error o.err
      then if text_eq capability task_capability_terminal_exec
          || text_eq capability task_capability_terminal_lease_renew
        then commit_settled o (commit_route s o.payload_json)
        else final (confirm_in_memory s) o
      else if is_session_not_found o.err
      then if not (reservation == 0)
        then final (rollback s).0 o
        else cleared o s (clear_terminal_session_route s.routes id node (w.db s.pauses))
      else if is_session_capacity o.err
      then capacity_result o (rollback s)
      else final (if reservation == 0 then s else confirm_in_memory s) o

  unfoldable pub settle_event : Service → Event → Service × Result AttemptResult
  unfolding settle_outcome confirm_in_memory rollback
  settle_event s (context_done e) = (if reservation == 0 then s else confirm_in_memory s, err e)
  settle_event s channel_closed = ((rollback s).0, err session_closed)
  settle_event s (result o) = settle_outcome s o

  abbrev pub refused : Service → Error → Service × Result AttemptResult
  refused s e = ((rollback s).0, err e)

  abbrev pub dispatched : ℕ → ℕ → Service → Option Error → Service × Result AttemptResult
  dispatched i ch s (some e) = (if reservation == 0 then s else confirm_in_memory s, err e)
  dispatched i ch s none =
      let t = pause w.gap s in
      settle_event t (event_of d t.pauses (channel_at (get_elem? t.heap i) ch))

  abbrev pub sent : ℕ → ℕ → Service → Option Error → Service × Result AttemptResult
  sent i ch s (some e) = refused s e
  sent i ch s none = dispatched i ch (pause w.gap s) (d.on_dispatched s.pauses)

  abbrev pub enqueue_error : Bool → Option Error → Option Error
  enqueue_error true e = some worker_unavailable
  enqueue_error false e = e

  abbrev pub is_done : Option Worker → Bool
  is_done none = true
  is_done (some x) = x.session.done

  -- `defer session.unregisterPending(commandID)`
  abbrev pub unregister_found :
      ℕ → Text → Service × Result AttemptResult → Option Worker → Service × Result AttemptResult
  unregister_found i command_id (s, r) none = (s, r)
  unregister_found i command_id (s, r) (some x) =
      (put_session s i (unregister_pending x.session command_id), r)

  abbrev pub unregistered :
      ℕ → Text → Service × Result AttemptResult → Service × Result AttemptResult
  unregistered i command_id x = unregister_found i command_id x (get_elem? x.0.heap i)

  abbrev pub registered : ℕ → Text → Service → Defs.Result ℕ → Service × Result AttemptResult
  registered i command_id s (Defs.err e) = refused (release_at s capability i) worker_unavailable
  registered i command_id s (Defs.ok ch) =
      let t = pause w.gap s in
      unregistered i command_id
        (sent i ch t (enqueue_error (is_done (get_elem? t.heap i)) (d.enqueued t.pauses)))

  abbrev pub register_found : ℕ → Text → Service → Option Worker → Service × Result AttemptResult
  register_found i command_id s none = refused s worker_unavailable
  register_found i command_id s (some x) =
      let r = register_pending x.session command_id capability in
      registered i command_id (put_session s i r.0) r.1

  abbrev pub with_command_id : ℕ → Service → Option Text → Service × Result AttemptResult
  with_command_id i s none = refused (release_at s capability i) command_id_failed
  with_command_id i s (some command_id) = register_found i command_id s (get_elem? s.heap i)

  -- The session is at `i`, and its worker is `node`.
  unfoldable pub dispatch_command_attempt : Service → ℕ → Service × Result AttemptResult
  unfolding settle_event rollback confirm_in_memory put_session release_at
  dispatch_command_attempt s i = with_command_id i s (d.command_id s.pauses)
