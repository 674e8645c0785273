-- ===== src/Dispatch/Renew.antt =====
-- console/internal/grpcserver/terminal_session_lease.go: `RenewTerminalSessionLease`, a command to the
-- worker of a session; with terminalSessionIDFromPayload and DispatchEcho of service_dispatch.go, and
-- checkCapabilityAvailability of task.go. encoding/json is a parameter.
use onlyboxes.Prelude.{
  ℕ, suc, Bool, false, ◌||◌, Option, none, some, List, [], ◌∷◌, Text, codes, trim_space, is_empty,
  text_eq, ltb, ◌==◌, if◌then◌else◌, ℤ, pos, ◌⊎◌, inl, inr,
}
use onlyboxes.Session.Defs.{CommandOutcome, has_capability, inflight_snapshot, command_execution}
use onlyboxes.Session.Defs
use onlyboxes.Session.Recovery.{task_capability_terminal_exec}
use onlyboxes.OwnerScope.Ids.{normalize_task_owner_id, scope_terminal_session_id}
use onlyboxes.Routes.Defs.{Routes}
use onlyboxes.Routes.Sweep.{TerminalSessionView, get_terminal_session}
use onlyboxes.Dispatch.Defs.{
  Worker, Service, Error, no_capability_worker, no_worker_capacity, target_worker_offline,
  target_worker_capability_unavailable, deadline_exceeded, Result, ok, err, pause, get_session,
  worker_at,
}
use onlyboxes.Dispatch.Route.{World, set_routes}
use onlyboxes.Dispatch.Attempt.{
  Delivery, task_capability_terminal_lease_renew, is_command_error_code, is_session_not_found,
}
use onlyboxes.Dispatch.Run.{dispatch_command}

pub record Payloads : Type 0 where
  pub exec_session : Text → Option Text
  pub renew_session : Text → Option Text
  pub resource_session : Text → Option Text
  pub encode_renew : Text → ℕ → Option Text
  pub decode_renewed : Text → Option (Text × ℤ)
  pub encode_echo : Text → Text
  pub decode_echo : Text → Option Text

abbrev pub trimmed : Option Text → Text
trimmed none = []
trimmed (some t) = trim_space t

unfoldable pub terminal_session_id_from_payload : Payloads → Text → Text → Text
terminal_session_id_from_payload p payload capability =
    if is_empty payload
    then []
    else if text_eq capability task_capability_terminal_exec
    then trimmed (p.exec_session payload)
    else if text_eq capability task_capability_terminal_lease_renew
    then trimmed (p.renew_session payload)
    else if text_eq capability (codes "terminalresource")
    then trimmed (p.resource_session payload)
    else []

pub data RenewError : Type 0 where
  session_not_found session_unavailable lease_invalid encode_failed : RenewError
  invalid_result renewed_route_unavailable : RenewError
  dispatch_error : Error → RenewError
  worker_error : Defs.Error → RenewError

abbrev pub Renewed : Type 0
Renewed = Service × (RenewError ⊎ TerminalSessionView)

-- The error of the dispatch, as the caller sees it.
abbrev pub renew_dispatch_error : Error → RenewError
renew_dispatch_error target_worker_offline = session_unavailable
renew_dispatch_error target_worker_capability_unavailable = session_unavailable
renew_dispatch_error no_capability_worker = session_unavailable
renew_dispatch_error no_worker_capacity = session_unavailable
renew_dispatch_error e = dispatch_error e

abbrev pub renew_worker_error : Defs.Error → RenewError
renew_worker_error e =
    if is_session_not_found (some e)
    then session_not_found
    else if is_command_error_code (some e) (codes "invalid_payload")
    then lease_invalid
    else worker_error e

abbrev pub is_renewed : Text → Option (Text × ℤ) → Bool
is_renewed scoped (some (id, pos (suc n))) = text_eq (trim_space id) scoped
is_renewed scoped _ = false

module _ (w : World) (d : Delivery) (context_ended : ℕ → Option Error) (p : Payloads)
    (owner session : Text) where
  abbrev pub view_again : Service → Routes × Option TerminalSessionView → Renewed
  view_again s (routes, none) = (set_routes s routes, inl renewed_route_unavailable)
  view_again s (routes, some v) = (set_routes s routes, inr v)

  abbrev pub after_outcome : Service → CommandOutcome → Option Defs.Error → Renewed
  after_outcome s o (some e) = (s, inl (renew_worker_error e))
  after_outcome s o none =
      let t = pause w.gap s in
      if is_renewed (scope_terminal_session_id owner session) (p.decode_renewed o.payload_json)
      then view_again t
          (get_terminal_session t.routes owner session (w.clock t.pauses) (w.db t.pauses))
      else (s, inl invalid_result)

  abbrev pub after_run : Service → Result CommandOutcome → Renewed
  after_run s (err e) = (s, inl (renew_dispatch_error e))
  after_run s (ok o) = after_outcome s o o.err

  abbrev pub send_renewal : Service → TerminalSessionView → Option Text → Renewed
  send_renewal s view none = (s, inl encode_failed)
  send_renewal s view (some payload) =
      let run =
        dispatch_command w d context_ended task_capability_terminal_lease_renew
          (terminal_session_id_from_payload p payload) view.worker_id false s in
      after_run run.service run.answer

  abbrev pub renew_found : ℕ → Service → Routes × Option TerminalSessionView → Renewed
  renew_found ttl s (routes, none) = (set_routes s routes, inl session_not_found)
  renew_found ttl s (routes, some view) =
      let t = pause w.gap (set_routes s routes) in
      if text_eq view.status (codes "ready")
      then send_renewal t view (p.encode_renew (scope_terminal_session_id owner session) ttl)
      else (set_routes s routes, inl session_unavailable)

-- A `ttl` of 0 stands for one that is not positive.
unfoldable pub renew_terminal_session_lease :
    World → Delivery → (ℕ → Option Error) → Payloads → Service → Text → Text → ℕ → Renewed
unfolding terminal_session_id_from_payload
renew_terminal_session_lease w d context_ended p s owner_id session_id ttl =
    let owner = normalize_task_owner_id owner_id in
    let session = trim_space session_id in
    if is_empty owner || is_empty session
    then (s, inl session_not_found)
    else if ttl == 0
    then (s, inl lease_invalid)
    else renew_found w d context_ended p owner session ttl s
        (get_terminal_session s.routes owner session (w.clock s.pauses) (w.db s.pauses))

pub data EchoError : Type 0 where
  message_required no_echo_worker echo_capacity echo_timeout empty_result : EchoError
  echo_dispatch : Error → EchoError
  echo_worker : Defs.Error → EchoError

abbrev pub echo_error : Error → EchoError
echo_error no_capability_worker = no_echo_worker
echo_error no_worker_capacity = echo_capacity
echo_error deadline_exceeded = echo_timeout
echo_error e = echo_dispatch e

unfoldable pub parse_echo_payload : Payloads → Text → Option Text
parse_echo_payload p payload = if is_empty payload then none else elim (p.decode_echo payload) [
  | none ↦ none
  | some m ↦ if is_empty (trim_space m) then none else some m
]

abbrev pub echo_message : Text → Option Text → EchoError ⊎ Text
echo_message message (some m) = inr m
echo_message message none = if is_empty (trim_space message) then inl empty_result else inr message

abbrev pub echo_outcome : Payloads → CommandOutcome → Option Defs.Error → EchoError ⊎ Text
echo_outcome p o (some e) = inl (echo_worker e)
echo_outcome p o none = echo_message o.message (parse_echo_payload p o.payload_json)

abbrev pub echo_answer : Payloads → Result CommandOutcome → EchoError ⊎ Text
echo_answer p (err e) = inl (echo_error e)
echo_answer p (ok o) = echo_outcome p o o.err

unfoldable pub dispatch_echo :
    World → Delivery → (ℕ → Option Error) → Payloads → Service → Text → Service × (EchoError ⊎ Text)
unfolding terminal_session_id_from_payload parse_echo_payload
dispatch_echo w d context_ended p s message =
    let run =
      dispatch_command w d context_ended (codes "echo")
        (terminal_session_id_from_payload p (p.encode_echo message)) [] false s in
    if is_empty (trim_space message)
    then (s, inl message_required)
    else (run.service, echo_answer p run.answer)

abbrev pub has_free_slot : Text → Option Worker → Bool
has_free_slot capability none = false
has_free_slot capability (some w) =
    if has_capability w.session capability
    then elim (inflight_snapshot w.session capability).1 [ none ↦ false | some x ↦ ltb x.0 x.1 ]
    else false

-- The loop of `checkCapabilityAvailability`.
unfoldable pub any_free : Service → Text → List Text → Bool
unfolding get_session
any_free s capability [] = false
any_free s capability (node ∷ nodes) =
    has_free_slot capability (worker_at s (get_session s node)) || any_free s capability nodes

unfoldable pub check_capability_availability : Service → Text → List Text → Option Error
unfolding any_free
check_capability_availability s capability [] = some no_capability_worker
check_capability_availability s capability (n ∷ ns) =
    if any_free s capability (n ∷ ns) then none else some no_worker_capacity
