-- ===== src/Session/Pending.antt =====
-- console/internal/grpcserver/session_runtime.go: the commands that await a result, and the end of a
-- session.
use onlyboxes.Prelude.{
  ℕ, suc, true, Option, none, some, [], ◌∷◌, ◌++◌, Text, Map, codes, lookup, insert, remove, length,
  get_elem?, set, trim_space, is_empty, if◌then◌else◌, ℤ, pos,
}
use onlyboxes.Session.Defs.{
  Error, command_execution, session_closed, command_id_required, Result, ok, err,
  default_close_message, normalize_capability, CommandOutcome, ResultCh, waiting, closed_with,
  PendingCommand, ActiveSession, release_capability, session_error,
}

-- The channel of the new pending command.
unfoldable pub register_pending : ActiveSession → Text → Text → ActiveSession × Result ℕ
unfolding session_error
register_pending s command_id capability =
    let id = trim_space command_id in
    if is_empty id
    then (s, err command_id_required)
    else if s.done
    then (s, err (session_error s))
    else (
      record s {
        results = s.results ++ waiting ∷ [];
        pending =
            insert id
              (record {
                result_ch = length s.results;
                capability = normalize_capability capability;
              })
              s.pending;
      },
      ok (length s.results),
    )

-- The critical section in which a pending command is looked up and deleted.
unfoldable pub take_pending : ActiveSession → Text → ActiveSession × Option PendingCommand
take_pending s command_id =
    let id = trim_space command_id in
    if is_empty id then (s, none) else elim (lookup id s.pending) [
      | none ↦ (s, none)
      | some p ↦ (record s { pending = remove id s.pending }, some p)
    ]

unfoldable pub close_ch : ResultCh → Option CommandOutcome → ResultCh
close_ch waiting outcome = closed_with outcome
close_ch (closed_with sent) outcome = closed_with sent

-- `closeResult`: the first call sends its outcome, if it has one, and closes the channel.
unfoldable pub close_result : ActiveSession → PendingCommand → Option CommandOutcome → ActiveSession
unfolding close_ch
close_result s p outcome = elim (get_elem? s.results p.result_ch) [
  | none ↦ s
  | some ch ↦ record s { results = set s.results p.result_ch (close_ch ch outcome) }
]

-- What follows `take_pending` on each of the paths that end a command.
unfoldable pub finish_pending :
    ActiveSession → PendingCommand → Option CommandOutcome → ActiveSession
unfolding release_capability close_result
finish_pending s p outcome = close_result (release_capability s p.capability) p outcome

abbrev pub finish_taken :
    ActiveSession × Option PendingCommand → Option CommandOutcome → ActiveSession
finish_taken (s, none) outcome = s
finish_taken (s, some p) outcome = finish_pending s p outcome

unfoldable pub unregister_pending : ActiveSession → Text → ActiveSession
unfolding take_pending finish_pending
unregister_pending s command_id = finish_taken (take_pending s command_id) none

pub record CommandResult : Type 0 where
  pub command_id : Text
  pub error : Option (Text × Text)
  pub payload_json : Text
  pub completed_unix_ms : ℤ

-- `parse_echo` is `parseEchoPayload`, which decodes JSON; `now` is the console's clock.
module _ (parse_echo : Text → Option Text) (now : ℕ) where
  abbrev pub completed_time : ℤ → ℕ
  completed_time (pos (suc n)) = suc n
  completed_time _ = now

  abbrev pub message_or_empty : Option Text → Text
  message_or_empty none = []
  message_or_empty (some t) = t

  unfoldable pub outcome_of : CommandResult → Option (Text × Text) → CommandOutcome
  outcome_of r (some (code, message)) = record {
    payload_json = [];
    message = [];
    err = some (command_execution code message);
    completed_at = completed_time r.completed_unix_ms;
  }
  outcome_of r none =
      if is_empty r.payload_json
      then record {
        payload_json = [];
        message = [];
        err = some (
            command_execution (codes "empty_result")
              (codes "worker returned empty command result"));
        completed_at = completed_time r.completed_unix_ms;
      }
      else record {
        payload_json = r.payload_json;
        message = message_or_empty (parse_echo r.payload_json);
        err = none;
        completed_at = completed_time r.completed_unix_ms;
      }

  unfoldable pub resolve_pending : ActiveSession → CommandResult → ActiveSession
  unfolding take_pending finish_pending outcome_of
  resolve_pending s r = finish_taken (take_pending s r.command_id) (some (outcome_of r r.error))

-- The first section of `close`, which `closeOnce` lets run once.
unfoldable pub begin_close : ActiveSession → Option Error → ActiveSession
begin_close s reason = if s.done then s else record s {
  done = true;
  closed_err = some (elim reason [ none ↦ session_closed default_close_message | some e ↦ e ]);
}

-- The second: the map of pending commands is swapped for an empty one.
unfoldable pub take_all_pending : ActiveSession → ActiveSession × Map PendingCommand
take_all_pending s = (record s { pending = [] }, s.pending)

abbrev pub closed_outcome : Error → CommandOutcome
closed_outcome e = record { payload_json = []; message = []; err = some e; completed_at = 0 }

unfoldable pub fail_all : ActiveSession → Error → Map PendingCommand → ActiveSession
unfolding finish_pending
fail_all s reason [] = s
fail_all s reason ((id, p) ∷ rest) =
    fail_all (finish_pending s p (some (closed_outcome reason))) reason rest

unfoldable pub close : ActiveSession → Option Error → ActiveSession
unfolding begin_close take_all_pending fail_all session_error
close s reason =
    if s.done
    then s
    else let closing = begin_close s reason in
      fail_all (take_all_pending closing).0 (session_error closing) (take_all_pending closing).1
