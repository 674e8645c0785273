-- ===== src/Task/Execute.antt =====
-- console/internal/grpcserver/task.go: `executeTask`, the goroutine that carries a task through.
--
-- `gap i` is what other goroutines do in the i-th pause, and `db i` what becomes of the i-th
-- statement. What `dispatchCommand` does is part of `World`: the ids with which its attempts call
-- `onDispatched`, one after the other until a call fails, and what it returns otherwise. encoding/json is a parameter.
use onlyboxes.Prelude.{
  ℕ, ◌+◌, ◌∷◌, Bool, true, ◌&&◌, not, Option, none, some, List, [], Text, lookup, get_elem?, set,
  trim_space, is_empty, codes, if◌then◌else◌,
}
use onlyboxes.OwnerScope.Payloads.{Capability, Codec, restore_task_result_owner_scope}
use onlyboxes.Task.Defs.{
  succeeded, failed, Error, task_transition_not_applied, Db, TaskRecord, Service,
}
use onlyboxes.Task.Transitions.{Ending, finish_task, mark_task_dispatched, mark_task_running}
use onlyboxes.Task.Finish.{
  Failure, failure_ending, finish_task_with_error, fail_task_on_persistence_error,
}

pub record Outcome : Type 0 where
  pub payload_json : Text
  pub message : Text
  pub err : Option Failure
  pub completed_at : Option ℕ

pub data Answer : Type 0 where
  fails : Failure → Answer
  returns : Outcome → Answer

pub record World : Type 0 where
  pub now : ℕ
  pub gap : ℕ → Service → Service
  pub db : ℕ → Db
  pub on_dispatched : List Text
  pub answer : Answer
  pub codec : Codec
  pub json_valid : Text → Bool
  -- `buildEchoPayload`
  pub echo_payload : Text → Text

-- What each of the stages does with an error of the store.
unfoldable pub settle : World → ℕ → Text → Service × Option Error → Service
settle w i task_id (s, none) = s
settle w i task_id (s, some task_transition_not_applied) = s
settle w i task_id (s, some e) =
    (fail_task_on_persistence_error (w.gap i s) task_id (codes "failed to persist task state") w.now
      (w.db i)).0

unfoldable pub result_payload : World → Outcome → Text
result_payload w o =
    let payload =
      if is_empty o.payload_json && not (is_empty (trim_space o.message))
      then w.echo_payload o.message
      else o.payload_json in
    if w.json_valid payload then payload else w.echo_payload payload

abbrev pub ending_of_result : Option Text → Ending
ending_of_result none =
    failure_ending failed (codes "invalid_payload") (codes "session_id owner mismatch")
ending_of_result (some payload) = record {
  status = succeeded;
  result_json = payload;
  error_code = [];
  error_message = [];
}

unfoldable pub finish_outcome :
    World → Service → Text → Text → Capability → Outcome → Option Failure → Service
unfolding settle result_payload
finish_outcome w s task_id owner_id capability o (some failure) =
    settle w 6 task_id (finish_task_with_error s task_id failure w.now (w.db 5))
finish_outcome w s task_id owner_id capability o none = settle w 6 task_id (
    finish_task s task_id
      (ending_of_result
        (restore_task_result_owner_scope w.codec owner_id capability (result_payload w o)))
      o.completed_at w.now (w.db 5))

unfoldable pub finish_answer : World → Service → Text → Text → Capability → Answer → Service
unfolding finish_outcome
finish_answer w s task_id owner_id capability (fails failure) =
    settle w 6 task_id (finish_task_with_error s task_id failure w.now (w.db 5))
finish_answer w s task_id owner_id capability (returns o) =
    finish_outcome w s task_id owner_id capability o o.err

abbrev pub cancel_record : Option TaskRecord → List TaskRecord → ℕ → List TaskRecord
cancel_record none records p = records
cancel_record (some r) records p = set records p (record r { cancelled = true })

abbrev pub cancel_at : Service → Option ℕ → Service
cancel_at s none = s
cancel_at s (some p) = record s { records = cancel_record (get_elem? s.records p) s.records p }

-- The context of the running task is cancelled.
unfoldable pub cancel_runtime : Service → Text → Service
cancel_runtime s task_id = cancel_at s (lookup task_id s.tasks)

-- What follows a call of `onDispatched`; `rest` is how it goes on where the mark is set.
unfoldable pub marked_running : World → Text → Service → Service × Option Error → Service
unfolding settle
marked_running w task_id rest (s, none) = rest
marked_running w task_id rest (s, some e) =
    settle w 4 task_id (w.gap 3 (cancel_runtime s task_id), some e)

-- The k-th attempt that reaches a worker, and those after it.
unfoldable pub dispatch_command :
    World → ℕ → Service → Text → Text → Capability → List Text → Service
unfolding marked_running finish_answer
dispatch_command w k s task_id owner_id capability [] =
    finish_answer w s task_id owner_id capability w.answer
dispatch_command w k s task_id owner_id capability (command_id ∷ ids) =
    let marked = mark_task_running s task_id command_id w.now (w.db (10 + k)) in
    let rest =
      dispatch_command w (k + 1) (w.gap (10 + k) marked.0) task_id owner_id capability ids in
    marked_running w task_id rest marked

unfoldable pub marked_dispatched :
    World → Text → Text → Capability → Service × Option Error → Service
unfolding dispatch_command settle
marked_dispatched w task_id owner_id capability (s, none) =
    dispatch_command w 0 (w.gap 1 s) task_id owner_id capability w.on_dispatched
marked_dispatched w task_id owner_id capability (s, some e) = settle w 1 task_id (s, some e)

unfoldable pub execute_task : World → Service → Text → Text → Capability → Service
unfolding marked_dispatched
execute_task w s task_id owner_id capability =
    marked_dispatched w task_id owner_id capability (mark_task_dispatched s task_id w.now (w.db 0))
