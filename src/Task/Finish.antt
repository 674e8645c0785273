-- ===== src/Task/Finish.antt =====
-- console/internal/grpcserver/task.go: how a task ends, and what its owner may ask and do.
use onlyboxes.Prelude.{
  ℕ, Option, none, some, Text, trim_space, is_empty, text_eq, codes, if◌then◌else◌, [],
}
use onlyboxes.OwnerScope.Ids.{normalize_task_owner_id}
use onlyboxes.Task.Defs.{
  TaskStatus, failed, timeout, canceled, Error, task_not_found, task_transition_not_applied,
  critical, Db, Task, TaskSnapshot, Service, is_task_terminal, get_task_by_id, snapshot_task,
}
use onlyboxes.Task.Transitions.{Ending, finish_task}

-- The errors of a dispatch, in the order in which `finishTaskWithError` tells them apart.
pub data Failure : Type 0 where
  no_capability_worker target_worker_offline target_worker_capability_unavailable : Failure
  no_worker_capacity deadline_exceeded context_canceled : Failure
  command_execution : Text → Text → Failure
  status_deadline_exceeded : Failure
  other : Text → Failure

abbrev pub failure_ending : TaskStatus → Text → Text → Ending
failure_ending status code message = record {
  status = status;
  result_json = [];
  error_code = code;
  error_message = message;
}

abbrev pub or_dispatch_failed : Text → Text
or_dispatch_failed code = if is_empty code then codes "dispatch_failed" else code

unfoldable pub ending_of_failure : Failure → Ending
ending_of_failure no_capability_worker =
    failure_ending failed (codes "no_worker") (codes "no online worker supports capability")
ending_of_failure target_worker_offline =
    failure_ending failed (codes "no_worker") (codes "target worker-sys is offline")
ending_of_failure target_worker_capability_unavailable =
    failure_ending failed (codes "no_worker")
      (codes "target worker-sys does not support capability")
ending_of_failure no_worker_capacity =
    failure_ending failed (codes "no_capacity") (codes "no online worker capacity for capability")
ending_of_failure deadline_exceeded =
    failure_ending timeout (codes "timeout") (codes "task timed out")
ending_of_failure context_canceled =
    failure_ending canceled (codes "canceled") (codes "task canceled")
ending_of_failure (command_execution code message) =
    failure_ending failed (or_dispatch_failed (trim_space code)) message
ending_of_failure status_deadline_exceeded =
    failure_ending timeout (codes "timeout") (codes "task timed out")
ending_of_failure (other message) = failure_ending failed (codes "dispatch_failed") message

unfoldable pub finish_task_with_error : Service → Text → Failure → ℕ → Db → Service × Option Error
unfolding ending_of_failure
finish_task_with_error s task_id failure now db =
    finish_task s task_id (ending_of_failure failure) (some now) now db

abbrev pub or_critical : Service × Option Error → Service × Option Error
or_critical (s, none) = (s, none)
or_critical (s, some e) = (s, some critical)

-- `message` is the text that names the stage and the cause.
unfoldable pub fail_task_on_persistence_error :
    Service → Text → Text → ℕ → Db → Service × Option Error
fail_task_on_persistence_error s task_id message now db = or_critical (
    finish_task s task_id (failure_ending failed (codes "persistence_error") message) (some now) now
      db)

unfoldable pub get_found : Text → Option Task → Option TaskSnapshot
get_found owner none = none
get_found owner (some t) = if text_eq t.owner_id owner then some (snapshot_task t) else none

unfoldable pub get_task : Service → Text → Text → Db → Option TaskSnapshot
unfolding get_found
get_task s task_id owner_id db =
    let id = trim_space task_id in
    if is_empty id
    then none
    else get_found (normalize_task_owner_id owner_id) (get_task_by_id s id db)

-- With an error, the snapshot that comes with it, if any.
pub data CancelResult : Type 0 where
  cancelled_now : TaskSnapshot → CancelResult
  already_terminal : TaskSnapshot → CancelResult
  not_cancelled : Error → CancelResult

unfoldable pub cancel_lost : Text → Option Task → CancelResult
cancel_lost owner none = not_cancelled task_not_found
cancel_lost owner (some t) =
    if text_eq t.owner_id owner
    then if is_task_terminal t.status
      then already_terminal (snapshot_task t)
      else not_cancelled task_transition_not_applied
    else not_cancelled task_not_found

abbrev pub cancel_updated : Option Task → CancelResult
cancel_updated none = not_cancelled task_not_found
cancel_updated (some t) = cancelled_now (snapshot_task t)

unfoldable pub cancel_finished : Text → Text → Db → Service × Option Error → Service × CancelResult
unfolding cancel_lost
cancel_finished id owner db (s, none) = (s, cancel_updated (get_task_by_id s id db))
cancel_finished id owner db (s, some task_transition_not_applied) =
    (s, cancel_lost owner (get_task_by_id s id db))
cancel_finished id owner db (s, some e) = (s, not_cancelled e)

unfoldable pub cancel_found :
    Service
    → Text
    → Text
    → Option Task
    → (Service → Service)
    → ℕ
    → (ℕ → Db)
    → Service × CancelResult
unfolding cancel_finished
cancel_found s id owner none gap now db = (s, not_cancelled task_not_found)
cancel_found s id owner (some t) gap now db =
    if text_eq t.owner_id owner
    then if is_task_terminal t.status
      then (s, already_terminal (snapshot_task t))
      else cancel_finished id owner (db 2) (
          finish_task (gap s) id
            (failure_ending canceled (codes "canceled") (codes "task canceled")) (some now) now
            (db 1))
    else (s, not_cancelled task_not_found)

-- `gap` is what other goroutines do between the read and the update, and `db i` what becomes of the
-- i-th statement.
unfoldable pub cancel_task :
    Service → Text → Text → (Service → Service) → ℕ → (ℕ → Db) → Service × CancelResult
unfolding cancel_found
cancel_task s task_id owner_id gap now db =
    let id = trim_space task_id in
    if is_empty id
    then (s, not_cancelled task_not_found)
    else cancel_found s id (normalize_task_owner_id owner_id) (get_task_by_id s id (db 0)) gap now
        db
