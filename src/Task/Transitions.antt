-- ===== src/Task/Transitions.antt =====
-- console/internal/grpcserver/task.go: the transitions of a task, its running goroutine, and the
-- pruning of the table, and what its start does (console/internal/persistence/db.go).
use onlyboxes.Prelude.{
  ℕ, ◌+◌, Bool, true, false, ◌&&◌, Option, none, some, List, [], ◌∷◌, ◌++◌, Text, lookup, insert,
  remove, codes, length, set, trim_space, is_empty, ltb, leb, if◌then◌else◌,
}
use onlyboxes.Task.Defs.{
  TaskStatus, dispatched, running, failed, is_open, Error, task_transition_not_applied,
  task_id_required, store_unavailable, database, Db, runs, unavailable, fails, Task, TaskRecord,
  Service, is_task_terminal, update_open, rows_open,
}

-- An UPDATE of the open rows with the id, and the error that the code makes of its outcome.
unfoldable pub apply_update : Service → Text → (Task → Task) → Db → Service × Option Error
unfolding update_open rows_open
apply_update s task_id change unavailable = (s, some store_unavailable)
apply_update s task_id change (fails e) = (s, some (database e))
apply_update s task_id change runs =
    if ltb 0 (rows_open task_id s.table)
    then (record s { table = update_open task_id change s.table }, none)
    else (s, some task_transition_not_applied)

unfoldable pub mark_task_dispatched : Service → Text → ℕ → Db → Service × Option Error
unfolding apply_update
mark_task_dispatched s task_id now db =
    if is_empty (trim_space task_id)
    then (s, some task_id_required)
    else apply_update s task_id (λ t. record t { status = dispatched; updated_at = now }) db

unfoldable pub mark_task_running : Service → Text → Text → ℕ → Db → Service × Option Error
unfolding apply_update
mark_task_running s task_id command_id now db =
    if is_empty (trim_space task_id)
    then (s, some task_id_required)
    else apply_update s task_id
        (λ t. record t { status = running; command_id = trim_space command_id; updated_at = now })
        db

-- The context of the task is cancelled and those that wait for it go on.
unfoldable pub close_task_runtime_record : List TaskRecord → ℕ → List TaskRecord
close_task_runtime_record records p = set records p (record { cancelled = true; done = true })

unfoldable pub complete_found : Service → Text → Option ℕ → Service
unfolding close_task_runtime_record
complete_found s task_id none = s
complete_found s task_id (some p) = record s {
  tasks = remove task_id s.tasks;
  records = close_task_runtime_record s.records p;
}

unfoldable pub complete_task_runtime : Service → Text → Service
unfolding complete_found
complete_task_runtime s task_id = complete_found s task_id (lookup task_id s.tasks)

unfoldable pub set_task_runtime : Service → Text → Service
set_task_runtime s task_id = record s {
  records = s.records ++ (record { cancelled = false; done = false }) ∷ [];
  tasks = insert task_id (length s.records) s.tasks;
}

-- What a terminal transition writes.
pub record Ending : Type 0 where
  pub status : TaskStatus
  pub result_json : Text
  pub error_code : Text
  pub error_message : Text

abbrev pub end_task : Ending → ℕ → ℕ → Task → Task
end_task e completed_at retention t = record t {
  status = e.status;
  result_json = e.result_json;
  error_code = trim_space e.error_code;
  error_message = trim_space e.error_message;
  updated_at = completed_at;
  completed_at = completed_at;
  expires_at = completed_at + retention;
}

abbrev pub or_now : Option ℕ → ℕ → ℕ
or_now none now = now
or_now (some t) now = t

abbrev pub complete_after : Text → Service × Option Error → Service × Option Error
complete_after task_id (s, e) = (complete_task_runtime s task_id, e)

-- `completed` is none for the zero time.
unfoldable pub finish_task : Service → Text → Ending → Option ℕ → ℕ → Db → Service × Option Error
unfolding apply_update complete_task_runtime
finish_task s task_id e completed now db =
    let id = trim_space task_id in
    if is_empty id
    then (s, some task_id_required)
    else complete_after id
        (apply_update s id (end_task e (or_now completed now) s.task_retention) db)

-- `DeleteExpiredTerminalTasks`
abbrev pub is_expired : ℕ → Task → Bool
is_expired now t = is_task_terminal t.status && ltb 0 t.expires_at && leb t.expires_at now

unfoldable pub delete_expired : ℕ → List Task → List Task
delete_expired now [] = []
delete_expired now (t ∷ ts) =
    let rest = delete_expired now ts in if is_expired now t then rest else t ∷ rest

-- A failure is only logged by the callers.
unfoldable pub prune_expired_tasks : Service → ℕ → Db → Service
unfolding delete_expired
prune_expired_tasks s now runs = record s { table = delete_expired now s.table }
prune_expired_tasks s now _ = s

abbrev pub inline_task_prune_min_interval : ℕ
inline_task_prune_min_interval = 15000

-- `now - last < min`, without the subtraction.
unfoldable pub maybe_prune_expired_tasks : Service → ℕ → Db → Service
unfolding prune_expired_tasks
maybe_prune_expired_tasks s now db =
    if ltb 0 s.last_inline_task_prune
      && ltb now (s.last_inline_task_prune + inline_task_prune_min_interval)
    then s
    else prune_expired_tasks (record s { last_inline_task_prune = now }) now db

-- `MarkNonTerminalTasksFailedOnStartup`
unfoldable pub fail_open : ℕ → ℕ → List Task → List Task
fail_open now retention [] = []
fail_open now retention (t ∷ ts) =
    (if is_open t.status
      then record t {
        status = failed;
        error_code = codes "console_restarted";
        error_message = codes "task interrupted by console restart";
        updated_at = now;
        completed_at = now;
        expires_at = now + retention;
      }
      else t)
    ∷ fail_open now retention ts

-- The console is started anew: what it kept in memory is gone, and the open rows are ended. Where the
-- database fails it does not start.
unfoldable pub restart_console : Service → ℕ → Db → Service
unfolding fail_open
restart_console s now runs = record s {
  table = fail_open now s.task_retention s.table;
  tasks = [];
  records = [];
  task_request_reservations = [];
  last_inline_task_prune = 0;
}
restart_console s now _ = s
