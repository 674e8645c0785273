-- ===== src/Task/Defs.antt =====
-- console/internal/grpcserver/task.go: a task, its row in the table, the queries of
-- console/db/queries/tasks.sql that the tasks turn on, and the map of running tasks.
--
-- The table is a list of rows. A `*taskRecord` is an index into `records`, which only grows. Times
-- are milliseconds. `Db` is what becomes of a statement that the code sends to the database.
use onlyboxes.Prelude.{
  ℕ, ◌+◌, Bool, true, false, ◌&&◌, Option, none, some, List, [], ◌∷◌, Text, Map, trim_space,
  to_lower, is_empty, text_eq, ltb, codes, if◌then◌else◌,
}

pub data TaskMode : Type 0 where
  sync async auto : TaskMode

pub data TaskStatus : Type 0 where
  queued dispatched running succeeded failed timeout canceled : TaskStatus

pub data Error : Type 0 where
  task_not_found task_terminal task_transition_not_applied task_request_in_progress : Error
  task_id_required store_unavailable invalid_mode critical : Error
  -- Statuses of gRPC, without their texts.
  invalid_argument permission_denied internal : Error
  database other : Text → Error

pub data Result {ℓ} (A : Type ℓ) : Type ℓ where
  ok : A → Result A
  err : Error → Result A

pub data Db : Type 0 where
  runs unavailable : Db
  fails : Text → Db

pub record Task : Type 0 where
  pub task_id : Text
  pub owner_id : Text
  pub request_id : Text
  pub capability : Text
  pub input_json : Text
  pub status : TaskStatus
  pub command_id : Text
  pub result_json : Text
  pub error_code : Text
  pub error_message : Text
  pub created_at : ℕ
  pub updated_at : ℕ
  pub deadline_at : ℕ
  pub completed_at : ℕ
  pub expires_at : ℕ

pub record TaskSnapshot : Type 0 where
  pub task_id : Text
  pub request_id : Text
  pub command_id : Text
  pub capability : Text
  pub status : TaskStatus
  pub result_json : Text
  pub error_code : Text
  pub error_message : Text
  pub created_at : ℕ
  pub updated_at : ℕ
  pub deadline_at : ℕ
  pub completed_at : Option ℕ

pub record TaskRecord : Type 0 where
  pub cancelled : Bool
  pub done : Bool

pub record Service : Type 0 where
  pub table : List Task
  pub tasks : Map ℕ
  pub records : List TaskRecord
  pub task_request_reservations : Map (Unit {0})
  pub task_retention : ℕ
  pub last_inline_task_prune : ℕ

unfoldable pub parse_task_mode : Text → Result TaskMode
parse_task_mode raw =
    let trimmed = trim_space (to_lower raw) in
    if is_empty trimmed
    then ok auto
    else if text_eq trimmed (codes "sync")
    then ok sync
    else if text_eq trimmed (codes "async")
    then ok async
    else if text_eq trimmed (codes "auto")
    then ok auto
    else err invalid_mode

abbrev pub is_task_terminal : TaskStatus → Bool
is_task_terminal succeeded = true
is_task_terminal failed = true
is_task_terminal timeout = true
is_task_terminal canceled = true
is_task_terminal _ = false

-- `status IN ('queued', 'dispatched', 'running')`
abbrev pub is_open : TaskStatus → Bool
is_open queued = true
is_open dispatched = true
is_open running = true
is_open _ = false

-- `WHERE task_id = ? AND status IN ('queued', 'dispatched', 'running')`
abbrev pub selects : Text → Task → Bool
selects task_id t = text_eq t.task_id task_id && is_open t.status

-- An UPDATE of the selected rows.
unfoldable pub update_open : Text → (Task → Task) → List Task → List Task
update_open task_id change [] = []
update_open task_id change (t ∷ ts) =
    (if selects task_id t then change t else t) ∷ update_open task_id change ts

-- The number of rows that it affects.
unfoldable pub rows_open : Text → List Task → ℕ
rows_open task_id [] = 0
rows_open task_id (t ∷ ts) =
    let rest = rows_open task_id ts in if selects task_id t then 1 + rest else rest

unfoldable pub find_task : (Task → Bool) → List Task → Option Task
find_task test [] = none
find_task test (t ∷ ts) = let rest = find_task test ts in if test t then some t else rest

-- Where the database fails, as where there is no row, nothing is found.
unfoldable pub get_task_by_id : Service → Text → Db → Option Task
unfolding find_task
get_task_by_id s task_id runs = find_task (λ t. text_eq t.task_id task_id) s.table
get_task_by_id s task_id _ = none

unfoldable pub get_task_by_owner_and_request : Service → Text → Text → Db → Option Task
unfolding find_task
get_task_by_owner_and_request s owner_id request_id runs =
    find_task (λ t. text_eq t.owner_id owner_id && text_eq t.request_id request_id) s.table
get_task_by_owner_and_request s owner_id request_id _ = none

abbrev pub time_if_set : ℕ → Option ℕ
time_if_set t = if ltb 0 t then some t else none

-- `convertDBTask` and then `snapshotTask`.
unfoldable pub snapshot_task : Task → TaskSnapshot
snapshot_task t = record {
  task_id = t.task_id;
  request_id = t.request_id;
  command_id = t.command_id;
  capability = t.capability;
  status = t.status;
  result_json = t.result_json;
  error_code = t.error_code;
  error_message = t.error_message;
  created_at = t.created_at;
  updated_at = t.updated_at;
  deadline_at = t.deadline_at;
  completed_at = time_if_set t.completed_at;
}
