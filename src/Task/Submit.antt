-- ===== src/Task/Submit.antt =====
-- console/internal/grpcserver/task.go: `SubmitTask` and `resolveSubmitTaskResult`.
--
-- `prepareTaskInput` and `scopeTaskInputByOwner` stand between the two groups of checks and the
-- reservation; what they leave is part of `Prepared`. The new goroutine is what `gap` does.
use onlyboxes.Prelude.{
  ℕ, ◌+◌, Bool, true, false, ◌&&◌, ◌||◌, not, Option, none, some, List, [], ◌∷◌, ◌++◌, Text, lookup,
  insert, remove, trim_space, is_empty, text_eq, ltb, codes, if◌then◌else◌, ℤ, positive_or,
}
use onlyboxes.Session.Defs.{normalize_capability}
use onlyboxes.OwnerScope.Ids.{normalize_task_owner_id, task_request_scope_key}
use onlyboxes.Task.Defs.{
  TaskMode, async, auto, queued, succeeded, Error, Result, ok, err, task_not_found,
  task_request_in_progress, invalid_argument, permission_denied, internal, Db, runs, Task,
  TaskSnapshot, Service, find_task, parse_task_mode, is_task_terminal, get_task_by_id,
  get_task_by_owner_and_request, snapshot_task,
}
use onlyboxes.Task.Transitions.{set_task_runtime, finish_task, maybe_prune_expired_tasks}

abbrev pub default_task_wait : ℕ
default_task_wait = 1500

abbrev pub default_task_timeout : ℕ
default_task_timeout = 60000

abbrev pub max_task_wait : ℕ
max_task_wait = 60000

abbrev pub max_task_timeout : ℕ
max_task_timeout = 600000

-- The capability, the owner and the mode of a request.
unfoldable pub check_submit : Text → Text → Text → Result (Text × Text × TaskMode)
check_submit capability owner_id mode =
    let name = normalize_capability capability in
    let owner = normalize_task_owner_id owner_id in
    if is_empty name
    then err invalid_argument
    else if text_eq name (codes "terminalproxy") || text_eq name (codes "terminalleaserenew")
    then err permission_denied
    else if is_empty owner
    then err invalid_argument
    else with_mode name owner (parse_task_mode mode)
  where
    with_mode : Text → Text → Result TaskMode → Result (Text × Text × TaskMode)
    with_mode name owner (ok m) = ok (name, owner, m)
    with_mode name owner (err e) = err invalid_argument

abbrev pub capped_wait : TaskMode → ℕ → ℕ → ℕ
capped_wait auto wait timeout = if ltb timeout wait then timeout else wait
capped_wait _ wait timeout = wait

-- The timeout and the wait, in milliseconds.
unfoldable pub submit_limits : TaskMode → ℤ → ℤ → Result (ℕ × ℕ)
submit_limits mode req_timeout req_wait =
    let timeout = positive_or req_timeout default_task_timeout in
    let wait = positive_or req_wait default_task_wait in
    if ltb max_task_timeout timeout
    then err invalid_argument
    else if ltb max_task_wait wait
    then err invalid_argument
    else ok (timeout, capped_wait mode wait timeout)

pub data Inserted : Type 0 where
  inserted owner_request_conflict : Inserted
  failed_insert : Inserted

abbrev pub is_found {ℓ} : {A : Type ℓ} → Option A → Bool
is_found none = false
is_found (some a) = true

-- What the schema of the table refuses a row for: a primary key that is there, and the unique index on
-- the owner and the request (console/db/migrations/00001_init.sql).
unfoldable pub refused_by_schema : List Task → Task → Option Inserted
unfolding find_task
refused_by_schema table t =
    if is_found (find_task (λ u. text_eq u.task_id t.task_id) table)
    then some failed_insert
    else if not (is_empty t.request_id)
        && is_found (
            find_task (λ u. text_eq u.owner_id t.owner_id && text_eq u.request_id t.request_id)
              table)
    then some owner_request_conflict
    else none

-- The call of `InsertTask`, and how its error is told apart.
unfoldable pub insert_task : Service → Task → Db → Service × Inserted
unfolding refused_by_schema
insert_task s t runs = elim (refused_by_schema s.table t) [
  | none ↦ (record s { table = s.table ++ t ∷ [] }, inserted)
  | some refusal ↦ (s, refusal)
]
insert_task s t _ = (s, failed_insert)

pub record Submitted : Type 0 where
  pub task : TaskSnapshot
  pub completed : Bool

abbrev pub submitted : Task → Submitted
submitted t = record { task = snapshot_task t; completed = is_task_terminal t.status }

abbrev pub snapshot_found : Option Task → Result Submitted
snapshot_found none = err task_not_found
snapshot_found (some t) = ok (submitted t)

pub record World : Type 0 where
  pub now : ℕ
  pub gap : ℕ → Service → Service
  pub db : ℕ → Db
  -- How the wait for the task ends: with the error of the caller's context, or without.
  pub wait : Option Error
  pub new_task_id : Option Text
  -- `checkCapabilityAvailability` or `checkTargetCapabilityAvailability`.
  pub availability : Option Error

abbrev pub after_wait : Service → Text → Db → Option Error → Service × Result Submitted
after_wait s task_id db none = (s, snapshot_found (get_task_by_id s task_id db))
after_wait s task_id db (some e) = (s, err e)

unfoldable pub resolve_found :
    World → Service → Text → TaskMode → Result Submitted → Service × Result Submitted
resolve_found w s task_id mode (err e) = (s, err e)
resolve_found w s task_id async (ok r) = (s, ok r)
resolve_found w s task_id _ (ok r) =
    if r.completed then (s, ok r) else after_wait (w.gap 9 s) task_id (w.db 5) w.wait

unfoldable pub resolve_submit_task_result :
    World → Service → Text → TaskMode → Service × Result Submitted
unfolding resolve_found
resolve_submit_task_result w s task_id mode =
    if is_empty (trim_space task_id)
    then (s, err task_not_found)
    else resolve_found w s task_id mode (snapshot_found (get_task_by_id s task_id (w.db 4)))

pub record Prepared : Type 0 where
  pub capability : Text
  pub owner_id : Text
  -- Trimmed.
  pub request_id : Text
  pub mode : TaskMode
  pub timeout : ℕ
  pub input_json : Text
  pub immediate_result : Option Text

abbrev pub queued_task : World → Prepared → Text → Task
queued_task w p task_id = record {
  task_id = task_id;
  owner_id = p.owner_id;
  request_id = p.request_id;
  capability = p.capability;
  input_json = p.input_json;
  status = queued;
  command_id = [];
  result_json = [];
  error_code = [];
  error_message = [];
  created_at = w.now;
  updated_at = w.now;
  deadline_at = w.now + p.timeout;
  completed_at = 0;
  expires_at = 0;
}

unfoldable pub unreserve : Service → Prepared → Service
unreserve s p = if is_empty p.request_id then s else record s {
  task_request_reservations =
      remove (task_request_scope_key p.owner_id p.request_id) s.task_request_reservations;
}

-- The deferred release of the reservation.
abbrev pub returning : Prepared → Service × Result Submitted → Service × Result Submitted
returning p (s, r) = (unreserve s p, r)

abbrev pub loaded : Option Task → Result Submitted
loaded none = err internal
loaded (some t) = ok (record { task = snapshot_task t; completed = true })

abbrev pub finished_now : Prepared → Text → Db → Service × Option Error → Service × Result Submitted
finished_now p task_id db (s, some e) = (unreserve s p, err internal)
finished_now p task_id db (s, none) =
    (unreserve s p, loaded (get_task_by_id (unreserve s p) task_id db))

unfoldable pub start_inserted :
    World → Service → Prepared → Text → Option Text → Service × Result Submitted
unfolding unreserve
start_inserted w s p task_id (some result) = finished_now p task_id (w.db 6) (
    finish_task s task_id
      (record { status = succeeded; result_json = result; error_code = []; error_message = [] })
      (some w.now) w.now (w.db 3))
start_inserted w s p task_id none =
    resolve_submit_task_result w (w.gap 8 (unreserve (set_task_runtime s task_id) p)) task_id p.mode

abbrev pub resolve_existing :
    World → Service → Prepared → Error → Option Task → Service × Result Submitted
resolve_existing w s p e none = (s, err e)
resolve_existing w s p e (some t) = resolve_submit_task_result w s t.task_id p.mode

unfoldable pub start_task :
    World → Prepared → Text → Service × Inserted → Service × Result Submitted
unfolding start_inserted
start_task w p task_id (s, inserted) = start_inserted w s p task_id p.immediate_result
start_task w p task_id (s, owner_request_conflict) = returning p (
    if is_empty p.request_id
    then (s, err internal)
    else resolve_existing w s p internal
        (get_task_by_owner_and_request s p.owner_id p.request_id (w.db 7)))
start_task w p task_id (s, failed_insert) = (unreserve s p, err internal)

abbrev pub create_with_id : World → Service → Prepared → Option Text → Service × Result Submitted
create_with_id w s p none = (unreserve s p, err internal)
create_with_id w s p (some task_id) =
    start_task w p task_id (insert_task s (queued_task w p task_id) (w.db 2))

abbrev pub needs_worker : Prepared → Option Error → Option Error
needs_worker p e = elim p.immediate_result [ none ↦ e | some r ↦ none ]

unfoldable pub create_task : World → Service → Prepared → Option Error → Service × Result Submitted
unfolding start_task
create_task w s p (some e) = (unreserve s p, err e)
create_task w s p none = create_with_id w s p w.new_task_id

unfoldable pub submit_reserved :
    World → Service → Prepared → Option Task → Service × Result Submitted
unfolding create_task
submit_reserved w s p (some existing) =
    returning p (resolve_submit_task_result w s existing.task_id p.mode)
submit_reserved w s p none = create_task w s p (needs_worker p w.availability)

abbrev pub reserve : Service → Prepared → Service
reserve s p = record s {
  task_request_reservations =
      insert (task_request_scope_key p.owner_id p.request_id) tt s.task_request_reservations;
}

unfoldable pub submit_pruned : World → Service → Prepared → Service × Result Submitted
unfolding submit_reserved
submit_pruned w s p =
    if is_empty p.request_id
    then create_task w s p (needs_worker p w.availability)
    else if is_found
        (lookup (task_request_scope_key p.owner_id p.request_id) s.task_request_reservations)
    then (s, err task_request_in_progress)
    else submit_reserved w (reserve s p) p
        (get_task_by_owner_and_request (reserve s p) p.owner_id p.request_id (w.db 0))

-- `SubmitTask` from the prune on, for a request that has passed the checks.
unfoldable pub submit_task : World → Service → Prepared → Service × Result Submitted
unfolding submit_pruned
submit_task w s p = submit_pruned w (maybe_prune_expired_tasks s w.now (w.db 1)) p
