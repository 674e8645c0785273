-- ===== src/Task/Owners.antt =====
-- console/internal/grpcserver/task.go: owners and their tasks, and those that wait for a task.
use onlyboxes.Prelude.{
  ℕ, ◌+◌, if_cases, if◌then◌else◌, trim_left, trim_right, is_space, ◌≡◌, ◌≢◌, refl, ap, subst, ◌∙◌,
  true, false, Option, none, some, List, [], ◌∷◌, Text, codes, arith, text_eq, text_eq_ne,
  text_eq_refl, is_empty, get_elem?, get_elem?-set_self, lookup, lookup-remove_self, trim_space,
  trim_space_idem, ltb,
}
use onlyboxes.Task.Defs.{
  TaskStatus, canceled, Error, task_not_found, Db, runs, unavailable, fails, Task, TaskRecord,
  TaskSnapshot, Service, is_task_terminal, is_open, update_open, rows_open, find_task,
  get_task_by_id, snapshot_task,
}
use onlyboxes.Task.Transitions.{
  Ending, apply_update, end_task, or_now, finish_task, complete_after, complete_task_runtime,
  complete_found, close_task_runtime_record,
}
use onlyboxes.Task.Finish.{
  failure_ending, get_task, cancelled_now, not_cancelled, cancel_task, cancel_found,
  cancel_finished, CancelResult,
}

-- The two answers of the database to the read.
get_private :
    (s : Service) (task_id owner_id : Text) (t : Task) (read : Db)
    → get_task_by_id s (trim_space task_id) runs ≡ some t
    → t.owner_id ≢ trim_space owner_id
    → get_task s task_id owner_id read ≡ none
unfolding get_task get_task_by_id
get_private s task_id owner_id t runs found ne =
    ground (arith, text_eq_ne t.owner_id (trim_space owner_id) ne)
get_private s task_id owner_id t unavailable found ne = ground arith
get_private s task_id owner_id t (fails e) found ne = ground arith

cancel_private :
    (s : Service) (id owner : Text) (t : Task) (gap : Service → Service) (now : ℕ) (read : Db)
    (db : ℕ → Db)
    → get_task_by_id s id runs ≡ some t
    → t.owner_id ≢ owner
    → cancel_found s id owner (get_task_by_id s id read) gap now db
      ≡ (s, not_cancelled task_not_found)
unfolding cancel_found get_task_by_id
cancel_private s id owner t gap now runs db found ne =
    ground (arith, text_eq_ne t.owner_id owner ne)
cancel_private s id owner t gap now unavailable db found ne = refl
cancel_private s id owner t gap now (fails e) db found ne = refl

-- To all but its owner a task is as if it were not there: looking at it finds nothing, and
-- cancelling it is refused as for an unknown id and changes nothing, whatever other goroutines and
-- the database do.
pub tasks_are_private :
    (s : Service) (task_id owner_id : Text) (t : Task) (gap : Service → Service) (now : ℕ)
    (read : Db) (db : ℕ → Db)
    → get_task_by_id s (trim_space task_id) runs ≡ some t
    → t.owner_id ≢ trim_space owner_id
    → (get_task s task_id owner_id read ≡ none)
      × (cancel_task s task_id owner_id gap now db ≡ (s, not_cancelled task_not_found))
unfolding cancel_task
tasks_are_private s task_id owner_id t gap now read db found ne = (
  get_private s task_id owner_id t read found ne,
  if_cases (λ (r : Service × CancelResult). r ≡ (s, not_cancelled task_not_found))
      (is_empty (trim_space task_id)) _ _ (λ _. refl)
      (λ _.
        cancel_private s (trim_space task_id) (trim_space owner_id) t gap now (db 0) db found ne),
)

complete_found-released :
    (s : Service) (task_id : Text) (p : ℕ) (r : TaskRecord)
    → get_elem? s.records p ≡ some r
    → let u = complete_found s task_id (some p) in
      (lookup task_id u.tasks ≡ none)
      × (get_elem? u.records p ≡ some (record { cancelled = true; done = true }))
unfolding complete_found close_task_runtime_record
complete_found-released s task_id p r h =
    (lookup-remove_self task_id s.tasks, get_elem?-set_self s.records p _ h)

complete_after-released :
    (task_id : Text) (x : Service × Option Error) (p : ℕ) (r : TaskRecord)
    → lookup task_id x.0.tasks ≡ some p
    → get_elem? x.0.records p ≡ some r
    → let u = (complete_after task_id x).0 in
      (lookup task_id u.tasks ≡ none)
      × (get_elem? u.records p ≡ some (record { cancelled = true; done = true }))
unfolding complete_task_runtime
complete_after-released task_id (s, e) p r h g = rw h (complete_found-released s task_id p r g)

apply_update-runtime :
    (s : Service) (id : Text) (change : Task → Task) (db : Db)
    → ((apply_update s id change db).0.tasks ≡ s.tasks)
      × ((apply_update s id change db).0.records ≡ s.records)
unfolding apply_update
apply_update-runtime s id change runs = ground arith
apply_update-runtime s id change unavailable = (refl, refl)
apply_update-runtime s id change (fails e) = (refl, refl)

-- However a running task is ended, and whether the database takes the transition, refuses it or fails: the
-- task's context is cancelled, those that wait for the task go on, and the task is no longer among
-- the running ones.
pub finish_task-releases :
    (s : Service) (task_id : Text) (e : Ending) (completed : Option ℕ) (now : ℕ) (db : Db) (p : ℕ)
    (r : TaskRecord)
    → is_empty (trim_space task_id) ≡ false
    → lookup (trim_space task_id) s.tasks ≡ some p
    → get_elem? s.records p ≡ some r
    → let u = (finish_task s task_id e completed now db).0 in
      (lookup (trim_space task_id) u.tasks ≡ none)
      × (get_elem? u.records p ≡ some (record { cancelled = true; done = true }))
unfolding finish_task
finish_task-releases s task_id e completed now db p r named h g =
    let change : Task → Task = end_task e (or_now completed now) s.task_retention in
    let (same_tasks, same_records) = apply_update-runtime s (trim_space task_id) change db in
    rw named (
      complete_after-released (trim_space task_id) (apply_update s (trim_space task_id) change db) p
        r (ap (lookup (trim_space task_id)) same_tasks ∙ h)
        (ap (λ (l : List TaskRecord). get_elem? l p) same_records ∙ g))

find-update :
    (id : Text) (change : Task → Task) (ts : List Task) (t : Task)
    → (change t).task_id ≡ t.task_id
    → is_open t.status ≡ true
    → find_task (λ u. text_eq u.task_id id) ts ≡ some t
    → (find_task (λ u. text_eq u.task_id id) (update_open id change ts) ≡ some (change t))
      × (ltb 0 (rows_open id ts) ≡ true)
unfolding find_task update_open rows_open
find-update id change [] t keeps up h = absurd (cc h)
find-update id change (u ∷ ts) t keeps up h = ground (arith, find-update id change ts t keeps up)

complete_same_table :
    (s : Service) (task_id : Text) → (complete_task_runtime s task_id).table ≡ s.table
unfolding complete_task_runtime
complete_same_table s task_id = ground arith

apply_update-hit :
    (s : Service) (id : Text) (change : Task → Task) (t : Task)
    → (change t).task_id ≡ t.task_id
    → is_open t.status ≡ true
    → get_task_by_id s id runs ≡ some t
    → apply_update s id change runs ≡ (record s { table = update_open id change s.table }, none)
unfolding apply_update get_task_by_id
apply_update-hit s id change t keeps up h =
    ground (arith, find-update id change s.table t keeps up h)

-- The row that a cancelled task has: canceled, without a result, ended now, and kept for the
-- retention.
abbrev pub cancelled_row : ℕ → ℕ → Task → Task
cancelled_row now retention t = record {
  task_id = t.task_id;
  owner_id = t.owner_id;
  request_id = t.request_id;
  capability = t.capability;
  input_json = t.input_json;
  status = canceled;
  command_id = t.command_id;
  result_json = [];
  error_code = codes "canceled";
  error_message = codes "task canceled";
  created_at = t.created_at;
  updated_at = now;
  deadline_at = t.deadline_at;
  completed_at = now;
  expires_at = now + retention;
}

-- What its owner is shown of it.
abbrev pub cancelled_snapshot : ℕ → Task → TaskSnapshot
cancelled_snapshot now t = record {
  task_id = t.task_id;
  request_id = t.request_id;
  command_id = t.command_id;
  capability = t.capability;
  status = canceled;
  result_json = [];
  error_code = codes "canceled";
  error_message = codes "task canceled";
  created_at = t.created_at;
  updated_at = now;
  deadline_at = t.deadline_at;
  completed_at = if ltb 0 now then some now else none;
}

cancelling_row :
    (now retention : ℕ) (t : Task)
    → end_task (failure_ending canceled (codes "canceled") (codes "task canceled")) now retention t
      ≡ cancelled_row now retention t
unfolding trim_space trim_left trim_right is_space
cancelling_row now retention t = refl

cancel_finished-hit :
    (s : Service) (id owner : Text) (now : ℕ) (t : Task)
    → trim_space id ≡ id
    → is_empty id ≡ false
    → is_open t.status ≡ true
    → get_task_by_id s id runs ≡ some t
    → let u = cancel_finished id owner runs (
        finish_task s id
          (failure_ending canceled (codes "canceled") (codes "task canceled"))
          (some now)
          now
          runs) in
      (u.1 ≡ cancelled_now (cancelled_snapshot now t))
      × (get_task_by_id u.0 id runs ≡ some (cancelled_row now s.task_retention t))
unfolding finish_task cancel_finished get_task_by_id
cancel_finished-hit s id owner now t trimmed named up h =
    let change : Task → Task =
      end_task (failure_ending canceled (codes "canceled") (codes "task canceled")) now
        s.task_retention in
    let hit = apply_update-hit s id change t refl up h in
    let row = (find-update id change s.table t refl up h).0 in
    let found =
      ap (find_task (λ u. text_eq u.task_id id))
        (complete_same_table (record s { table = update_open id change s.table }) id)
      ∙ row in
    rw (trimmed, named, hit, found, cancelling_row now s.task_retention t)
      (unfold snapshot_task in refl, refl)

-- An owner that cancels its open task, while the database works and no other goroutine comes
-- between, is shown the task as canceled at this time, with no result, and the row that the task then
-- has says so too, and expires after the retention; all else of the task is as it was.
pub cancel_task-open :
    (s : Service) (task_id owner_id : Text) (t : Task) (now : ℕ)
    → is_empty (trim_space task_id) ≡ false
    → get_task_by_id s (trim_space task_id) runs ≡ some t
    → t.owner_id ≡ trim_space owner_id
    → is_open t.status ≡ true
    → let u = cancel_task s task_id owner_id (λ v. v) now (λ i. runs) in
      (u.1 ≡ cancelled_now (cancelled_snapshot now t))
      × (get_task_by_id u.0 (trim_space task_id) runs ≡ some (cancelled_row now s.task_retention t))
unfolding cancel_task cancel_found
cancel_task-open s task_id owner_id t now named found own up =
    let hit =
      cancel_finished-hit s (trim_space task_id) (trim_space owner_id) now t
        (trim_space_idem task_id) named up found in
    rw (named, found, own-eq, open-going t.status up) hit
  where
    own-eq : text_eq t.owner_id (trim_space owner_id) ≡ true
    own-eq = subst (λ (o : Text). text_eq t.owner_id o ≡ true) own (text_eq_refl t.owner_id)

    open-going : (st : TaskStatus) → is_open st ≡ true → is_task_terminal st ≡ false
    open-going st h = ground arith
