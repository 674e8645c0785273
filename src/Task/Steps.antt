-- ===== src/Task/Steps.antt =====
-- console/internal/grpcserver/task.go: the table of tasks under concurrency. Any interleaving of the
-- statements of requests, of the goroutines of tasks and of the pruning is a sequence of these steps.
use onlyboxes.Prelude.{
  ℕ, ◌+◌, ◌≡◌, ◌≤◌, ◌<◌, ◌⊎◌, inl, inr, max, refl, ap, ◌∙◌, Bool, true, false, ◌&&◌, Option, some,
  List, [], ◌∷◌, ◌++◌, Text, arith, text_eq, is_empty, if_cases, trim_space, ltb,
}
use onlyboxes.Task.Defs.{
  TaskStatus, Error, Db, runs, unavailable, fails, Task, Service, is_task_terminal, is_open,
  update_open, find_task, get_task_by_id,
}
use onlyboxes.Task.Transitions.{
  Ending, apply_update, end_task, or_now, finish_task, complete_after, complete_task_runtime,
  set_task_runtime, mark_task_dispatched, mark_task_running, delete_expired, prune_expired_tasks,
  maybe_prune_expired_tasks, fail_open, restart_console,
}
use onlyboxes.Task.Submit.{insert_task}

pub data Step (s : Service) : Service → Type 0 where
  insert : (t : Task) (db : Db) → Step s (insert_task s t db).0
  dispatch : (id : Text) (now : ℕ) (db : Db) → Step s (mark_task_dispatched s id now db).0
  run :
      (id command_id : Text) (now : ℕ) (db : Db)
      → Step s (mark_task_running s id command_id now db).0
  finish :
      (id : Text) (e : Ending) (completed : Option ℕ) (now : ℕ) (db : Db)
      → Step s (finish_task s id e completed now db).0
  start : (id : Text) → Step s (set_task_runtime s id)
  prune : (now : ℕ) (db : Db) → Step s (prune_expired_tasks s now db)
  prune_inline : (now : ℕ) (db : Db) → Step s (maybe_prune_expired_tasks s now db)
  restart : (now : ℕ) (db : Db) → Step s (restart_console s now db)

pub data Reach (s : Service) : Service → Type 0 where
  here : Reach s s
  next : {t u : Service} → Reach s t → Step t u → Reach s u

-- The latest instant at which the steps prune.
abbrev pub pruned_at : {s t : Service} → Step s t → ℕ
pruned_at (prune now db) = now
pruned_at (prune_inline now db) = now
pruned_at _ = 0

abbrev pub last_prune : {s t : Service} → Reach s t → ℕ
last_prune here = 0
last_prune (next r st) = max (last_prune r) (pruned_at st)

abbrev has_id : Text → Task → Bool
has_id id t = text_eq t.task_id id

-- What may become of a table in which the task `t` has ended.
abbrev IsKept : Text → Task → ℕ → List Task → Type 0
IsKept id t now table =
    (find_task (has_id id) table ≡ some t) ⊎ ((0 < t.expires_at) × (t.expires_at ≤ now))

find-append :
    (test : Task → Bool) (ts us : List Task) (t : Task)
    → find_task test ts ≡ some t
    → find_task test (ts ++ us) ≡ some t
unfolding find_task
find-append test [] us t h = absurd (cc h)
find-append test (u ∷ ts) us t h = ground (arith, find-append test ts us t)

terminal-closed : (st : TaskStatus) → is_task_terminal st ≡ true → is_open st ≡ false
terminal-closed st h = ground arith

find-update_open :
    (id other : Text) (change : Task → Task) (ts : List Task) (t : Task)
    → ((u : Task) → (change u).task_id ≡ u.task_id)
    → is_open t.status ≡ false
    → find_task (has_id id) ts ≡ some t
    → find_task (has_id id) (update_open other change ts) ≡ some t
unfolding find_task update_open
find-update_open id other change [] t keeps over h = absurd (cc h)
find-update_open id other change (u ∷ ts) t keeps over h =
    ground (arith, keeps u, find-update_open id other change ts t keeps over)

find-delete_expired :
    (id : Text) (now : ℕ) (ts : List Task) (t : Task)
    → find_task (has_id id) ts ≡ some t
    → IsKept id t now (delete_expired now ts)
unfolding find_task delete_expired
find-delete_expired id now [] t h = absurd (cc h)
find-delete_expired id now (u ∷ ts) t h = ground (arith, find-delete_expired id now ts t)

-- No row is found anew under its id by an UPDATE.
abbrev KeepsId : (Task → Task) → Type 0
KeepsId change = (u : Task) → (change u).task_id ≡ u.task_id

apply_update-find :
    (s : Service) (id other : Text) (change : Task → Task) (db : Db) (t : Task)
    → KeepsId change
    → is_open t.status ≡ false
    → find_task (has_id id) s.table ≡ some t
    → find_task (has_id id) (apply_update s other change db).0.table ≡ some t
unfolding apply_update
apply_update-find s id other change unavailable t keeps over h = h
apply_update-find s id other change (fails e) t keeps over h = h
apply_update-find s id other change runs t keeps over h =
    ground (arith, find-update_open id other change s.table t keeps over h)

pub complete_after-table :
    (id : Text) (r : Service × Option Error) → (complete_after id r).0.table ≡ r.0.table
unfolding complete_task_runtime
complete_after-table id (s, e) = ground arith

finish_task-find :
    (s : Service) (id other : Text) (e : Ending) (completed : Option ℕ) (now : ℕ) (db : Db)
    (t : Task)
    → is_open t.status ≡ false
    → find_task (has_id id) s.table ≡ some t
    → find_task (has_id id) (finish_task s other e completed now db).0.table ≡ some t
unfolding finish_task
finish_task-find s id other e completed now db t over h =
    if_cases (λ (r : Service × Option Error). find_task (has_id id) r.0.table ≡ some t)
      (is_empty (trim_space other)) _ _ (λ _. h)
      (λ _.
        ap (find_task (has_id id)) (
          complete_after-table (trim_space other) (
            apply_update s (trim_space other) (end_task e (or_now completed now) s.task_retention)
              db))
        ∙ apply_update-find s id (trim_space other)
            (end_task e (or_now completed now) s.task_retention) db t (λ u. refl) over h)

insert_task-find :
    (s : Service) (id : Text) (u : Task) (db : Db) (t : Task)
    → find_task (has_id id) s.table ≡ some t
    → find_task (has_id id) (insert_task s u db).0.table ≡ some t
unfolding insert_task
insert_task-find s id u runs t h = ground (arith, find-append (has_id id) s.table (u ∷ []) t h)
insert_task-find s id u unavailable t h = h
insert_task-find s id u (fails e) t h = h

prune-IsKept :
    (s : Service) (id : Text) (now : ℕ) (db : Db) (t : Task)
    → find_task (has_id id) s.table ≡ some t
    → IsKept id t now (prune_expired_tasks s now db).table
unfolding prune_expired_tasks
prune-IsKept s id now runs t h = find-delete_expired id now s.table t h
prune-IsKept s id now unavailable t h = inl h
prune-IsKept s id now (fails e) t h = inl h

prune_inline-IsKept :
    (s : Service) (id : Text) (now : ℕ) (db : Db) (t : Task)
    → find_task (has_id id) s.table ≡ some t
    → IsKept id t now (maybe_prune_expired_tasks s now db).table
unfolding maybe_prune_expired_tasks
prune_inline-IsKept s id now db t h =
    if_cases (λ (r : Service). IsKept id t now r.table)
      (ltb 0 s.last_inline_task_prune && ltb now (s.last_inline_task_prune + 15000)) _ _
      (λ _. inl h) (λ _. prune-IsKept (record s { last_inline_task_prune = now }) id now db t h)

find-fail_open :
    (id : Text) (now retention : ℕ) (ts : List Task) (t : Task)
    → is_open t.status ≡ false
    → find_task (has_id id) ts ≡ some t
    → find_task (has_id id) (fail_open now retention ts) ≡ some t
unfolding find_task fail_open
find-fail_open id now retention [] t over h = absurd (cc h)
find-fail_open id now retention (u ∷ ts) t over h =
    ground (arith, find-fail_open id now retention ts t over)

restart-find :
    (s : Service) (id : Text) (now : ℕ) (db : Db) (t : Task)
    → is_open t.status ≡ false
    → find_task (has_id id) s.table ≡ some t
    → find_task (has_id id) (restart_console s now db).table ≡ some t
unfolding restart_console
restart-find s id now runs t over h = find-fail_open id now s.task_retention s.table t over h
restart-find s id now unavailable t over h = h
restart-find s id now (fails e) t over h = h

Step-IsKept :
    {s u : Service} (st : Step s u) (id : Text) (t : Task)
    → is_open t.status ≡ false
    → find_task (has_id id) s.table ≡ some t
    → IsKept id t (pruned_at st) u.table
unfolding mark_task_dispatched mark_task_running set_task_runtime
Step-IsKept {s} (insert u db) id t over h = inl (insert_task-find s id u db t h)
Step-IsKept {s} (dispatch other now db) id t over h = inl (
    if_cases (λ (r : Service × Option Error). find_task (has_id id) r.0.table ≡ some t)
      (is_empty (trim_space other)) _ _ (λ _. h)
      (λ _.
        apply_update-find s id other
          (λ v. record v { status = TaskStatus.dispatched; updated_at = now }) db t (λ v. refl) over
          h))
Step-IsKept {s} (run other c now db) id t over h = inl (
    if_cases (λ (r : Service × Option Error). find_task (has_id id) r.0.table ≡ some t)
      (is_empty (trim_space other)) _ _ (λ _. h)
      (λ _.
        apply_update-find s id other
          (λ v. record v {
            status = TaskStatus.running;
            command_id = trim_space c;
            updated_at = now;
          })
          db t (λ v. refl) over h))
Step-IsKept {s} (finish other e completed now db) id t over h =
    inl (finish_task-find s id other e completed now db t over h)
Step-IsKept {s} (start other) id t over h = inl h
Step-IsKept {s} (prune now db) id t over h = prune-IsKept s id now db t h
Step-IsKept {s} (prune_inline now db) id t over h = prune_inline-IsKept s id now db t h
Step-IsKept {s} (restart now db) id t over h = inl (restart-find s id now db t over h)

Reach-IsKept :
    {s u : Service} (r : Reach s u) (id : Text) (t : Task)
    → is_open t.status ≡ false
    → find_task (has_id id) s.table ≡ some t
    → IsKept id t (last_prune r) u.table
Reach-IsKept here id t over h = inl h
Reach-IsKept (next r st) id t over h = elim (Reach-IsKept r id t over h) [
  | inl found ↦ elim (Step-IsKept st id t over found) [
    | inl k ↦ inl k
    | inr (p, q) ↦ inr (p, omega (arith, q))
  ]
  | inr (p, q) ↦ inr (p, omega (arith, q))
]

-- Once a task has ended, nothing that runs later changes anything of it: whatever statements are
-- sent, in whatever order, and also if the console is started anew, a look at its id that the
-- database answers finds the very same row, or the task has expired and a pruning at or after that
-- instant has run.
pub terminal_task_final :
    {s u : Service} (r : Reach s u) (id : Text) (t : Task)
    → get_task_by_id s id runs ≡ some t
    → is_task_terminal t.status ≡ true
    → (get_task_by_id u id runs ≡ some t) ⊎ ((0 < t.expires_at) × (t.expires_at ≤ last_prune r))
unfolding get_task_by_id
terminal_task_final r id t h over = Reach-IsKept r id t (terminal-closed t.status over) h
