-- ===== src/Task/Settled.antt =====
-- console/internal/grpcserver/task.go: the row of a task when `executeTask` returns.
use onlyboxes.Prelude.{
  ℕ, ◌+◌, ◌≡◌, refl, sym, ap, subst, ◌∙◌, true, false, Option, none, some, List, [], ◌∷◌, Text,
  codes, arith, trim_space, is_empty,
}
use onlyboxes.OwnerScope.Payloads.{Capability, restore_task_result_owner_scope}
use onlyboxes.Task.Defs.{
  TaskStatus, Error, task_transition_not_applied, Db, runs, Task, Service, is_task_terminal,
  is_open, update_open, rows_open,
}
use onlyboxes.Task.Transitions.{
  Ending, apply_update, end_task, or_now, finish_task, complete_after, complete_task_runtime,
  mark_task_dispatched, mark_task_running,
}
use onlyboxes.Task.Finish.{
  Failure, ending_of_failure, finish_task_with_error, or_critical, fail_task_on_persistence_error,
}
use onlyboxes.Task.Execute.{
  World, Outcome, Answer, fails, returns, settle, result_payload, ending_of_result, finish_outcome,
  finish_answer, marked_running, dispatch_command, marked_dispatched, execute_task, cancel_runtime,
}

-- No row of the task is open.
abbrev pub IsSettled : Text → Service → Type 0
IsSettled task_id s = rows_open task_id s.table ≡ 0

terminal-closed : (st : TaskStatus) → is_task_terminal st ≡ true → is_open st ≡ false
terminal-closed TaskStatus.queued h = absurd (cc h)
terminal-closed TaskStatus.dispatched h = absurd (cc h)
terminal-closed TaskStatus.running h = absurd (cc h)
terminal-closed TaskStatus.succeeded h = refl
terminal-closed TaskStatus.failed h = refl
terminal-closed TaskStatus.timeout h = refl
terminal-closed TaskStatus.canceled h = refl

rows_open-end :
    (task_id : Text) (e : Ending) (at retention : ℕ) (ts : List Task)
    → is_task_terminal e.status ≡ true
    → rows_open task_id (update_open task_id (end_task e at retention) ts) ≡ 0
unfolding update_open rows_open
rows_open-end task_id e at retention [] h = refl
rows_open-end task_id e at retention (t ∷ ts) h =
    ground (arith, rows_open-end task_id e at retention ts h, terminal-closed e.status h)

-- A transition that is refused while the database works leaves no open row, for there was none.
apply_update-refused :
    (s : Service) (task_id : Text) (change : Task → Task) (e : Error)
    → (apply_update s task_id change runs).1 ≡ some e
    → IsSettled task_id (apply_update s task_id change runs).0
unfolding apply_update
apply_update-refused s task_id change e h = ground arith

complete_same : (s : Service) (task_id : Text) → (complete_task_runtime s task_id).table ≡ s.table
unfolding complete_task_runtime
complete_same s task_id = ground arith

apply_end-IsSettled :
    (s : Service) (task_id : Text) (e : Ending) (at : ℕ)
    → is_task_terminal e.status ≡ true
    → IsSettled task_id (apply_update s task_id (end_task e at s.task_retention) runs).0
unfolding apply_update
apply_end-IsSettled s task_id e at h =
    ground (arith, rows_open-end task_id e at s.task_retention s.table h)

complete_after-IsSettled :
    (task_id : Text) (r : Service × Option Error)
    → IsSettled task_id r.0
    → IsSettled task_id (complete_after task_id r).0
complete_after-IsSettled task_id (s, e) h = ap (rows_open task_id) (complete_same s task_id) ∙ h

ending_of_result-IsTerminal :
    (r : Option Text) → is_task_terminal (ending_of_result r).status ≡ true
ending_of_result-IsTerminal none = refl
ending_of_result-IsTerminal (some t) = refl

module _ (task_id : Text) (trimmed : trim_space task_id ≡ task_id)
    (named : is_empty task_id ≡ false) where
  pub finish_task-IsSettled :
      (s : Service) (e : Ending) (completed : Option ℕ) (now : ℕ)
      → is_task_terminal e.status ≡ true
      → IsSettled task_id (finish_task s task_id e completed now runs).0
  unfolding finish_task
  finish_task-IsSettled s e completed now h =
      rw (trimmed, named)
        (complete_after-IsSettled task_id
          (apply_update s task_id (end_task e (or_now completed now) s.task_retention) runs)
          (apply_end-IsSettled s task_id e (or_now completed now) h))

  ending_of_failure-IsTerminal :
      (f : Failure) → is_task_terminal (ending_of_failure f).status ≡ true
  unfolding ending_of_failure
  ending_of_failure-IsTerminal f = ground arith

  finish_with_error-IsSettled :
      (s : Service) (f : Failure) (now : ℕ)
      → IsSettled task_id (finish_task_with_error s task_id f now runs).0
  unfolding finish_task_with_error
  finish_with_error-IsSettled s f now =
      finish_task-IsSettled s (ending_of_failure f) (some now) now (ending_of_failure-IsTerminal f)

  fail_task-IsSettled :
      (s : Service) (message : Text) (now : ℕ)
      → IsSettled task_id (fail_task_on_persistence_error s task_id message now runs).0
  unfolding fail_task_on_persistence_error
  fail_task-IsSettled s message now =
      or_critical-IsSettled _ (finish_task-IsSettled s _ (some now) now refl)
    where
      or_critical-IsSettled :
          (r : Service × Option Error) → IsSettled task_id r.0 → IsSettled task_id (or_critical r).0
      or_critical-IsSettled (t, none) h = h
      or_critical-IsSettled (t, some e) h = h

  settle-IsSettled :
      (w : World) (i : ℕ) (r : Service × Option Error)
      → w.db i ≡ runs
      → IsSettled task_id r.0
      → IsSettled task_id (settle w i task_id r)
  unfolding settle
  settle-IsSettled w i (s, none) db h = h
  settle-IsSettled w i (s, some task_transition_not_applied) db h = h
  settle-IsSettled w i (s, some e) db h =
      subst
        (λ (d : Db).
          IsSettled task_id
            (fail_task_on_persistence_error (w.gap i s) task_id
              (codes "failed to persist task state") w.now d).0)
        (sym db) (fail_task-IsSettled (w.gap i s) (codes "failed to persist task state") w.now)

  finish_outcome-IsSettled :
      (w : World) (s : Service) (owner : Text) (c : Capability) (o : Outcome) (f : Option Failure)
      → w.db 5 ≡ runs
      → w.db 6 ≡ runs
      → IsSettled task_id (finish_outcome w s task_id owner c o f)
  unfolding finish_outcome
  finish_outcome-IsSettled w s owner c o (some f) d5 d6 =
      settle-IsSettled w 6 (finish_task_with_error s task_id f w.now (w.db 5)) d6 (
        subst (λ (d : Db). IsSettled task_id (finish_task_with_error s task_id f w.now d).0)
          (sym d5) (finish_with_error-IsSettled s f w.now))
  finish_outcome-IsSettled w s owner c o none d5 d6 =
      let e =
        ending_of_result (restore_task_result_owner_scope w.codec owner c (result_payload w o)) in
      settle-IsSettled w 6 (finish_task s task_id e o.completed_at w.now (w.db 5)) d6 (
        subst (λ (d : Db). IsSettled task_id (finish_task s task_id e o.completed_at w.now d).0)
          (sym d5)
          (finish_task-IsSettled s e o.completed_at w.now (
            ending_of_result-IsTerminal
              (restore_task_result_owner_scope w.codec owner c (result_payload w o)))))

  finish_answer-IsSettled :
      (w : World) (s : Service) (owner : Text) (c : Capability) (a : Answer)
      → w.db 5 ≡ runs
      → w.db 6 ≡ runs
      → IsSettled task_id (finish_answer w s task_id owner c a)
  unfolding finish_answer
  finish_answer-IsSettled w s owner c (fails f) d5 d6 =
      settle-IsSettled w 6 (finish_task_with_error s task_id f w.now (w.db 5)) d6 (
        subst (λ (d : Db). IsSettled task_id (finish_task_with_error s task_id f w.now d).0)
          (sym d5) (finish_with_error-IsSettled s f w.now))
  finish_answer-IsSettled w s owner c (returns o) d5 d6 =
      finish_outcome-IsSettled w s owner c o o.err d5 d6

  cancel_runtime-IsSettled :
      (s : Service) → IsSettled task_id s → IsSettled task_id (cancel_runtime s task_id)
  unfolding cancel_runtime
  cancel_runtime-IsSettled s h = ground arith

  marked_running-IsSettled :
      (w : World) (rest : Service) (r : Service × Option Error)
      → ((i : ℕ) → w.db i ≡ runs)
      → ((i : ℕ) (t : Service) → IsSettled task_id t → IsSettled task_id (w.gap i t))
      → IsSettled task_id rest
      → ((e : Error) → r.1 ≡ some e → IsSettled task_id r.0)
      → IsSettled task_id (marked_running w task_id rest r)
  unfolding marked_running
  marked_running-IsSettled w rest (s, none) db calm done refused = done
  marked_running-IsSettled w rest (s, some e) db calm done refused =
      settle-IsSettled w 4 (w.gap 3 (cancel_runtime s task_id), some e) (db 4)
        (calm 3 (cancel_runtime s task_id) (cancel_runtime-IsSettled s (refused e refl)))

  mark_running-refused :
      (s : Service) (command_id : Text) (now : ℕ) (d : Db) (e : Error)
      → d ≡ runs
      → (mark_task_running s task_id command_id now d).1 ≡ some e
      → IsSettled task_id (mark_task_running s task_id command_id now d).0
  unfolding mark_task_running apply_update
  mark_running-refused s command_id now d e db h = ground (arith, trimmed)

  mark_dispatched-refused :
      (s : Service) (now : ℕ) (d : Db) (e : Error)
      → d ≡ runs
      → (mark_task_dispatched s task_id now d).1 ≡ some e
      → IsSettled task_id (mark_task_dispatched s task_id now d).0
  unfolding mark_task_dispatched apply_update
  mark_dispatched-refused s now d e db h = ground (arith, trimmed)

  dispatch_command-IsSettled :
      (w : World) (k : ℕ) (s : Service) (owner : Text) (c : Capability) (ids : List Text)
      → ((i : ℕ) → w.db i ≡ runs)
      → ((i : ℕ) (t : Service) → IsSettled task_id t → IsSettled task_id (w.gap i t))
      → IsSettled task_id (dispatch_command w k s task_id owner c ids)
  unfolding dispatch_command
  dispatch_command-IsSettled w k s owner c [] db calm =
      finish_answer-IsSettled w s owner c w.answer (db 5) (db 6)
  dispatch_command-IsSettled w k s owner c (id ∷ ids) db calm =
      let marked = mark_task_running s task_id id w.now (w.db (10 + k)) in
      marked_running-IsSettled w _ marked db calm
        (dispatch_command-IsSettled w (k + 1) (w.gap (10 + k) marked.0) owner c ids db calm)
        (λ e h. mark_running-refused s id w.now (w.db (10 + k)) e (db (10 + k)) h)

  marked_dispatched-IsSettled :
      (w : World) (owner : Text) (c : Capability) (r : Service × Option Error)
      → ((i : ℕ) → w.db i ≡ runs)
      → ((i : ℕ) (t : Service) → IsSettled task_id t → IsSettled task_id (w.gap i t))
      → ((e : Error) → r.1 ≡ some e → IsSettled task_id r.0)
      → IsSettled task_id (marked_dispatched w task_id owner c r)
  unfolding marked_dispatched
  marked_dispatched-IsSettled w owner c (s, none) db calm refused =
      dispatch_command-IsSettled w 0 (w.gap 1 s) owner c w.on_dispatched db calm
  marked_dispatched-IsSettled w owner c (s, some e) db calm refused =
      settle-IsSettled w 1 (s, some e) (db 1) (refused e refl)

-- While the database works, a task that is carried through ends with no open row: whatever the
-- dispatch answers, however often the command was sent, and whatever other goroutines do in the
-- pauses, as long as they do not reopen a task that has ended.
pub execute_task-IsSettled :
    (w : World) (s : Service) (task_id owner : Text) (c : Capability)
    → trim_space task_id ≡ task_id
    → is_empty task_id ≡ false
    → ((i : ℕ) → w.db i ≡ runs)
    → ((i : ℕ) (t : Service) → IsSettled task_id t → IsSettled task_id (w.gap i t))
    → IsSettled task_id (execute_task w s task_id owner c)
unfolding execute_task
execute_task-IsSettled w s task_id owner c trimmed named db calm =
    marked_dispatched-IsSettled task_id trimmed named w owner c
      (mark_task_dispatched s task_id w.now (w.db 0)) db calm
      (λ e h. mark_dispatched-refused task_id trimmed named s w.now (w.db 0) e (db 0) h)
