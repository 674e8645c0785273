-- ===== src/Task/Reservations.antt =====
-- console/internal/grpcserver/task.go: the limits and the reservation of a request.
use onlyboxes.Prelude.{
  ℕ, zero, suc, ◌+◌, ◌≡◌, ◌≤◌, ◌<◌, ◌≢◌, ◌⊎◌, refl, ap, ◌∙◌, false, ◌&&◌, Option, none, some, Text,
  arith, is_empty, if◌then◌else◌, if_cases, lookup, lookup-remove_self, trim_space, ltb, ℤ, pos,
  negsuc, positive_or,
}
use onlyboxes.OwnerScope.Ids.{task_request_scope_key}
use onlyboxes.Task.Defs.{
  TaskMode, sync, async, auto, Error, Result, ok, err, Db, runs, unavailable, fails, Task, Service,
  get_task_by_id, get_task_by_owner_and_request,
}
use onlyboxes.Task.Transitions.{set_task_runtime, maybe_prune_expired_tasks, prune_expired_tasks}
use onlyboxes.Task.Submit.{
  World, Prepared, Submitted, Inserted, submit_limits, submit_task, submit_pruned, submit_reserved,
  create_task, create_with_id, start_task, start_inserted, finished_now, resolve_submit_task_result,
  resolve_found, resolve_existing, after_wait, snapshot_found, unreserve, reserve, returning,
  insert_task, needs_worker, queued_task,
}

positive_or-bounds : (v : ℤ) (d : ℕ) → 0 < d → 0 < positive_or v d
positive_or-bounds (pos (suc n)) d h = omega arith
positive_or-bounds (pos zero) d h = h
positive_or-bounds (negsuc n) d h = h

-- A request that passes has a timeout of at most ten minutes and a wait of at most one, neither of
-- them zero, whatever numbers it came with; and in the mode `auto` it does not wait past its timeout.
pub submit_limits_bounds :
    (mode : TaskMode) (req_timeout req_wait : ℤ) (timeout wait : ℕ)
    → submit_limits mode req_timeout req_wait ≡ ok (timeout, wait)
    → (0 < timeout)
      × (timeout ≤ 600000)
      × (0 < wait)
      × (wait ≤ 60000)
      × ((mode ≢ auto) ⊎ (wait ≤ timeout))
unfolding submit_limits
submit_limits_bounds sync t w timeout wait h =
    ground (arith, positive_or-bounds t 60000, positive_or-bounds w 1500)
submit_limits_bounds async t w timeout wait h =
    ground (arith, positive_or-bounds t 60000, positive_or-bounds w 1500)
submit_limits_bounds auto t w timeout wait h =
    ground (arith, positive_or-bounds t 60000, positive_or-bounds w 1500)

-- The key of the request is free.
abbrev pub IsFree : Prepared → Service → Type 0
IsFree p s =
    lookup (task_request_scope_key p.owner_id p.request_id) s.task_request_reservations ≡ none

prune-reservations :
    (s : Service) (now : ℕ) (db : Db)
    → (prune_expired_tasks s now db).task_request_reservations ≡ s.task_request_reservations
unfolding prune_expired_tasks
prune-reservations s now runs = refl
prune-reservations s now unavailable = refl
prune-reservations s now (fails e) = refl

prune_inline-reservations :
    (s : Service) (now : ℕ) (db : Db)
    → (maybe_prune_expired_tasks s now db).task_request_reservations ≡ s.task_request_reservations
unfolding maybe_prune_expired_tasks
prune_inline-reservations s now db =
    if_cases (λ (r : Service). r.task_request_reservations ≡ s.task_request_reservations)
      (ltb 0 s.last_inline_task_prune && ltb now (s.last_inline_task_prune + 15000)) _ _ (λ _. refl)
      (λ _. prune-reservations (record s { last_inline_task_prune = now }) now db)

module _ (w : World) (p : Prepared) (named : is_empty p.request_id ≡ false)
    (calm : (i : ℕ) (t : Service) → IsFree p t → IsFree p (w.gap i t)) where
  unreserve-IsFree : (s : Service) → IsFree p (unreserve s p)
  unfolding unreserve
  unreserve-IsFree s = rw named (
      lookup-remove_self (task_request_scope_key p.owner_id p.request_id)
        s.task_request_reservations)

  after_wait-IsFree :
      (s : Service) (id : Text) (db : Db) (e : Option Error)
      → IsFree p s
      → IsFree p (after_wait s id db e).0
  after_wait-IsFree s id db none f = f
  after_wait-IsFree s id db (some e) f = f

  resolve_found-IsFree :
      (s : Service) (id : Text) (m : TaskMode) (r : Result Submitted)
      → IsFree p s
      → IsFree p (resolve_found w s id m r).0
  unfolding resolve_found
  resolve_found-IsFree s id m (err e) f = f
  resolve_found-IsFree s id async (ok r) f = f
  resolve_found-IsFree s id sync (ok r) f =
      if_cases (λ (x : Service × Result Submitted). IsFree p x.0) r.completed _ _ (λ _. f)
        (λ _. after_wait-IsFree (w.gap 9 s) id (w.db 5) w.wait (calm 9 s f))
  resolve_found-IsFree s id auto (ok r) f =
      if_cases (λ (x : Service × Result Submitted). IsFree p x.0) r.completed _ _ (λ _. f)
        (λ _. after_wait-IsFree (w.gap 9 s) id (w.db 5) w.wait (calm 9 s f))

  resolve-IsFree :
      (s : Service) (id : Text) (m : TaskMode)
      → IsFree p s
      → IsFree p (resolve_submit_task_result w s id m).0
  unfolding resolve_submit_task_result
  resolve-IsFree s id m f =
      if_cases (λ (x : Service × Result Submitted). IsFree p x.0) (is_empty (trim_space id)) _ _
        (λ _. f)
        (λ _. resolve_found-IsFree s id m (snapshot_found (get_task_by_id s id (w.db 4))) f)

  finished_now-IsFree :
      (id : Text) (db : Db) (x : Service × Option Error) → IsFree p (finished_now p id db x).0
  finished_now-IsFree id db (s, some e) = unreserve-IsFree s
  finished_now-IsFree id db (s, none) = unreserve-IsFree s

  returning-IsFree : (x : Service × Result Submitted) → IsFree p (returning p x).0
  returning-IsFree (s, r) = unreserve-IsFree s

  start_inserted-IsFree :
      (s : Service) (id : Text) (r : Option Text) → IsFree p (start_inserted w s p id r).0
  unfolding start_inserted
  start_inserted-IsFree s id (some r) = finished_now-IsFree id (w.db 6) _
  start_inserted-IsFree s id none =
      resolve-IsFree (w.gap 8 (unreserve (set_task_runtime s id) p)) id p.mode
        (calm 8 (unreserve (set_task_runtime s id) p) (unreserve-IsFree (set_task_runtime s id)))

  start_task-IsFree : (id : Text) (x : Service × Inserted) → IsFree p (start_task w p id x).0
  unfolding start_task
  start_task-IsFree id (s, Inserted.inserted) = start_inserted-IsFree s id p.immediate_result
  start_task-IsFree id (s, Inserted.owner_request_conflict) = returning-IsFree (
      if is_empty p.request_id
      then (s, err Error.internal)
      else resolve_existing w s p Error.internal
          (get_task_by_owner_and_request s p.owner_id p.request_id (w.db 7)))
  start_task-IsFree id (s, Inserted.failed_insert) = unreserve-IsFree s

  create_with_id-IsFree : (s : Service) (id : Option Text) → IsFree p (create_with_id w s p id).0
  create_with_id-IsFree s none = unreserve-IsFree s
  create_with_id-IsFree s (some id) =
      start_task-IsFree id (insert_task s (queued_task w p id) (w.db 2))

  create_task-IsFree : (s : Service) (e : Option Error) → IsFree p (create_task w s p e).0
  unfolding create_task
  create_task-IsFree s (some e) = unreserve-IsFree s
  create_task-IsFree s none = create_with_id-IsFree s w.new_task_id

  submit_reserved-IsFree : (s : Service) (o : Option Task) → IsFree p (submit_reserved w s p o).0
  unfolding submit_reserved
  submit_reserved-IsFree s (some t) =
      returning-IsFree (resolve_submit_task_result w s t.task_id p.mode)
  submit_reserved-IsFree s none = create_task-IsFree s (needs_worker p w.availability)

  submit_pruned-IsFree : (s : Service) → IsFree p s → IsFree p (submit_pruned w s p).0
  unfolding submit_pruned
  submit_pruned-IsFree s f =
      rw (named, f)
        (submit_reserved-IsFree (reserve s p)
          (get_task_by_owner_and_request (reserve s p) p.owner_id p.request_id (w.db 0)))

-- However the submission of a request with an id ends, with a task, a refusal or an error of the database, the key of its
-- request is free afterwards if it was before, provided that the other goroutines do not take it.
pub submit_task-IsFree :
    (w : World) (s : Service) (p : Prepared)
    → is_empty p.request_id ≡ false
    → ((i : ℕ) (t : Service) → IsFree p t → IsFree p (w.gap i t))
    → IsFree p s
    → IsFree p (submit_task w s p).0
unfolding submit_task
submit_task-IsFree w s p named calm f =
    submit_pruned-IsFree w p named calm (maybe_prune_expired_tasks s w.now (w.db 1)) (
      ap (lookup (task_request_scope_key p.owner_id p.request_id))
        (prune_inline-reservations s w.now (w.db 1))
      ∙ f)
