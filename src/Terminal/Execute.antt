-- ===== src/Terminal/Execute.antt =====
-- worker/worker-docker/internal/runner/terminal_exec.go: `Execute`, from its critical sections.
--
-- Other goroutines may run between two sections: `gap i` is what they do to the manager in the
-- i-th pause. What Docker and the context answer is part of `World`.
use onlyboxes.Prelude.{
  ℕ, ◌+◌, Bool, true, false, Option, none, some, [], Text, get_elem?, trim_space, is_empty, length,
  take, leb, if◌then◌else◌, ℤ, ◌==◌,
}
use onlyboxes.Terminal.Defs.{
  Session, Manager, Result, ok, err, Error, invalid_payload, session_not_found, deadline_exceeded,
  canceled, docker_failed, resolve_lease_duration, dec, force_remove_container,
}
use onlyboxes.Terminal.Claim.{
  claim_session, session_is_active, release_session, release_and_destroy_session, cleanup_session,
  cleanup_tracked_session,
}
use onlyboxes.Terminal.Lifecycle.{publish, disown_inactive_created_session}

pub record ExecRequest : Type 0 where
  pub command : Text
  pub session_id : Text
  pub create_if_missing : Bool
  pub lease_ttl_sec : Option ℤ

pub record ExecOutput : Type 0 where
  pub stdout : Text
  pub stderr : Text
  pub exit_code : ℕ

pub record ExecRunResult : Type 0 where
  pub session_id : Text
  pub created : Bool
  pub stdout : Text
  pub stderr : Text
  pub exit_code : ℕ
  pub stdout_truncated : Bool
  pub stderr_truncated : Bool
  pub lease_expires_unix_ms : ℕ

pub record World : Type 0 where
  pub now : ℕ
  pub uuid : Text
  pub gap : ℕ → Manager → Manager
  -- `createAndStartContainer`: the address of the container.
  pub container : Result Text
  -- The wait for `ready`: the context's error if it ends first.
  pub wait : Option Error
  -- `docker exec`.
  pub exec : Result ExecOutput
  -- `isNoSuchContainerMessage`.
  pub no_such_container : Text → Bool

unfoldable pub truncate_by_bytes : Text → ℕ → Text × Bool
truncate_by_bytes value max_bytes =
    if max_bytes == 0
    then (value, false)
    else if leb (length value) max_bytes
    then (value, false)
    else (take max_bytes value, true)

-- A section on the session that the pointer leads to.
abbrev pub on_session : Manager → ℕ → (Session → Manager) → Manager
on_session m p f = elim (get_elem? m.heap p) [ none ↦ m | some s ↦ f s ]

-- The cleanup that a release owes, if it retired the session.
abbrev pub cleanup_retired : Manager → Option ℕ → Manager
cleanup_retired m none = m
cleanup_retired m (some p) = on_session m p (cleanup_tracked_session m p)

unfoldable pub released : World → ℕ → Manager × Option ℕ × Option ℕ → Manager × Option ℕ
released w i (m, lease, retired) = (cleanup_retired (w.gap i m) retired, lease)

unfoldable pub destroyed : World → ℕ → Manager × Option ℕ → Manager
destroyed w i (m, retired) = cleanup_retired (w.gap i m) retired

abbrev pub create_done : Manager → Manager
create_done m = record m { create_wg = dec m.create_wg }

unfoldable pub drop_inactive : World → ℕ → Session → Manager × Bool → Manager
drop_inactive w p s (m, true) = on_session (w.gap 3 m) p (cleanup_session (w.gap 3 m) p)
drop_inactive w p s (m, false) = force_remove_container (w.gap 3 m) s.container_name

unfoldable pub await_created : World → Manager → ℕ → Session → Result Text → Manager × Option Error
unfolding destroyed drop_inactive
await_created w m p s (err e) = (
  create_done
      (destroyed w 3 (release_and_destroy_session (w.gap 2 (publish m p s (err e))) s.session_id)),
  some e,
)
await_created w m p s (ok ip) =
    let published = w.gap 2 (publish m p s (ok ip)) in
    if session_is_active published p s then (create_done published, none) else (
      create_done (drop_inactive w p s (disown_inactive_created_session (w.gap 4 published) p s)),
      some session_not_found,
    )

unfoldable pub await_joined : World → Manager → ℕ → Session → Option Error → Manager × Option Error
unfolding released
await_joined w m p s (some e) = ((released w 3 (release_session m s.session_id)).0, some e)
await_joined w m p s none = elim s.init_err [
  | some e ↦ ((released w 3 (release_session m s.session_id)).0, some e)
  | none ↦ if session_is_active m p s then (m, none) else (m, some session_not_found)
]

-- `awaitSessionReady`: no error if the command may run.
unfoldable pub await_session_ready : World → Manager → ℕ → Bool → Session → Manager × Option Error
unfolding await_created await_joined
await_session_ready w m p true s = await_created w m p s w.container
await_session_ready w m p false s = await_joined w m p s w.wait

unfoldable pub finish_exec :
    World → Bool → Session → Result ExecOutput → Manager → Manager × Result ExecRunResult
unfolding released destroyed truncate_by_bytes
finish_exec w created s (err deadline_exceeded) m =
    (destroyed w 6 (release_and_destroy_session m s.session_id), err deadline_exceeded)
finish_exec w created s (err canceled) m =
    (destroyed w 6 (release_and_destroy_session m s.session_id), err canceled)
finish_exec w created s (err e) m =
    ((released w 6 (release_session m s.session_id)).0, err (docker_failed []))
finish_exec w created s (ok out) m =
    if w.no_such_container out.stderr
    then (destroyed w 6 (release_and_destroy_session m s.session_id), err session_not_found)
    else report (released w 6 (release_session m s.session_id))
  where
    report : Manager × Option ℕ → Manager × Result ExecRunResult
    report (n, none) = (n, err session_not_found)
    report (n, some lease) = (
      n,
      ok (record {
        session_id = s.session_id;
        created = created;
        stdout = (truncate_by_bytes out.stdout m.output_limit_bytes).0;
        stderr = (truncate_by_bytes out.stderr m.output_limit_bytes).0;
        exit_code = out.exit_code;
        stdout_truncated = (truncate_by_bytes out.stdout m.output_limit_bytes).1;
        stderr_truncated = (truncate_by_bytes out.stderr m.output_limit_bytes).1;
        lease_expires_unix_ms = lease;
      }),
    )

unfoldable pub run_ready :
    World → ℕ → Bool → Session → Manager × Option Error → Manager × Result ExecRunResult
unfolding finish_exec
run_ready w p created s (m, some e) = (m, err e)
run_ready w p created s (m, none) = finish_exec w created s w.exec (w.gap 5 m)

-- The pointer always leads somewhere; the source has no such branch.
unfoldable pub run_claimed : World → Manager × Result (ℕ × Bool) → Manager × Result ExecRunResult
unfolding await_session_ready run_ready
run_claimed w (m, err e) = (m, err e)
run_claimed w (m, ok (p, created)) = elim (get_elem? (w.gap 1 m).heap p) [
  | none ↦ (w.gap 1 m, err session_not_found)
  | some s ↦ run_ready w p created s (await_session_ready w (w.gap 1 m) p created s)
]

module _ (hash : Text → Text) where
  unfoldable pub execute_for :
      World → Manager → ExecRequest → Result ℕ → Manager × Result ExecRunResult
  unfolding run_claimed
  execute_for w m req (err e) = (m, err e)
  execute_for w m req (ok duration) = run_claimed w (
      claim_session hash m (trim_space req.session_id) (w.now + duration) req.create_if_missing
        w.uuid)

  unfoldable pub execute : World → Manager → ExecRequest → Manager × Result ExecRunResult
  unfolding execute_for
  execute w m req =
      if is_empty (trim_space req.command)
      then (m, err invalid_payload)
      else execute_for w m req (resolve_lease_duration m req.lease_ttl_sec)
