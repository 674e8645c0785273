-- ===== src/Terminal/Examples.antt =====
-- worker/worker-docker/internal/runner/terminal_exec.go: the theorems at small concrete managers.
use onlyboxes.Prelude.{
  ◌<◌, ◌⊎◌, ℕ, ◌≡◌, ◌+◌, ◌*◌, ◌≤◌, refl, true, false, Option, none, some, [], Text, codes, arith,
  lookup, insert, trim_space, trim_left, trim_right, is_space, text_eq, count, pos, negsuc, max,
  ◌↔◌,
}
use onlyboxes.Terminal.Defs.{
  schedule_session_lease_timer, terminal_session_resource_name, Session, Config, Manager, ok, err,
  invalid_payload, new_terminal_session_manager, current, put, resolve_lease_duration,
}
use onlyboxes.Terminal.Claim.{
  new_session, new_session_locked, claim_found, claim_session, release_session,
  release_and_destroy_session,
}
use onlyboxes.Terminal.Swept.{cleanup_expired_sessions-swept}
use onlyboxes.Terminal.Lease.{
  cleanup_expired_sessions, expire_entries, renew_lease, expire_session_lease, expire_entry,
}
use onlyboxes.Terminal.Execute.{World}
use onlyboxes.Terminal.Invariant.{Inv, reserved}
use onlyboxes.Terminal.Steps.{Reach, here, next, claim, release, Reach-Inv}
use onlyboxes.Terminal.Capacity.{recoveries, Reach-capacity}
use onlyboxes.Terminal.Leases.{resolve_lease_duration_iff, renew_lease-live, renew_lease-err}
use onlyboxes.Terminal.Hazards.{release_of_stale_command}

abbrev same_text : Text → Text
same_text t = t

abbrev an_address : Text → Option Text
an_address t = some t

abbrev config : Config
config = record {
  lease_min_sec = pos 60;
  lease_max_sec = pos 1800;
  lease_default_sec = negsuc 4;
  output_limit_bytes = pos 0;
  session_max_inflight = pos 2;
  max_active_sessions = pos 2;
  preserve_on_close = false;
}

abbrev start : Manager
start = new_terminal_session_manager config

abbrev id_a : Text
id_a = codes "a"

abbrev started : Manager
started = (claim_session same_text start id_a 90000 true (codes "u")).0

fresh_uuid : lookup (codes "u") start.sessions ≡ none
unfolding new_terminal_session_manager lookup
fresh_uuid = refl

abbrev run : Reach same_text an_address start (release_session started id_a).0
run = next (next here (claim id_a 90000 true (codes "u") fresh_uuid)) (release id_a)

Reach-Inv_example : Inv (release_session started id_a).0
Reach-Inv_example = Reach-Inv same_text an_address config (release_session started id_a).0 run

Reach-capacity_example :
    count reserved (release_session started id_a).0.heap ≤ 2 + recoveries same_text an_address run
Reach-capacity_example = Reach-capacity same_text an_address config 1 run refl

resolve_lease_duration_iff_example : (resolve_lease_duration start (some (pos 90)) ≡ ok 90000) ↔ (
    (n : ℕ) × (pos 90 ≡ pos n)
    × (start.lease_min_sec ≤ n)
    × (n ≤ start.lease_max_sec)
    × (90000 ≡ n * 1000))
resolve_lease_duration_iff_example = resolve_lease_duration_iff start (pos 90) 90000

abbrev a_session : Session
a_session = record {
  session_id = id_a;
  container_name = codes "onlyboxes-terminal-v1-a";
  container_ip = [];
  lease_expires_at = 90000;
  lease_timer = some 90000;
  proxy_cancelled = false;
  inflight = 1;
  destroying = false;
  ready = false;
  init_err = none;
  capacity_reserved = true;
  retired = false;
}

found_a : current started id_a ≡ some (0, a_session)
unfolding current lookup claim_session claim_found new_session_locked new_session insert
    schedule_session_lease_timer new_terminal_session_manager terminal_session_resource_name
    trim_space trim_left trim_right is_space text_eq
found_a = refl

started-Inv : Inv started
started-Inv =
    Reach-Inv same_text an_address config started
      (next here (claim id_a 90000 true (codes "u") fresh_uuid))

opened : started.closed ≡ false
unfolding claim_session claim_found new_session_locked new_terminal_session_manager current lookup
opened = refl

granted : resolve_lease_duration started (some (pos 90)) ≡ ok 90000
unfolding resolve_lease_duration claim_session claim_found new_session_locked
    new_terminal_session_manager current lookup
granted = refl

found_trimmed : current started (trim_space id_a) ≡ some (0, a_session)
unfolding trim_space trim_left trim_right is_space
found_trimmed = found_a

renew_lease-live_example :
    (t : Session) × (renew_lease started id_a (pos 90) 5000
      ≡ (put started 0 t, ok (max 90000 (5000 + 90000))))
    × (t.lease_expires_at ≡ max 90000 (5000 + 90000))
    × (t.lease_timer ≡ some (max 90000 (5000 + 90000)))
    × (t.inflight ≡ 1)
    × (t.destroying ≡ false)
renew_lease-live_example =
    renew_lease-live started id_a (pos 90) 5000 90000 0 a_session started-Inv opened
      (unfold trim_space trim_left trim_right is_space in refl) granted found_trimmed refl
      (omega arith)

refused : (renew_lease started id_a (pos 3) 5000).1 ≡ err invalid_payload
unfolding renew_lease trim_space trim_left trim_right is_space text_eq resolve_lease_duration
    claim_session claim_found new_session_locked new_terminal_session_manager current lookup
refused = refl

renew_lease-err_example : (renew_lease started id_a (pos 3) 5000).0 ≡ started
renew_lease-err_example = renew_lease-err started id_a (pos 3) 5000 refused

abbrev dying_a : Session
dying_a = record a_session { destroying = true; inflight = 2; ready = true; lease_timer = none }

abbrev dying : Manager
dying = put started 0 dying_a

abbrev world : World
world = record {
  now = 5000;
  uuid = codes "u";
  gap = λ i m. m;
  container = ok (codes "172.17.0.2");
  wait = none;
  exec = ok (record { stdout = []; stderr = []; exit_code = 0 });
  no_such_container = λ t. false;
}

abbrev roomy : Manager
roomy = record started { max_active_sessions = 2 }

found_roomy : current roomy id_a ≡ some (0, a_session)
unfolding current
found_roomy = found_a

release_of_stale_command_example :
    (q : ℕ) × (t : Session) × ((claim_session same_text
        (expire_session_lease roomy 0 a_session 95000).0
        id_a
        200000
        true
        (codes "v")).1
      ≡ ok (q, true))
    × (current
          (claim_session same_text
            (expire_session_lease roomy 0 a_session 95000).0
            id_a
            200000
            true
            (codes "v")).0
          id_a
        ≡ some (q, t))
    × (t.inflight ≡ 1)
    × ((release_session
          (claim_session same_text
            (expire_session_lease roomy 0 a_session 95000).0
            id_a
            200000
            true
            (codes "v")).0
          id_a).0
        ≡ put
            (claim_session same_text
              (expire_session_lease roomy 0 a_session 95000).0
              id_a
              200000
              true
              (codes "v")).0
            q
            (record t { inflight = 0 }))
    × ((release_and_destroy_session
          (claim_session same_text
            (expire_session_lease roomy 0 a_session 95000).0
            id_a
            200000
            true
            (codes "v")).0
          id_a).1
        ≡ some q)
unfolding claim_session new_terminal_session_manager claim_found current lookup new_session_locked
release_of_stale_command_example =
    release_of_stale_command same_text roomy 0 a_session 95000 200000 (codes "v") opened refl
      (unfold trim_space trim_left trim_right is_space in refl) refl found_roomy refl (omega arith)
      (omega arith)

abbrev swept : Manager
swept = (cleanup_expired_sessions started 5000).0

found_swept : current swept id_a ≡ some (0, a_session)
unfolding cleanup_expired_sessions expire_entries expire_entry current lookup claim_session
    claim_found new_session_locked new_session insert schedule_session_lease_timer
    new_terminal_session_manager terminal_session_resource_name trim_space trim_left trim_right
    is_space text_eq
found_swept = refl

cleanup_expired_sessions-swept_example : (false ≡ true) ⊎ (5000 < 90000)
cleanup_expired_sessions-swept_example =
    cleanup_expired_sessions-swept started 5000 id_a 0 a_session found_swept
