-- ===== src/Session/Recovery.antt =====
-- console/internal/grpcserver/session_runtime.go: the recovery handshake that a worker with
-- terminal sessions completes before it is ready.
use onlyboxes.Prelude.{
  Bool, true, false, ◌||◌, not, Option, none, some, List, [], ◌∷◌, Text, Map, codes, lookup, insert,
  length, trim_space, is_empty, ◌==◌, if◌then◌else◌, ℤ,
}
use onlyboxes.Session.Defs.{SessionCapability}

pub data Status : Type 0 where
  unspecified recovered missing invalid : Status

abbrev pub status_eq : Status → Status → Bool
status_eq unspecified unspecified = true
status_eq recovered recovered = true
status_eq missing missing = true
status_eq invalid invalid = true
status_eq _ _ = false

pub record Candidate : Type 0 where
  pub session_id : Text
  pub lease_expires_unix_ms : ℤ

pub record RecoveryResult : Type 0 where
  pub session_id : Text
  pub status : Status

pub record Recovery : Type 0 where
  pub recovery_required : Bool
  pub recovery_complete : Bool
  pub recovery_candidates : Map ℤ
  pub recovery_results : Map Status

abbrev pub task_capability_terminal_exec : Text
task_capability_terminal_exec = codes "terminalexec"

abbrev pub is_found {ℓ} : {A : Type ℓ} → Option A → Bool
is_found none = false
is_found (some a) = true

-- The part of `newActiveSessionAt` that concerns recovery.
unfoldable pub new_recovery : Map SessionCapability → Recovery
new_recovery capabilities = record {
  recovery_required = is_found (lookup task_capability_terminal_exec capabilities);
  recovery_complete = not (is_found (lookup task_capability_terminal_exec capabilities));
  recovery_candidates = [];
  recovery_results = [];
}

unfoldable pub candidate_map : List Candidate → Map ℤ → Map ℤ
candidate_map [] m = m
candidate_map (c ∷ cs) m =
    let id = trim_space c.session_id in
    candidate_map cs (if is_empty id then m else insert id c.lease_expires_unix_ms m)

unfoldable pub set_recovery_candidates : Recovery → List Candidate → Recovery
unfolding candidate_map
set_recovery_candidates r candidates = record r {
  recovery_candidates = candidate_map candidates [];
}

unfoldable pub mark_recovery_complete : Recovery → Recovery
mark_recovery_complete r = record r { recovery_complete = true }

unfoldable pub set_recovery_results : Recovery → Map Status → Recovery
set_recovery_results r results = record r { recovery_results = results }

unfoldable pub is_ready : Recovery → Bool
is_ready r = not r.recovery_required || r.recovery_complete

-- The loop of `matchesRecoveryResults`, with the ids that it has seen.
unfoldable pub matches_all : Map Status → Map (Unit {0}) → List RecoveryResult → Bool
matches_all expected seen [] = true
matches_all expected seen (r ∷ rs) =
    let id = trim_space r.session_id in
    let more = matches_all expected (insert id tt seen) rs in
    elim (lookup id expected) [
      | none ↦ false
      | some status ↦
          if not (status_eq status r.status)
          then false
          else if is_found (lookup id seen)
          then false
          else more
    ]

unfoldable pub matches_recovery_results : Recovery → List RecoveryResult → Bool
unfolding matches_all
matches_recovery_results r report =
    if length report == length r.recovery_results
    then matches_all r.recovery_results [] report
    else false
