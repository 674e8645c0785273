-- ===== src/Session/Examples.antt =====
-- console/internal/grpcserver/session_runtime.go: the theorems at a small concrete session.
use onlyboxes.Prelude.{
  true, ◌↔◌, Distinct, length, ◌≡◌, refl, false, Option, none, some, List, [], ◌∷◌, Text, codes,
  lookup, get_elem?, trim_space, trim_left, trim_right, is_space, text_eq, is_empty, pos,
}
use onlyboxes.Session.Defs.{
  err, CapabilityDeclaration, ActiveSession, normalize_capability, try_acquire_capability,
  closed_with, waiting, session_closed,
}
use onlyboxes.Session.Pending.{
  CommandResult, register_pending, resolve_pending, unregister_pending, outcome_of, close,
}
use onlyboxes.Session.Slots.{System, HasSlots, acquired}
use onlyboxes.Session.Steps.{here, next, acquire, new_system, Reach-HasSlots}
use onlyboxes.Session.Results.{resolve_pending_once}
use onlyboxes.Session.Closing.{AreTold, close_delivers}
use onlyboxes.Session.Recovery.{missing, Recovery, RecoveryResult, matches_recovery_results}
use onlyboxes.Session.Report.{AreExpected, sessions_of, accepted_report}

abbrev echo : Text
echo = codes "echo"

abbrev declared : List CapabilityDeclaration
declared = (record { name = codes "echo"; declared_max_inflight = pos 1 }) ∷ []

abbrev grabbed : System
grabbed =
    acquired (new_system declared).held (normalize_capability echo)
      (try_acquire_capability (new_system declared).session echo)

Reach-HasSlots_example : HasSlots grabbed
Reach-HasSlots_example = Reach-HasSlots declared (next here (acquire echo))

abbrev session : ActiveSession
session = record {
  capabilities = (echo, record { max_inflight = 1; inflight = 1 }) ∷ [];
  pending = (codes "c1", record { result_ch = 0; capability = echo }) ∷ [];
  results = waiting ∷ [];
  done = false;
  closed_err = none;
}

abbrev answer : CommandResult
answer = record {
  command_id = codes "c1";
  error = none;
  payload_json = codes "{}";
  completed_unix_ms = pos 7;
}

abbrev no_echo : Text → Option Text
no_echo t = none

found_c1 :
    lookup (trim_space (codes "c1")) session.pending
    ≡ some (record { result_ch = 0; capability = echo })
unfolding lookup trim_space trim_left trim_right is_space text_eq
found_c1 = refl

named_c1 : is_empty (trim_space (codes "c1")) ≡ false
unfolding trim_space trim_left trim_right is_space
named_c1 = refl

resolve_pending_once_example :
    (get_elem? (resolve_pending no_echo 3 session answer).results 0
      ≡ some (closed_with (some (outcome_of no_echo 3 answer none))))
    × (lookup (trim_space (codes "c1")) (resolve_pending no_echo 3 session answer).pending ≡ none)
    × (resolve_pending no_echo 4 (resolve_pending no_echo 3 session answer) answer
        ≡ resolve_pending no_echo 3 session answer)
    × (unregister_pending (resolve_pending no_echo 3 session answer) (codes "c1")
        ≡ resolve_pending no_echo 3 session answer)
resolve_pending_once_example =
    resolve_pending_once no_echo 3 4 session answer answer
      (record { result_ch = 0; capability = echo }) named_c1 found_c1 refl refl

found_raw : lookup (codes "c1") session.pending ≡ some (record { result_ch = 0; capability = echo })
unfolding lookup text_eq
found_raw = refl

close_delivers_example :
    ((close session none).done ≡ true)
    × ((close session none).pending ≡ [])
    × (register_pending (close session none) (codes "c1") echo
        ≡ (close session none, err (session_closed (codes "session closed"))))
    × (close (close session none) none ≡ close session none)
    × AreTold session
        (close session none)
        (session_closed (codes "session closed"))
        (lookup (codes "c1") session.pending)
close_delivers_example =
    close_delivers session none none (codes "c1") (codes "c1") echo refl named_c1

abbrev recovery : Recovery
recovery = record {
  recovery_required = true;
  recovery_complete = false;
  recovery_candidates = [];
  recovery_results = (codes "s1", missing) ∷ [];
}

abbrev reported : RecoveryResult
reported = record { session_id = codes "s1"; status = missing }

accepted_report_example : (matches_recovery_results recovery (reported ∷ []) ≡ true) ↔ (
    (length (reported ∷ []) ≡ 1)
    × AreExpected recovery.recovery_results (reported ∷ [])
    × Distinct (sessions_of (reported ∷ [])))
accepted_report_example = accepted_report recovery (reported ∷ [])
