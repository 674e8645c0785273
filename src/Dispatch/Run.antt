-- ===== src/Dispatch/Run.antt =====
-- console/internal/grpcserver/service_dispatch.go: `dispatchCommand`, the loop over attempts.
use onlyboxes.Prelude.{
  ℕ, zero, suc, Bool, ◌&&◌, ◌||◌, not, Option, none, some, List, [], ◌∷◌, Text, Map, insert, length,
  is_empty, text_eq, ◌==◌, if◌then◌else◌, max,
}
use onlyboxes.Session.Defs.{CommandOutcome, normalize_capability}
use onlyboxes.Session.Recovery.{task_capability_terminal_exec}
use onlyboxes.Dispatch.Defs.{
  Service, Error, no_capability_worker, capability_required, Result, ok, err, pause,
}
use onlyboxes.Dispatch.Route.{World, node_at, pick_session_for_dispatch}
use onlyboxes.Dispatch.Attempt.{Delivery, AttemptResult, dispatch_command_attempt}

-- What comes of a dispatch: the workers that an attempt was made on, in their order, and the answer.
pub record Run : Type 0 where
  pub service : Service
  pub tried : List Text
  pub answer : Result CommandOutcome

abbrev pub ended : Service → Result CommandOutcome → Run
ended s r = record { service = s; tried = []; answer = r }

abbrev pub tried_first : Text → Run → Run
tried_first node r = record r { tried = node ∷ r.tried }

-- An attempt cannot begin: the context's error, the last lack of capacity, or the error of the choice.
abbrev pub not_picked : Option Error → Option CommandOutcome → Error → Result CommandOutcome
not_picked (some c) last e = err c
not_picked none (some o) e = ok o
not_picked none none e = err e

-- `context_ended` is `commandCtx.Err()`.
module _ (w : World) (d : Delivery) (context_ended : ℕ → Option Error) (capability id target : Text)
    (capacity_aware : Bool) where
  abbrev pub after_attempt :
      ℕ → (Service → CommandOutcome → Run) → Service × Result AttemptResult → Run
  after_attempt left retry (s, err e) = ended s (err e)
  after_attempt left retry (s, ok r) =
      let again = retry s r.outcome in
      if not r.capacity_retryable || left == 0 then ended s (ok r.outcome) else again

  abbrev pub attempt :
      ℕ
      → (Text → Service → CommandOutcome → Run)
      → Option CommandOutcome
      → Service × Result (ℕ × ℕ)
      → Run
  attempt left retry last (s, err e) = ended s (not_picked (context_ended s.pauses) last e)
  attempt left retry last (s, ok (i, reservation)) =
      let t = pause w.gap s in
      let node = node_at t i in
      tried_first node (
        after_attempt left (λ u o. retry node (pause w.gap u) o)
          (dispatch_command_attempt w d capability id node reservation t i))

  abbrev pub before_attempt : Service → Option Error → Run → Run
  before_attempt s (some e) r = ended s (err e)
  before_attempt s none r = r

  -- The iterations that are left, the workers tried and the last lack of capacity.
  unfoldable pub attempts : ℕ → Map (Unit {0}) → Option CommandOutcome → Service → Run
  attempts zero excluded (some o) s = ended s (ok o)
  attempts zero excluded none s = ended s (err no_capability_worker)
  attempts (suc n) excluded last s = before_attempt s (context_ended s.pauses) (
      attempt n (λ node u o. attempts n (insert node tt excluded) (some o) u) last
        (pick_session_for_dispatch w s capability id target excluded capacity_aware))

-- One attempt, or for a terminal session one for each worker that is online.
unfoldable pub max_attempts : Text → Text → List Text → ℕ
max_attempts capability id online =
    if text_eq capability task_capability_terminal_exec && not (is_empty id)
    then max 1 (length online)
    else 1

-- `id` is `terminalSessionIDFromPayload`, and `capacity_aware` that the capability is terminalexec and
-- the session known to be new.
unfoldable pub dispatch_command :
    World → Delivery → (ℕ → Option Error) → Text → (Text → Text) → Text → Bool → Service → Run
unfolding attempts max_attempts
dispatch_command w d context_ended capability id_of target known_new s =
    let name = normalize_capability capability in
    let id = id_of name in
    if is_empty name
    then ended s (err capability_required)
    else attempts w d context_ended name id target
        (text_eq name task_capability_terminal_exec && known_new)
        (max_attempts name id (w.online s.pauses)) [] none (pause w.gap s)
