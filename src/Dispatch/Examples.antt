-- ===== src/Dispatch/Examples.antt =====
-- console/internal/grpcserver/service_dispatch.go: the theorems at one worker.
use onlyboxes.Prelude.{
  ℕ, ◌≡◌, refl, sym, true, false, none, some, [], ◌∷◌, Text, codes, arith, lookup, trim_space,
  trim_left, trim_right, is_space, text_eq, text_eq→eq, if◌then◌else◌, Bool-cases, inl, inr,
}
use onlyboxes.Session.Defs.{normalize_capability}
use onlyboxes.Routes.Defs.{runs}
use onlyboxes.Routes.Steps.{new_routes}
use onlyboxes.Dispatch.Defs.{Worker, Service, Gap, deadline_exceeded}
use onlyboxes.Dispatch.Pick.{pick_session_for_capability}
use onlyboxes.Dispatch.Route.{World}
use onlyboxes.Dispatch.Attempt.{Delivery}
use onlyboxes.Dispatch.Run.{max_attempts, dispatch_command}
use onlyboxes.Dispatch.Names.{IsNamed, Moves-refl, IsFair}
use onlyboxes.Dispatch.Tries.{Tries, dispatch_command-Tries}
use onlyboxes.Dispatch.Room.{IsAlike-refl}
use onlyboxes.Dispatch.Offers.{any, offers, serves}
use onlyboxes.Dispatch.Verdict.{granted, full, nobody, verdict, pick_session-verdict}

abbrev box : Text
box = codes "box"

abbrev echo : Text
echo = codes "echo"

abbrev box_worker : Worker
box_worker = record {
  node_id = box;
  session = record {
    capabilities = (echo, record { max_inflight = 2; inflight = 1 }) ∷ [];
    pending = [];
    results = [];
    done = false;
    closed_err = none;
  };
  recovery = record {
    recovery_required = false;
    recovery_complete = true;
    recovery_candidates = [];
    recovery_results = [];
  };
  capacity = record { known = false; max_active_sessions = 0; active_session_count = 0 };
  proxy_endpoint = [];
  route_token_key = [];
  proxy_direct = [];
}

abbrev one_worker : Service
one_worker = record {
  heap = box_worker ∷ [];
  sessions = (box, 0) ∷ [];
  round_robin = 5;
  routes = new_routes 1000 [];
  pauses = 0;
}

abbrev still : Gap
still k s = s

still-IsFair : IsFair still
still-IsFair = record { gap-Moves = λ k s. Moves-refl s }

box_trimmed : trim_space box ≡ box
unfolding trim_space trim_left trim_right is_space
box_trimmed = refl

listed_box : (n : Text) (i : ℕ) → lookup n one_worker.sessions ≡ some i → (n ≡ box) × (i ≡ 0)
unfolding lookup
listed_box n i h = elim (Bool-cases (text_eq box n)) [
  | inl e ↦ (sym (text_eq→eq box n e), ground (arith, e, h))
  | inr e ↦ absurd (ground (arith, e, h))
]

one_worker-IsNamed : IsNamed one_worker
one_worker-IsNamed n i h = let l = listed_box n i h in rw (l.0, l.1) (refl, box_trimmed)

abbrev quiet : World
quiet = record { gap = still; clock = λ k. 10; db = λ k. runs; online = λ k. box ∷ [] }

abbrev late : Delivery
late = record {
  command_id = λ k. some (codes "c1");
  enqueued = λ k. none;
  on_dispatched = λ k. none;
  context_error = λ k. deadline_exceeded;
  context_first = λ k. true;
  decode_lease = λ t. none;
}

dispatch_command-Tries_example :
    Tries
      (max_attempts (normalize_capability echo) [] (box ∷ []))
      []
      (dispatch_command quiet late (λ k. none) echo (λ t. []) [] false one_worker)
dispatch_command-Tries_example =
    dispatch_command-Tries quiet late (λ k. none) echo (λ t. []) [] false one_worker still-IsFair
      one_worker-IsNamed

pick_session-verdict_example :
    verdict (pick_session_for_capability still one_worker echo [] false (box ∷ [])).1 ≡ (
      if any (offers echo [] false one_worker) (box ∷ [])
      then granted
      else if any (serves echo [] false one_worker) (box ∷ [])
      then full
      else nobody)
pick_session-verdict_example =
    pick_session-verdict still one_worker echo [] false (box ∷ []) (λ k t. IsAlike-refl echo t)
