-- ===== src/Dispatch/Defs.antt =====
-- console/internal/grpcserver/service_dispatch.go: the part of the service that a dispatch works on.
--
-- A pointer to an activeSession is an index into `heap`; `sessions` has those of the workers that are
-- connected. Between its calls a dispatch pauses, and in the i-th pause other goroutines do `gap i`.
use onlyboxes.Prelude.{
  ℕ, ◌+◌, Bool, true, false, ◌&&◌, Option, none, some, List, Text, Map, lookup, get_elem?, set,
  trim_space, is_empty, if◌then◌else◌,
}
use onlyboxes.Session.Defs.{
  ActiveSession, has_capability, try_acquire_capability, release_capability,
}
use onlyboxes.Session.Recovery.{Recovery, is_ready}
use onlyboxes.Routes.Defs.{Routes, has}

pub record TerminalCapacity : Type 0 where
  pub known : Bool
  pub max_active_sessions : ℕ
  pub active_session_count : ℕ

pub record Worker : Type 0 where
  pub node_id : Text
  pub session : ActiveSession
  pub recovery : Recovery
  pub capacity : TerminalCapacity
  pub proxy_endpoint : Text
  pub route_token_key : Text
  pub proxy_direct : Text

pub record Service : Type 0 where
  pub heap : List Worker
  pub sessions : Map ℕ
  pub round_robin : ℕ
  pub routes : Routes
  pub pauses : ℕ

pub data Error : Type 0 where
  no_capability_worker no_worker_capacity retry_route_conflict : Error
  target_worker_offline target_worker_capability_unavailable terminal_session_unavailable : Error
  deadline_exceeded context_canceled capability_required : Error
  command_id_failed worker_unavailable session_closed : Error
  persist_route_failed delete_route_failed : Error
  not_dispatched : Text → Error

pub data Result {ℓ} (A : Type ℓ) : Type ℓ where
  ok : A → Result A
  err : Error → Result A

abbrev pub Gap : Type 0
Gap = ℕ → Service → Service

unfoldable pub pause : Gap → Service → Service
pause gap s = gap s.pauses (record s { pauses = s.pauses + 1 })

unfoldable pub get_session : Service → Text → Option ℕ
get_session s node_id = lookup node_id s.sessions

abbrev pub put_found : List Worker → ℕ → Option Worker → ActiveSession → List Worker
put_found heap i none session = heap
put_found heap i (some w) session = set heap i (record w { session = session })

unfoldable pub put_session : Service → ℕ → ActiveSession → Service
put_session s i session = record s { heap = put_found s.heap i (get_elem? s.heap i) session }

-- `session == nil || !session.isReady() || !session.hasCapability(capability)`, negated.
abbrev pub is_usable : Text → Option Worker → Bool
is_usable capability none = false
is_usable capability (some w) = is_ready w.recovery && has_capability w.session capability

abbrev pub worker_at : Service → Option ℕ → Option Worker
worker_at s none = none
worker_at s (some i) = get_elem? s.heap i

abbrev pub acquire_at_found : Service → Text → ℕ → Option Worker → Service × Bool
acquire_at_found s capability i none = (s, false)
acquire_at_found s capability i (some w) =
    let r = try_acquire_capability w.session capability in (put_session s i r.0, r.1)

-- `session.tryAcquireCapability(capability)`
unfoldable pub acquire_at : Service → Text → ℕ → Service × Bool
unfolding put_session
acquire_at s capability i = acquire_at_found s capability i (get_elem? s.heap i)

abbrev pub release_at_found : Service → Text → ℕ → Option Worker → Service
release_at_found s capability i none = s
release_at_found s capability i (some w) = put_session s i (release_capability w.session capability)

-- `session.releaseCapability(capability)`
unfoldable pub release_at : Service → Text → ℕ → Service
unfolding put_session
release_at s capability i = release_at_found s capability i (get_elem? s.heap i)

unfoldable pub is_node_excluded : Text → Map (Unit {0}) → Bool
is_node_excluded node_id excluded = has (lookup (trim_space node_id) excluded)

abbrev pub acquired_or_full : ℕ → Service × Bool → Service × Result ℕ
acquired_or_full i (s, true) = (s, ok i)
acquired_or_full i (s, false) = (s, err no_worker_capacity)

abbrev pub pick_node_found : Service → Text → Option ℕ → Service × Result ℕ
pick_node_found s capability none = (s, err no_capability_worker)
pick_node_found s capability (some i) =
    if is_usable capability (get_elem? s.heap i)
    then acquired_or_full i (acquire_at s capability i)
    else (s, err no_capability_worker)

unfoldable pub pick_session_for_node_and_capability : Service → Text → Text → Service × Result ℕ
unfolding acquire_at get_session
pick_session_for_node_and_capability s node_id capability =
    let node = trim_space node_id in
    if is_empty node
    then (s, err no_capability_worker)
    else pick_node_found s capability (get_session s node)
