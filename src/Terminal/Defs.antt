-- ===== src/Terminal/Defs.antt =====
-- worker/worker-docker/internal/runner/terminal_exec.go: the session, the manager, its constructor,
-- and the small pieces that run under the manager's lock.
--
-- A `*terminalSession` is an index into `heap`, which only grows; `sessions` is the Go map. Times
-- are milliseconds. `lease_timer` is the instant for which an unstopped timer is armed. `retired`
-- says that some goroutine holds the session in order to clean it up: it is not a field of the
-- source, where the goroutine's own variable says so. `removed` lists the containers that were
-- passed to `docker rm`.
use onlyboxes.Prelude.{
  ℕ, ◌-◌, ◌*◌, Bool, true, false, ◌||◌, Option, none, some, List, [], ◌∷◌, ◌++◌, Text, Map, codes,
  lookup, get_elem?, set, trim_space, ltb, if◌then◌else◌, ℤ, pos, negsuc, positive_or, nonneg,
}

-- The codes of `terminalExecError`, and the errors of Docker and of the context.
pub data Error : Type 0 where
  execution_failed invalid_payload session_not_found session_busy : Error
  session_capacity_exceeded deadline_exceeded canceled : Error
  docker_failed : Text → Error

pub data Result {ℓ} (A : Type ℓ) : Type ℓ where
  ok : A → Result A
  err : Error → Result A

pub record Session : Type 0 where
  pub session_id : Text
  pub container_name : Text
  pub container_ip : Text
  pub lease_expires_at : ℕ
  pub lease_timer : Option ℕ
  pub proxy_cancelled : Bool
  pub inflight : ℕ
  pub destroying : Bool
  pub ready : Bool
  pub init_err : Option Error
  pub capacity_reserved : Bool
  pub retired : Bool

pub record Config : Type 0 where
  pub lease_min_sec : ℤ
  pub lease_max_sec : ℤ
  pub lease_default_sec : ℤ
  pub output_limit_bytes : ℤ
  pub session_max_inflight : ℤ
  pub max_active_sessions : ℤ
  pub preserve_on_close : Bool

pub record Manager : Type 0 where
  pub sessions : Map ℕ
  pub heap : List Session
  pub lease_min_sec : ℕ
  pub lease_max_sec : ℕ
  pub lease_default_sec : ℕ
  pub output_limit_bytes : ℕ
  pub session_max_inflight : ℕ
  pub max_active_sessions : ℕ
  pub active_session_reservations : ℕ
  pub preserve_on_close : Bool
  pub create_wg : ℕ
  pub cleanup_wg : ℕ
  pub closed : Bool
  pub removed : List Text

abbrev pub default_terminal_session_max_inflight : ℕ
default_terminal_session_max_inflight = 1

-- `if v < lo { v = lo }`
abbrev pub at_least : ℕ → ℕ → ℕ
at_least lo v = if ltb v lo then lo else v

-- `if v > hi { v = hi }`
abbrev pub at_most : ℕ → ℕ → ℕ
at_most hi v = if ltb hi v then hi else v

unfoldable pub new_terminal_session_manager : Config → Manager
new_terminal_session_manager cfg =
    let lease_min = positive_or cfg.lease_min_sec 60 in
    let lease_max = at_least lease_min (positive_or cfg.lease_max_sec 1800) in
    let lease_default =
      at_most lease_max (at_least lease_min (positive_or cfg.lease_default_sec 60)) in
    record {
      sessions = [];
      heap = [];
      lease_min_sec = lease_min;
      lease_max_sec = lease_max;
      lease_default_sec = lease_default;
      output_limit_bytes = positive_or cfg.output_limit_bytes (1024 * 1024);
      session_max_inflight =
          positive_or cfg.session_max_inflight default_terminal_session_max_inflight;
      max_active_sessions = nonneg cfg.max_active_sessions;
      active_session_reservations = 0;
      preserve_on_close = cfg.preserve_on_close;
      create_wg = 0;
      cleanup_wg = 0;
      closed = false;
      removed = [];
    }

-- `m.sessions[id]`, with the session that the pointer leads to.
unfoldable pub deref : List Session → Option ℕ → Option (ℕ × Session)
deref heap none = none
deref heap (some p) = elim (get_elem? heap p) [ none ↦ none | some s ↦ some (p, s) ]

unfoldable pub current : Manager → Text → Option (ℕ × Session)
unfolding deref
current m id = deref m.heap (lookup id m.sessions)

-- A write through the pointer `p`.
abbrev pub put : Manager → ℕ → Session → Manager
put m p s = record m { heap = set m.heap p s }

-- In milliseconds. The message of the error, which names the bounds, is left out.
unfoldable pub check_lease : Manager → ℤ → Result ℕ
check_lease m (negsuc n) = err invalid_payload
check_lease m (pos sec) =
    if ltb sec m.lease_min_sec || ltb m.lease_max_sec sec
    then err invalid_payload
    else ok (sec * 1000)

unfoldable pub resolve_lease_duration : Manager → Option ℤ → Result ℕ
unfolding check_lease
resolve_lease_duration m none = check_lease m (pos m.lease_default_sec)
resolve_lease_duration m (some sec) = check_lease m sec

-- An old timer is stopped and a new one armed for the lease.
unfoldable pub schedule_session_lease_timer : Bool → Session → Session
schedule_session_lease_timer closed s =
    if closed || s.destroying then s else record s { lease_timer = some s.lease_expires_at }

abbrev pub stop_session_lease_timer : Session → Session
stop_session_lease_timer s = record s { lease_timer = none }

abbrev pub proxy_cancel : Session → Session
proxy_cancel s = record s { proxy_cancelled = true }

abbrev pub terminal_exec_container_prefix : Text
terminal_exec_container_prefix = codes "onlyboxes-terminal-v1-"

-- `hash` is the hexadecimal SHA-256 of crypto/sha256 and encoding/hex.
unfoldable pub terminal_session_resource_name : (Text → Text) → Text → Text
terminal_session_resource_name hash session_id =
    terminal_exec_container_prefix ++ hash (trim_space session_id)

-- `docker rm -f`. A blank name does nothing, and a failure is only logged.
unfoldable pub force_remove_container : Manager → Text → Manager
force_remove_container m name = elim (trim_space name) [
  | [] ↦ m
  | c ∷ cs ↦ record m { removed = (c ∷ cs) ∷ m.removed }
]

-- `if n > 0 { n-- }`: subtraction on ℕ stops at 0, as the guard does.
abbrev pub dec : ℕ → ℕ
dec n = n - 1
