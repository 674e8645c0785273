-- ===== src/Session/Defs.antt =====
-- console/internal/grpcserver/session_runtime.go: the active session of a worker, its capability
-- slots, and the commands that await a result.
--
-- Each function is one critical section or one call. A result channel is an index into `results`.
use onlyboxes.Prelude.{
  ℕ, ◌+◌, ◌-◌, Bool, true, false, Option, none, some, List, [], ◌∷◌, Text, Map, codes, lookup,
  insert, trim_space, to_lower, is_empty, ltb, leb, ◌==◌, if◌then◌else◌, ℤ, positive_or,
}

pub data Error : Type 0 where
  command_execution : Text → Text → Error
  session_closed : Text → Error
  command_id_required : Error

pub data Result {ℓ} (A : Type ℓ) : Type ℓ where
  ok : A → Result A
  err : Error → Result A

abbrev pub default_capability_max_inflight : ℕ
default_capability_max_inflight = 4

abbrev pub default_close_message : Text
default_close_message = codes "session closed"

-- `strings.TrimSpace(strings.ToLower(capability))`
unfoldable pub normalize_capability : Text → Text
normalize_capability capability = trim_space (to_lower capability)

pub record CommandOutcome : Type 0 where
  pub payload_json : Text
  pub message : Text
  pub err : Option Error
  pub completed_at : ℕ

-- A channel for one result: `closed_with` holds what was sent before it was closed.
pub data ResultCh : Type 0 where
  waiting : ResultCh
  closed_with : Option CommandOutcome → ResultCh

pub record PendingCommand : Type 0 where
  pub result_ch : ℕ
  pub capability : Text

-- A `max_inflight` of 0 stands for one that is not positive.
pub record SessionCapability : Type 0 where
  pub max_inflight : ℕ
  pub inflight : ℕ

pub record CapabilityDeclaration : Type 0 where
  pub name : Text
  pub declared_max_inflight : ℤ

pub record ActiveSession : Type 0 where
  pub capabilities : Map SessionCapability
  pub pending : Map PendingCommand
  pub results : List ResultCh
  pub done : Bool
  pub closed_err : Option Error

-- The loop of `capabilitiesFromHello`: a later declaration of a name replaces an earlier one.
unfoldable pub add_capabilities :
    List CapabilityDeclaration → Map SessionCapability → Map SessionCapability
add_capabilities [] capability_set = capability_set
add_capabilities (c ∷ cs) capability_set =
    let name = normalize_capability c.name in
    add_capabilities cs (
      if is_empty name
      then capability_set
      else insert name
          (record {
            max_inflight = positive_or c.declared_max_inflight default_capability_max_inflight;
            inflight = 0;
          })
          capability_set)

unfoldable pub capabilities_from_hello : List CapabilityDeclaration → Map SessionCapability
unfolding add_capabilities
capabilities_from_hello capabilities = add_capabilities capabilities []

unfoldable pub new_active_session : List CapabilityDeclaration → ActiveSession
unfolding capabilities_from_hello
new_active_session capabilities = record {
  capabilities = capabilities_from_hello capabilities;
  pending = [];
  results = [];
  done = false;
  closed_err = none;
}

-- `if max <= 0 { max = default }`
abbrev pub max_or_default : SessionCapability → ℕ
max_or_default state =
    if state.max_inflight == 0 then default_capability_max_inflight else state.max_inflight

unfoldable pub has_capability : ActiveSession → Text → Bool
has_capability s capability = elim (lookup (normalize_capability capability) s.capabilities) [
  | none ↦ false
  | some state ↦ if is_empty (normalize_capability capability) then false else true
]

abbrev pub put_capability : ActiveSession → Text → SessionCapability → ActiveSession
put_capability s name state = record s { capabilities = insert name state s.capabilities }

unfoldable pub inflight_found :
    ActiveSession → Text → Option SessionCapability → ActiveSession × Option (ℕ × ℕ)
inflight_found s name none = (s, none)
inflight_found s name (some state) = (
  put_capability s name (record state { max_inflight = max_or_default state }),
  some (state.inflight, max_or_default state),
)

-- The commands in flight and the limit. A missing limit is written back.
unfoldable pub inflight_snapshot : ActiveSession → Text → ActiveSession × Option (ℕ × ℕ)
unfolding inflight_found
inflight_snapshot s capability =
    let name = normalize_capability capability in
    if is_empty name then (s, none) else inflight_found s name (lookup name s.capabilities)

unfoldable pub acquire_found :
    ActiveSession → Text → Option SessionCapability → ActiveSession × Bool
acquire_found s name none = (s, false)
acquire_found s name (some state) =
    if leb (max_or_default state) state.inflight
    then (put_capability s name (record state { max_inflight = max_or_default state }), false)
    else (
      put_capability s name
          (record state { max_inflight = max_or_default state; inflight = state.inflight + 1 }),
      true,
    )

unfoldable pub try_acquire_capability : ActiveSession → Text → ActiveSession × Bool
unfolding acquire_found
try_acquire_capability s capability =
    let name = normalize_capability capability in
    if is_empty name then (s, false) else acquire_found s name (lookup name s.capabilities)

unfoldable pub release_found : ActiveSession → Text → Option SessionCapability → ActiveSession
release_found s name none = s
release_found s name (some state) =
    if ltb 0 state.inflight
    then put_capability s name (record state { inflight = state.inflight - 1 })
    else s

unfoldable pub release_capability : ActiveSession → Text → ActiveSession
unfolding release_found
release_capability s capability =
    let name = normalize_capability capability in
    if is_empty name then s else release_found s name (lookup name s.capabilities)

unfoldable pub session_error : ActiveSession → Error
session_error s = elim s.closed_err [ none ↦ session_closed default_close_message | some e ↦ e ]
