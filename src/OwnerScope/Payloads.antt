-- ===== src/OwnerScope/Payloads.antt =====
-- console/internal/grpcserver/task_owner_scope.go: the payloads of tasks, on the way to a worker and
-- back. encoding/json is the parameter `Codec`.
use onlyboxes.Prelude.{
  Bool, true, false, ◌||◌, Option, none, some, [], ◌∷◌, Text, Map, codes, lookup, insert,
  trim_space, to_lower, is_empty, text_eq, has_prefix, if◌then◌else◌, ℤ,
}
use onlyboxes.OwnerScope.Ids.{
  normalize_task_owner_id, scope_terminal_session_id, unscope_terminal_session_id,
  valid_external_terminal_session_id,
}

pub data Error : Type 0 where
  internal invalid_argument : Error

pub data Result {ℓ} (A : Type ℓ) : Type ℓ where
  ok : A → Result A
  err : Error → Result A

pub data Capability : Type 0 where
  terminal_exec terminal_resource : Capability
  other : Text → Capability

pub data Intent : Type 0 where
  unknown known_new : Intent

pub record ExecPayload : Type 0 where
  pub command : Text
  pub session_id : Text
  pub create_if_missing : Bool
  pub lease_ttl_sec : Option ℤ

pub record ResourcePayload : Type 0 where
  pub session_id : Text
  pub file_path : Text
  pub action : Text
  pub signed_url : Text
  pub headers : Map Text

-- A member of a JSON object: a string, or any other value by its text.
pub data Value : Type 0 where
  string : Text → Value
  raw : Text → Value

pub record Codec : Type 0 where
  pub decode_exec : Text → Option ExecPayload
  pub encode_exec : ExecPayload → Option Text
  pub decode_resource : Text → Option ResourcePayload
  pub encode_resource : ResourcePayload → Option Text
  pub decode_object : Text → Option (Map Value)
  pub encode_object : Map Value → Option Text

unfoldable pub is_allowed_terminal_resource_upload_header : Text → Bool
is_allowed_terminal_resource_upload_header name =
    has_prefix (codes "x-amz-") name
    || text_eq name (codes "content-type")
    || text_eq name (codes "content-md5")

unfoldable pub canonical_terminal_resource_upload_header_name : Text → Text
canonical_terminal_resource_upload_header_name name =
    if text_eq name (codes "content-type")
    then codes "Content-Type"
    else if text_eq name (codes "content-md5")
    then codes "Content-MD5"
    else name

-- The loop; a later header of the same name replaces an earlier one.
unfoldable pub filter_headers : Map Text → Map Text → Map Text
unfolding is_allowed_terminal_resource_upload_header canonical_terminal_resource_upload_header_name
filter_headers [] filtered = filtered
filter_headers ((name, value) ∷ headers) filtered =
    let normalized = to_lower (trim_space name) in
    filter_headers headers (
      if is_empty normalized
      then filtered
      else if is_allowed_terminal_resource_upload_header normalized
      then insert (canonical_terminal_resource_upload_header_name normalized) value filtered
      else filtered)

-- An empty map and `nil` are one.
unfoldable pub filter_terminal_resource_upload_headers : Map Text → Map Text
unfolding filter_headers
filter_terminal_resource_upload_headers headers = filter_headers headers []

abbrev pub or_internal {ℓ} : {A : Type ℓ} → Option A → Result A
or_internal none = err internal
or_internal (some a) = ok a

abbrev pub carries_session : Capability → Bool
carries_session (other c) = false
carries_session _ = true

abbrev pub intent_of : Option ExecPayload → Intent
intent_of none = unknown
intent_of (some p) = if is_empty (trim_space p.session_id) then known_new else unknown

module _ (json : Codec) where
  unfoldable pub terminal_session_intent_for_task_input : Capability → Text → Intent
  terminal_session_intent_for_task_input terminal_exec input =
      if is_empty input then unknown else intent_of (json.decode_exec input)
  terminal_session_intent_for_task_input terminal_resource input = unknown
  terminal_session_intent_for_task_input (other c) input = unknown

  -- `created` is the answer of `newTerminalSessionIDFn`.
  abbrev pub scope_new : Text → ExecPayload → Option Text → Result Text
  scope_new owner p none = err internal
  scope_new owner p (some created) =
      if is_empty (trim_space created)
      then err internal
      else or_internal (
          json.encode_exec (record p {
            session_id = scope_terminal_session_id owner (trim_space created);
            create_if_missing = true;
          }))

  abbrev pub scope_exec : Text → Text → Option Text → Option ExecPayload → Result Text
  scope_exec owner input created none = ok input
  scope_exec owner input created (some p) =
      if is_empty (trim_space p.session_id)
      then scope_new owner p created
      else if valid_external_terminal_session_id (trim_space p.session_id)
      then or_internal (
          json.encode_exec
            (record p { session_id = scope_terminal_session_id owner (trim_space p.session_id) }))
      else err invalid_argument

  abbrev pub scope_resource : Text → Text → Option ResourcePayload → Result Text
  scope_resource owner input none = ok input
  scope_resource owner input (some p) =
      if is_empty (trim_space p.session_id)
      then ok input
      else if valid_external_terminal_session_id (trim_space p.session_id)
      then or_internal (
          json.encode_resource (record p {
            session_id = scope_terminal_session_id owner (trim_space p.session_id);
            headers = filter_terminal_resource_upload_headers p.headers;
          }))
      else err invalid_argument

  abbrev pub scope_by_capability : Capability → Text → Text → Option Text → Result Text
  scope_by_capability terminal_exec owner input created =
      scope_exec owner input created (json.decode_exec input)
  scope_by_capability terminal_resource owner input created =
      scope_resource owner input (json.decode_resource input)
  scope_by_capability (other c) owner input created = ok input

  unfoldable pub scope_task_input_by_owner : Capability → Text → Text → Option Text → Result Text
  scope_task_input_by_owner capability owner_id input created =
      let owner = normalize_task_owner_id owner_id in
      if is_empty owner || is_empty input
      then ok input
      else scope_by_capability capability owner input created

  abbrev pub restore_member : Text → Map Value → Text → Option Text → Option Text
  restore_member owner decoded result none = none
  restore_member owner decoded result (some external) =
      json.encode_object (insert (codes "session_id") (string external) decoded)

  abbrev pub restore_session : Text → Map Value → Text → Option Value → Option Text
  restore_session owner decoded result none = some result
  restore_session owner decoded result (some (raw t)) = some result
  restore_session owner decoded result (some (string t)) =
      restore_member owner decoded result (unscope_terminal_session_id owner t)

  abbrev pub restore_object : Text → Text → Option (Map Value) → Option Text
  restore_object owner result none = some result
  restore_object owner result (some decoded) =
      restore_session owner decoded result (lookup (codes "session_id") decoded)

  -- `none` is a result that must not be passed on.
  unfoldable pub restore_task_result_owner_scope : Text → Capability → Text → Option Text
  restore_task_result_owner_scope owner_id capability result =
      let owner = normalize_task_owner_id owner_id in
      if is_empty owner || is_empty result
      then some result
      else if carries_session capability
      then restore_object owner result (json.decode_object result)
      else some result
