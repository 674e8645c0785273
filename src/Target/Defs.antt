-- ===== src/Target/Defs.antt =====
-- console/internal/grpcserver/task_worker_sys_routing.go: which worker a task's input names.
--
-- `Registry` is the store of workers, as it answers at this time; `Codec` is encoding/json. The JSON
-- text `null` decodes to an empty object.
use onlyboxes.Prelude.{
  Bool, ◌&&◌, not, Option, none, some, List, [], ◌∷◌, Text, Map, codes, lookup, insert, remove,
  trim_space, to_lower, is_empty, text_eq, has_prefix, trim_prefix, if◌then◌else◌,
}
use onlyboxes.Session.Defs.{CapabilityDeclaration, normalize_capability}
use onlyboxes.Session.Recovery.{task_capability_terminal_exec}
use onlyboxes.OwnerScope.Payloads.{ExecPayload, Value, string, raw, Codec}

pub data Error : Type 0 where
  invalid_argument internal unavailable : Error

pub data Result {ℓ} (A : Type ℓ) : Type ℓ where
  ok : A → Result A
  err : Error → Result A

-- The fields that are read here.
pub record Worker : Type 0 where
  pub node_id : Text
  pub node_name : Text
  pub status : Text
  pub labels : Map Text
  pub capabilities : List CapabilityDeclaration

pub record WorkerSysListItem : Type 0 where
  pub worker_id : Text
  pub node_name : Text
  pub status : Text
  pub capabilities : List CapabilityDeclaration

pub record Registry : Type 0 where
  pub has_store : Bool
  pub get_by_node_id : Text → Option Worker
  pub list_by_owner_and_type : Text → Text → List Worker

pub record PreparedTaskInput : Type 0 where
  pub input_json : Text
  pub dispatch_capability : Text
  pub target_node_id : Text
  pub immediate_result : Option Text

abbrev pub computer_use : Text
computer_use = codes "computeruse"

abbrev pub read_image : Text
read_image = codes "readimage"

abbrev pub terminal_resource_capability : Text
terminal_resource_capability = codes "terminalresource"

abbrev pub worker_type_sys : Text
worker_type_sys = codes "worker-sys"

unfoldable pub raw_json_string : Option Value → Text
raw_json_string none = []
raw_json_string (some (string t)) = trim_space t
raw_json_string (some (raw t)) = []

-- `m[key]`, where a missing key is an empty text.
abbrev pub label_or_empty : Option Text → Text
label_or_empty none = []
label_or_empty (some t) = t

abbrev pub is_owned_sys : Text → Worker → Bool
is_owned_sys owner_id w =
    text_eq (trim_space (label_or_empty (lookup (codes "obx.owner_id") w.labels)))
      (trim_space owner_id)
    && text_eq (to_lower (trim_space (label_or_empty (lookup (codes "obx.worker_type") w.labels))))
        worker_type_sys

abbrev pub target_error : Text → Option Worker → Option Error
target_error owner_id none = some invalid_argument
target_error owner_id (some w) = if is_owned_sys owner_id w then none else some invalid_argument

unfoldable pub validate_worker_sys_target : Registry → Text → Text → Option Error
validate_worker_sys_target r owner_id worker_id =
    if not r.has_store then some unavailable else target_error owner_id (r.get_by_node_id worker_id)

abbrev pub list_items : List Worker → List WorkerSysListItem
list_items [] = []
list_items (w ∷ ws) =
    record {
      worker_id = w.node_id;
      node_name = w.node_name;
      status = w.status;
      capabilities = w.capabilities;
    }
    ∷ list_items ws

module _ (r : Registry) (codec : Codec) (encode_list : List WorkerSysListItem → Option Text)
    (is_null : Text → Bool) where
  -- None is the error of the encoder, which is internal.
  unfoldable pub worker_sys_list_result : Text → Option Text
  worker_sys_list_result owner_id =
      encode_list (list_items (r.list_by_owner_and_type owner_id worker_type_sys))

  abbrev pub listed_result : PreparedTaskInput → Option Text → Result PreparedTaskInput
  listed_result p none = err internal
  listed_result p (some result) = ok (record p { immediate_result = some result })

  abbrev pub encoded_for : PreparedTaskInput → Text → Option Text → Result PreparedTaskInput
  encoded_for p worker_id none = err internal
  encoded_for p worker_id (some input) =
      ok (record p { input_json = input; target_node_id = worker_id })

  -- A valid target: its input is encoded anew.
  abbrev pub targeted :
      PreparedTaskInput → Text → Map Value → Option Error → Result PreparedTaskInput
  targeted p worker_id payload (some e) = err e
  targeted p worker_id payload none = encoded_for p worker_id (codec.encode_object payload)

  abbrev pub prepare_computer_use :
      PreparedTaskInput → Text → Map Value → Option Value → Result PreparedTaskInput
  prepare_computer_use p owner_id payload none = listed_result p (worker_sys_list_result owner_id)
  prepare_computer_use p owner_id payload (some v) =
      let worker_id = raw_json_string (some v) in
      if is_empty worker_id
      then err invalid_argument
      else if is_empty (raw_json_string (lookup (codes "command") payload))
      then err invalid_argument
      else targeted p worker_id (remove (codes "worker_id") payload)
          (validate_worker_sys_target r owner_id worker_id)

  abbrev pub prepare_computer_use_input :
      PreparedTaskInput → Text → Option (Map Value) → Result PreparedTaskInput
  prepare_computer_use_input p owner_id none = err invalid_argument
  prepare_computer_use_input p owner_id (some payload) =
      if is_null p.input_json
      then err invalid_argument
      else prepare_computer_use p owner_id payload (lookup (codes "worker_id") payload)

  abbrev pub prepare_read_image :
      PreparedTaskInput → Text → Text → Option (Map Value) → Result PreparedTaskInput
  prepare_read_image p prefix owner_id none = err invalid_argument
  prepare_read_image p prefix owner_id (some payload) =
      let session_id = raw_json_string (lookup (codes "session_id") payload) in
      let worker_id = trim_space (trim_prefix prefix session_id) in
      if not (has_prefix prefix session_id)
      then ok (record p { dispatch_capability = terminal_resource_capability })
      else if is_empty worker_id
      then err invalid_argument
      else targeted p worker_id (insert (codes "session_id") (string (codes "computerUse")) payload)
          (validate_worker_sys_target r owner_id worker_id)

  abbrev pub prepare_terminal_exec :
      PreparedTaskInput → Text → Option ExecPayload → Result PreparedTaskInput
  prepare_terminal_exec p prefix none = ok p
  prepare_terminal_exec p prefix (some payload) =
      let session_id = trim_space payload.session_id in
      if payload.create_if_missing && not (is_empty session_id) && has_prefix prefix session_id
      then err invalid_argument
      else ok p

  -- `given_prefix` is the reserved prefix of session ids, or blank for the default.
  unfoldable pub prepare_task_input : Text → Text → Text → Text → Result PreparedTaskInput
  unfolding raw_json_string validate_worker_sys_target worker_sys_list_result
  prepare_task_input given_prefix capability owner_id input_json =
      let prefix = if is_empty (trim_space given_prefix) then codes "CU:" else given_prefix in
      let c = normalize_capability capability in
      let p : PreparedTaskInput = record {
        input_json = input_json;
        dispatch_capability = c;
        target_node_id = [];
        immediate_result = none;
      } in
      if text_eq c computer_use
      then prepare_computer_use_input p owner_id (codec.decode_object input_json)
      else if text_eq c read_image
      then prepare_read_image p prefix owner_id (codec.decode_object input_json)
      else if text_eq c task_capability_terminal_exec
      then prepare_terminal_exec p prefix (codec.decode_exec input_json)
      else ok p
