-- ===== src/Target/Examples.antt =====
-- console/internal/grpcserver/task_worker_sys_routing.go: a command for the owner's own worker.
use onlyboxes.Prelude.{
  ◌≡◌, refl, true, false, none, some, [], ◌∷◌, Text, Map, codes, lookup, remove, pos, text_eq,
  trim_space, trim_left, trim_right, is_space, to_lower, lower_code,
}
use onlyboxes.Session.Defs.{normalize_capability}
use onlyboxes.OwnerScope.Payloads.{Value, string, Codec}
use onlyboxes.Target.Defs.{
  ok, Worker, Registry, PreparedTaskInput, raw_json_string, validate_worker_sys_target,
  prepare_task_input,
}
use onlyboxes.Target.Owned.{IsTarget, prepare_task_input-IsTarget}

abbrev mac : Text
mac = codes "m"

abbrev ann : Text
ann = codes "ann"

abbrev mac_worker : Worker
mac_worker = record {
  node_id = mac;
  node_name = codes "mac";
  status = codes "online";
  labels = (codes "obx.owner_id", ann) ∷ (codes "obx.worker_type", codes "Worker-Sys") ∷ [];
  capabilities = record { name = codes "computerUse"; declared_max_inflight = pos 1 } ∷ [];
}

abbrev one_mac : Registry
one_mac = record {
  has_store = true;
  get_by_node_id = λ n. lookup n ((mac, mac_worker) ∷ []);
  list_by_owner_and_type = λ o t. mac_worker ∷ [];
}

abbrev run_on_mac : Map Value
run_on_mac = (codes "worker_id", string mac) ∷ (codes "command", string (codes "ls")) ∷ []

abbrev one_object : Codec
one_object = record {
  decode_exec = λ t. none;
  encode_exec = λ p. none;
  decode_resource = λ t. none;
  encode_resource = λ p. none;
  decode_object = λ t. some run_on_mac;
  encode_object = λ o. some (codes "{\"command\":\"ls\"}");
}

abbrev for_mac : PreparedTaskInput
for_mac = record {
  input_json = codes "{\"command\":\"ls\"}";
  dispatch_capability = codes "computeruse";
  target_node_id = mac;
  immediate_result = none;
}

mac_prepared :
    prepare_task_input one_mac one_object
      (λ l. none)
      (λ t. false)
      []
      (codes "computerUse")
      ann
      (codes "x")
    ≡ ok for_mac
unfolding prepare_task_input raw_json_string validate_worker_sys_target normalize_capability
    trim_space trim_left trim_right is_space to_lower lower_code text_eq lookup remove
mac_prepared = refl

prepare_task_input-IsTarget_example : IsTarget one_mac ann mac
prepare_task_input-IsTarget_example =
    prepare_task_input-IsTarget one_mac one_object (λ l. none) (λ t. false) [] (codes "computerUse")
      ann (codes "x") for_mac mac_prepared refl
