-- ===== src/Target/Owned.antt =====
-- console/internal/grpcserver/task_worker_sys_routing.go: whose workers a task may be sent to.
use onlyboxes.Prelude.{
  ◌≡◌, refl, subst, Bool, true, false, ◌&&◌, not, Option, none, some, List, [], Text, Map, codes,
  lookup, arith, remove, insert, trim_space, trim_prefix, has_prefix, to_lower, is_empty, text_eq,
  text_eq→eq, if_cases, if◌then◌else◌,
}
use onlyboxes.Session.Defs.{normalize_capability}
use onlyboxes.Session.Recovery.{task_capability_terminal_exec}
use onlyboxes.OwnerScope.Payloads.{ExecPayload, Value, string, Codec}
use onlyboxes.Target.Defs.{
  ok, err, Error, Result, Worker, WorkerSysListItem, Registry, PreparedTaskInput, computer_use,
  read_image, worker_type_sys, label_or_empty, target_error, validate_worker_sys_target,
  raw_json_string, encoded_for, targeted, listed_result, prepare_computer_use,
  prepare_computer_use_input, prepare_read_image, prepare_terminal_exec, prepare_task_input,
}

-- The worker is registered under the id, as one of the owner's and of the type worker-sys.
pub record IsTarget (r : Registry) (owner_id worker_id : Text) : Type 0 where
  pub worker : Worker
  pub found : r.get_by_node_id worker_id ≡ some worker
  pub owned :
      trim_space (label_or_empty (lookup (codes "obx.owner_id") worker.labels))
      ≡ trim_space owner_id
  pub typed :
      to_lower (trim_space (label_or_empty (lookup (codes "obx.worker_type") worker.labels)))
      ≡ worker_type_sys

module _ (r : Registry) (codec : Codec) (encode_list : List WorkerSysListItem → Option Text)
    (is_null : Text → Bool) (owner_id : Text) where
  abbrev Targets : Result PreparedTaskInput → Type 0
  Targets (ok p) = is_empty p.target_node_id ≡ false → IsTarget r owner_id p.target_node_id
  Targets (err e) = Unit

  found-IsTarget :
      (worker_id : Text) (o : Option Worker)
      → r.get_by_node_id worker_id ≡ o
      → target_error owner_id o ≡ none
      → IsTarget r owner_id worker_id
  found-IsTarget worker_id none f h = absurd (cc h)
  found-IsTarget worker_id (some w) f h = record {
    worker = w;
    found = f;
    owned = text_eq→eq _ _ (ground (arith, h));
    typed = text_eq→eq _ _ (ground (arith, h));
  }

  valid-IsTarget :
      (worker_id : Text)
      → validate_worker_sys_target r owner_id worker_id ≡ none
      → IsTarget r owner_id worker_id
  unfolding validate_worker_sys_target
  valid-IsTarget worker_id h =
      found-IsTarget worker_id (r.get_by_node_id worker_id) refl (ground (arith, h))

  encoded-Targets :
      (p : PreparedTaskInput) (worker_id : Text) (o : Option Text)
      → IsTarget r owner_id worker_id
      → Targets (encoded_for r codec encode_list is_null p worker_id o)
  encoded-Targets p worker_id none t = tt
  encoded-Targets p worker_id (some input) t = λ _. t

  targeted-Targets :
      (p : PreparedTaskInput) (worker_id : Text) (payload : Map Value) (e : Option Error)
      → validate_worker_sys_target r owner_id worker_id ≡ e
      → Targets (targeted r codec encode_list is_null p worker_id payload e)
  targeted-Targets p worker_id payload (some e) h = tt
  targeted-Targets p worker_id payload none h =
      encoded-Targets p worker_id (codec.encode_object payload) (valid-IsTarget worker_id h)

  listed-Targets :
      (p : PreparedTaskInput) (o : Option Text)
      → is_empty p.target_node_id ≡ true
      → Targets (listed_result r codec encode_list is_null p o)
  listed-Targets p none h = tt
  listed-Targets p (some t) h = λ k. absurd (cc)

  used-Targets :
      (p : PreparedTaskInput) (payload : Map Value) (o : Option Value)
      → is_empty p.target_node_id ≡ true
      → Targets (prepare_computer_use r codec encode_list is_null p owner_id payload o)
  used-Targets p payload none h = listed-Targets p _ h
  used-Targets p payload (some v) h =
      if_cases Targets (is_empty (raw_json_string (some v))) _ _ (λ _. tt)
        (λ _.
          if_cases Targets (is_empty (raw_json_string (lookup (codes "command") payload))) _ _
            (λ _. tt)
            (λ _.
              targeted-Targets p (raw_json_string (some v)) (remove (codes "worker_id") payload) _
                refl))

  used_input-Targets :
      (p : PreparedTaskInput) (o : Option (Map Value))
      → is_empty p.target_node_id ≡ true
      → Targets (prepare_computer_use_input r codec encode_list is_null p owner_id o)
  used_input-Targets p none h = tt
  used_input-Targets p (some payload) h =
      if_cases Targets (is_null p.input_json) _ _ (λ _. tt)
        (λ _. used-Targets p payload (lookup (codes "worker_id") payload) h)

  image-Targets :
      (p : PreparedTaskInput) (prefix : Text) (o : Option (Map Value))
      → is_empty p.target_node_id ≡ true
      → Targets (prepare_read_image r codec encode_list is_null p prefix owner_id o)
  image-Targets p prefix none h = tt
  image-Targets p prefix (some payload) h =
      let session_id = raw_json_string (lookup (codes "session_id") payload) in
      let worker_id = trim_space (trim_prefix prefix session_id) in
      if_cases Targets (not (has_prefix prefix session_id)) _ _ (λ _. λ k. absurd (cc))
        (λ _.
          if_cases Targets (is_empty worker_id) _ _ (λ _. tt)
            (λ _.
              targeted-Targets p worker_id
                (insert (codes "session_id") (string (codes "computerUse")) payload) _ refl))

  exec-Targets :
      (p : PreparedTaskInput) (prefix : Text) (o : Option ExecPayload)
      → is_empty p.target_node_id ≡ true
      → Targets (prepare_terminal_exec r codec encode_list is_null p prefix o)
  exec-Targets p prefix none h = λ k. absurd (cc)
  exec-Targets p prefix (some payload) h =
      let session_id = trim_space payload.session_id in
      if_cases Targets
        (payload.create_if_missing && not (is_empty session_id) && has_prefix prefix session_id) _ _
        (λ _. tt) (λ _. λ k. absurd (cc))

  prepared-Targets :
      (given_prefix capability input_json : Text)
      → Targets (
          prepare_task_input r codec encode_list is_null given_prefix capability owner_id
            input_json)
  unfolding prepare_task_input
  prepared-Targets given_prefix capability input_json =
      let prefix = if is_empty (trim_space given_prefix) then codes "CU:" else given_prefix in
      let c = normalize_capability capability in
      let p : PreparedTaskInput = record {
        input_json = input_json;
        dispatch_capability = c;
        target_node_id = [];
        immediate_result = none;
      } in
      if_cases Targets (text_eq c computer_use) _ _
        (λ _. used_input-Targets p (codec.decode_object input_json) refl)
        (λ _.
          if_cases Targets (text_eq c read_image) _ _
            (λ _. image-Targets p prefix (codec.decode_object input_json) refl)
            (λ _.
              if_cases Targets (text_eq c task_capability_terminal_exec) _ _
                (λ _. exec-Targets p prefix (codec.decode_exec input_json) refl)
                (λ _. λ k. absurd (cc k))))

-- A task whose input is prepared for a worker of its own choice goes to no other than one that is
-- registered under that id, as one of the task's owner and of the type worker-sys, whatever the task's
-- capability, its input and the reserved prefix are.
pub prepare_task_input-IsTarget :
    (r : Registry) (codec : Codec) (encode_list : List WorkerSysListItem → Option Text)
    (is_null : Text → Bool) (given_prefix capability owner_id input_json : Text)
    (p : PreparedTaskInput)
    → prepare_task_input r codec encode_list is_null given_prefix capability owner_id input_json
      ≡ ok p
    → is_empty p.target_node_id ≡ false
    → IsTarget r owner_id p.target_node_id
prepare_task_input-IsTarget r codec encode_list is_null given_prefix capability owner_id input_json
      p h =
    subst (Targets r codec encode_list is_null owner_id) h
      (prepared-Targets r codec encode_list is_null owner_id given_prefix capability input_json)
