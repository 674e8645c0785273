-- ===== src/Task/Examples.antt =====
-- console/internal/grpcserver/task.go: the theorems at a small concrete table.
use onlyboxes.Prelude.{
  ◌≡◌, ◌≢◌, ◌≤◌, ◌<◌, ◌⊎◌, refl, ap, true, false, none, some, List, [], ◌∷◌, codes, lookup,
  contains, get_elem?, trim_space, trim_left, trim_right, is_space, text_eq, is_empty, pos, negsuc,
}
use onlyboxes.OwnerScope.Payloads.{Codec, terminal_exec}
use onlyboxes.Task.Defs.{
  running, succeeded, async, auto, task_not_found, runs, fails, Task, Service, find_task,
  get_task_by_id,
}
use onlyboxes.Task.Transitions.{Ending, finish_task}
use onlyboxes.Task.Finish.{get_task, cancel_task, cancelled_now, not_cancelled, deadline_exceeded}
use onlyboxes.Task.Execute.{execute_task}
use onlyboxes.Task.Execute
use onlyboxes.Task.Submit
use onlyboxes.Task.Submit.{submit_limits, submit_task, insert_task, submitted}
use onlyboxes.Task.Settled.{IsSettled, execute_task-IsSettled}
use onlyboxes.Task.Steps.{Reach, here, next, finish, last_prune, terminal_task_final}
use onlyboxes.Task.Owners.{
  tasks_are_private, finish_task-releases, cancel_task-open, cancelled_row, cancelled_snapshot,
}
use onlyboxes.Task.Reservations.{submit_limits_bounds, IsFree, submit_task-IsFree}

abbrev a_task : Task
a_task = record {
  task_id = codes "t1";
  owner_id = codes "ann";
  request_id = codes "r1";
  capability = codes "echo";
  input_json = codes "{}";
  status = running;
  command_id = codes "c1";
  result_json = [];
  error_code = [];
  error_message = [];
  created_at = 10;
  updated_at = 20;
  deadline_at = 900;
  completed_at = 0;
  expires_at = 0;
}

abbrev ended : Task
ended = record a_task { status = succeeded; completed_at = 30; expires_at = 500 }

abbrev service : List Task → Service
service ts = record {
  table = ts;
  tasks = (codes "t1", 0) ∷ [];
  records = (record { cancelled = false; done = false }) ∷ [];
  task_request_reservations = [];
  task_retention = 100;
  last_inline_task_prune = 0;
}

named_t1 : is_empty (trim_space (codes "t1")) ≡ false
unfolding trim_space trim_left trim_right is_space
named_t1 = refl

trimmed_t1 : trim_space (codes "t1") ≡ codes "t1"
unfolding trim_space trim_left trim_right is_space
trimmed_t1 = refl

found_t1 : get_task_by_id (service (a_task ∷ [])) (trim_space (codes "t1")) runs ≡ some a_task
unfolding get_task_by_id find_task trim_space trim_left trim_right is_space text_eq
found_t1 = refl

ann_is_not_bob : codes "ann" ≢ trim_space (codes "bob")
unfolding trim_space trim_left trim_right is_space
ann_is_not_bob e = let differ : true ≡ false = ap (contains b'a') e in absurd (cc differ)

tasks_are_private_example :
    (get_task (service (a_task ∷ [])) (codes "t1") (codes "bob") runs ≡ none)
    × (cancel_task (service (a_task ∷ [])) (codes "t1") (codes "bob") (λ s. s) 40 (λ i. runs)
        ≡ (service (a_task ∷ []), not_cancelled task_not_found))
tasks_are_private_example =
    tasks_are_private (service (a_task ∷ [])) (codes "t1") (codes "bob") a_task (λ s. s) 40 runs
      (λ i. runs) found_t1 ann_is_not_bob

own_t1 : codes "ann" ≡ trim_space (codes "ann")
unfolding trim_space trim_left trim_right is_space
own_t1 = refl

cancel_task-open_example :
    ((cancel_task (service (a_task ∷ [])) (codes "t1") (codes "ann") (λ v. v) 40 (λ i. runs)).1
      ≡ cancelled_now (cancelled_snapshot 40 a_task))
    × (get_task_by_id
          (cancel_task (service (a_task ∷ [])) (codes "t1") (codes "ann") (λ v. v) 40 (λ i. runs)).0
          (trim_space (codes "t1"))
          runs
        ≡ some (cancelled_row 40 100 a_task))
cancel_task-open_example =
    cancel_task-open (service (a_task ∷ [])) (codes "t1") (codes "ann") a_task 40 named_t1 found_t1
      own_t1 refl

abbrev success : Ending
success = record {
  status = succeeded;
  result_json = codes "{}";
  error_code = [];
  error_message = [];
}

running_t1 : lookup (trim_space (codes "t1")) (service (a_task ∷ [])).tasks ≡ some 0
unfolding lookup trim_space trim_left trim_right is_space text_eq
running_t1 = refl

finish_task-releases_example :
    (lookup
        (trim_space (codes "t1"))
        (finish_task
          (service (a_task ∷ []))
          (codes "t1")
          success
          none
          40
          (fails (codes "disk"))).0.tasks
      ≡ none)
    × (get_elem?
          (finish_task
            (service (a_task ∷ []))
            (codes "t1")
            success
            none
            40
            (fails (codes "disk"))).0.records
          0
        ≡ some (record { cancelled = true; done = true }))
finish_task-releases_example =
    finish_task-releases (service (a_task ∷ [])) (codes "t1") success none 40 (fails (codes "disk"))
      0 (record { cancelled = false; done = false }) named_t1 running_t1 refl

found_ended : get_task_by_id (service (ended ∷ [])) (codes "t1") runs ≡ some ended
unfolding get_task_by_id find_task text_eq
found_ended = refl

abbrev late :
    Reach
      (service (ended ∷ []))
      (finish_task (service (ended ∷ [])) (codes "t1") success none 40 runs).0
late = next here (finish (codes "t1") success none 40 runs)

terminal_task_final_example :
    (get_task_by_id
        (finish_task (service (ended ∷ [])) (codes "t1") success none 40 runs).0
        (codes "t1")
        runs
      ≡ some ended)
    ⊎ ((0 < 500) × (500 ≤ last_prune late))
terminal_task_final_example = terminal_task_final late (codes "t1") ended found_ended refl

submit_limits_bounds_example :
    (0 < 60000) × (60000 ≤ 600000) × (0 < 1500) × (1500 ≤ 60000) × ((auto ≢ auto) ⊎ (1500 ≤ 60000))
submit_limits_bounds_example =
    submit_limits_bounds auto (pos 0) (negsuc 3) 60000 1500 (unfold submit_limits in refl)

abbrev no_codec : Codec
no_codec = record {
  decode_exec = λ t. none;
  encode_exec = λ p. none;
  decode_resource = λ t. none;
  encode_resource = λ p. none;
  decode_object = λ t. none;
  encode_object = λ m. none;
}

abbrev timed_out : Execute.World
timed_out = record {
  now = 950;
  gap = λ i s. s;
  db = λ i. runs;
  on_dispatched = codes "c2" ∷ codes "c3" ∷ [];
  answer = Execute.fails deadline_exceeded;
  codec = no_codec;
  json_valid = λ t. true;
  echo_payload = λ t. t;
}

execute_task-IsSettled_example :
    IsSettled
      (codes "t1")
      (execute_task timed_out (service (a_task ∷ [])) (codes "t1") (codes "ann") terminal_exec)
execute_task-IsSettled_example =
    execute_task-IsSettled timed_out (service (a_task ∷ [])) (codes "t1") (codes "ann")
      terminal_exec trimmed_t1 refl (λ i. refl) (λ i t h. h)

abbrev quiet : Submit.World
quiet = record {
  now = 50;
  gap = λ i s. s;
  db = λ i. runs;
  wait = none;
  new_task_id = some (codes "t2");
  availability = none;
}

abbrev again : Submit.Prepared
again = record {
  capability = codes "echo";
  owner_id = codes "ann";
  request_id = codes "r1";
  mode = async;
  timeout = 60000;
  input_json = codes "{}";
  immediate_result = none;
}

key_unused_at_first : IsFree again (service [])
unfolding lookup
key_unused_at_first = refl

submit_task-IsFree_example : IsFree again (submit_task quiet (service []) again).0
submit_task-IsFree_example =
    submit_task-IsFree quiet (service []) again refl (λ i t h. h) key_unused_at_first
