-- ===== src/OwnerScope/Examples.antt =====
-- console/internal/grpcserver/task_owner_scope.go: the theorems at small concrete ids and payloads.
use onlyboxes.Prelude.{
  ◌≡◌, ◌≢◌, refl, ap, Bool, true, false, Option, none, some, [], ◌∷◌, Text, Map, codes, arith,
  lookup, contains, trim_space, trim_left, trim_right, is_space, text_eq, text_eq→eq, if◌then◌else◌,
  ℤ, ◌==◌, ◌&&◌,
}
use onlyboxes.OwnerScope.Ids.{
  nul, scope_terminal_session_id, unscope_terminal_session_id, valid_external_terminal_session_id,
  parse_scoped_terminal_session_id, task_request_scope_key, all_session_id_chars,
  is_session_id_char, is_alnum,
}
use onlyboxes.OwnerScope.Payloads.{
  ok, terminal_exec, ResourcePayload, ExecPayload, Value, string, Codec, scope_task_input_by_owner,
  restore_task_result_owner_scope,
}
use onlyboxes.OwnerScope.Isolation.{
  IsOwner, IsSession, parse-scope, unscope-scope_other, task_request_scope_key-injective,
}
use onlyboxes.OwnerScope.Marks.{
  restore_of_other_owner, restore_of_own_session, ExecRoundTrips, IsOwnedExec,
  scope_task_input-owned,
}

abbrev ann : Text
ann = codes "ann"

abbrev bob : Text
bob = codes "bob"

abbrev s1 : Text
s1 = codes "s1"

ann-IsOwner : IsOwner ann
unfolding trim_space trim_left trim_right is_space
ann-IsOwner = record { named = refl; plain = refl }

bob-IsOwner : IsOwner bob
unfolding trim_space trim_left trim_right is_space
bob-IsOwner = record { named = refl; plain = refl }

s1-IsSession : IsSession s1
unfolding trim_space trim_left trim_right is_space
s1-IsSession = refl

bob_is_not_ann : trim_space bob ≢ trim_space ann
unfolding trim_space trim_left trim_right is_space
bob_is_not_ann e = let differ : true ≡ false = ap (contains b'b') e in absurd (cc differ)

parse-scope_example :
    parse_scoped_terminal_session_id (scope_terminal_session_id ann s1)
    ≡ some (trim_space ann, trim_space s1)
parse-scope_example = parse-scope ann s1 ann-IsOwner s1-IsSession

unscope-scope_other_example :
    unscope_terminal_session_id bob (scope_terminal_session_id ann s1) ≡ none
unscope-scope_other_example =
    unscope-scope_other bob ann s1 bob-IsOwner ann-IsOwner s1-IsSession bob_is_not_ann

ann_has_no_nul : contains nul (trim_space ann) ≡ false
unfolding trim_space trim_left trim_right is_space
ann_has_no_nul = refl

same_key : task_request_scope_key ann s1 ≡ task_request_scope_key (codes " ann") s1
unfolding task_request_scope_key trim_space trim_left trim_right is_space
same_key = refl

padded_has_no_nul : contains nul (trim_space (codes " ann")) ≡ false
unfolding trim_space trim_left trim_right is_space
padded_has_no_nul = refl

task_request_scope_key-injective_example :
    (trim_space ann ≡ trim_space (codes " ann")) × (trim_space s1 ≡ trim_space s1)
task_request_scope_key-injective_example =
    task_request_scope_key-injective ann (codes " ann") s1 s1 ann_has_no_nul padded_has_no_nul
      same_key

abbrev request : ExecPayload
request = record {
  command = codes "ls";
  session_id = s1;
  create_if_missing = false;
  lease_ttl_sec = none;
}

-- A codec that keeps one payload, enough for one request.
abbrev payload_of : Text → ExecPayload
payload_of id = record request { session_id = id }

abbrev scoped_result : Map Value
scoped_result = (codes "session_id", string (scope_terminal_session_id ann s1)) ∷ []

abbrev codec : Codec
codec = record {
  decode_exec = λ t. some (payload_of t);
  encode_exec = λ p. none;
  decode_resource = λ t. none;
  encode_resource = λ p. none;
  decode_object = λ t. some scoped_result;
  encode_object = λ m. some (codes "{}");
}

found_session_id :
    lookup (codes "session_id") scoped_result ≡ some (string (scope_terminal_session_id ann s1))
unfolding lookup text_eq
found_session_id = refl

restore_of_other_owner_example :
    restore_task_result_owner_scope codec bob terminal_exec (codes "r") ≡ none
restore_of_other_owner_example =
    restore_of_other_owner codec bob ann s1 (codes "r") terminal_exec scoped_result bob-IsOwner
      ann-IsOwner s1-IsSession bob_is_not_ann refl refl refl found_session_id

restore_of_own_session_example :
    restore_task_result_owner_scope codec ann terminal_exec (codes "r") ≡ some (codes "{}")
restore_of_own_session_example =
    restore_of_own_session codec ann s1 (codes "r") (codes "{}") terminal_exec scoped_result
      ann-IsOwner s1-IsSession refl refl refl found_session_id refl

-- The fields of a request with the command `ls`, no lease and no creation: the session's id says all.
abbrev encode_fields : Text → Text → Bool → Option ℤ → Option Text
encode_fields command session_id false none =
    if text_eq command (codes "ls") then some session_id else none
encode_fields command session_id _ _ = none

abbrev request_codec : Codec
request_codec = record codec {
  encode_exec = λ p. encode_fields p.command p.session_id p.create_if_missing p.lease_ttl_sec;
}

encode_fields-payload_of :
    (command session_id : Text) (create : Bool) (lease : Option ℤ) (t : Text)
    → encode_fields command session_id create lease ≡ some t
    → payload_of t ≡ record {
      command = command;
      session_id = session_id;
      create_if_missing = create;
      lease_ttl_sec = lease;
    }
encode_fields-payload_of command session_id false none t h =
    ground (arith, text_eq→eq command (codes "ls"))
encode_fields-payload_of command session_id false (some l) t h = absurd (cc h)
encode_fields-payload_of command session_id true none t h = absurd (cc h)
encode_fields-payload_of command session_id true (some l) t h = absurd (cc h)

request_codec-ExecRoundTrips : ExecRoundTrips request_codec
request_codec-ExecRoundTrips p t h =
    ap some
      (encode_fields-payload_of p.command p.session_id p.create_if_missing p.lease_ttl_sec t h)

let_through :
    scope_task_input_by_owner request_codec terminal_exec ann s1 none
    ≡ ok (scope_terminal_session_id ann s1)
unfolding scope_task_input_by_owner valid_external_terminal_session_id all_session_id_chars
    is_session_id_char is_alnum trim_space trim_left trim_right is_space text_eq
    scope_terminal_session_id
let_through = refl

scope_task_input-owned_example :
    IsOwnedExec request_codec ann request (scope_terminal_session_id ann s1)
scope_task_input-owned_example =
    scope_task_input-owned request_codec ann s1 (scope_terminal_session_id ann s1) request none
      request_codec-ExecRoundTrips ann-IsOwner refl refl let_through

abbrev headers : Map Text
headers = (codes "content-type", codes "text/plain") ∷ (codes "cookie", codes "x") ∷ []

-- An upload of the file `f`. What was encoded begins with an x, and the session's id follows.
abbrev upload : Text → Map Text → ResourcePayload
upload id m = record {
  session_id = id;
  file_path = codes "f";
  action = codes "upload";
  signed_url = codes "u";
  headers = m;
}

abbrev kept_headers : Map Text
kept_headers = (codes "Content-Type", codes "text/plain") ∷ []

abbrev decode_upload : Text → Option ResourcePayload
decode_upload [] = none
decode_upload (c ∷ id) =
    if c == b'x' then some (upload id kept_headers) else some (upload s1 headers)

abbrev encode_upload : Text → Text → Text → Text → Map Text → Option Text
encode_upload id file action url ((name, value) ∷ []) =
    if text_eq file (codes "f")
      && text_eq action (codes "upload")
      && text_eq url (codes "u")
      && text_eq name (codes "Content-Type")
      && text_eq value (codes "text/plain")
    then some (b'x' ∷ id)
    else none
encode_upload id file action url _ = none

abbrev upload_codec : Codec
upload_codec = record codec {
  decode_resource = decode_upload;
  encode_resource = λ p. encode_upload p.session_id p.file_path p.action p.signed_url p.headers;
}

abbrev sent_upload : Text
sent_upload = b'x' ∷ scope_terminal_session_id ann s1
