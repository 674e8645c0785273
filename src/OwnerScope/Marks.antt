-- ===== src/OwnerScope/Marks.antt =====
-- console/internal/grpcserver/task_owner_scope.go: the owner's mark on what goes to a worker, and its
-- check on what comes back.
use onlyboxes.Prelude.{
  ◌≡◌, ◌≢◌, ◌⊎◌, inl, inr, refl, subst, Bool, true, false, Option, none, some, [], ◌∷◌, Text, Map,
  codes, arith, lookup, insert, trim_space, trim_space_idem, is_empty, has_prefix, Bool-cases,
}
use onlyboxes.OwnerScope.Ids.{
  scope_terminal_session_id, unscope_terminal_session_id, parse_scoped_terminal_session_id,
}
use onlyboxes.OwnerScope.Isolation.{
  IsOwner, IsSession, parse-scope, unscope-scope_other, unscope-scope_own,
}
use onlyboxes.OwnerScope.Payloads.{
  ok, Capability, terminal_exec, ExecPayload, ResourcePayload, Value, string, Codec,
  filter_terminal_resource_upload_headers, or_internal, scope_new, scope_exec,
  scope_task_input_by_owner, restore_task_result_owner_scope, carries_session,
}

unscope-trim :
    (owner t : Text)
    → unscope_terminal_session_id (trim_space owner) t ≡ unscope_terminal_session_id owner t
unfolding unscope_terminal_session_id
unscope-trim owner t = rw (trim_space_idem owner) refl

IsOwner-trim : (owner : Text) → IsOwner owner → IsOwner (trim_space owner)
IsOwner-trim owner o = record {
  named = rw (trim_space_idem owner) o.named;
  plain = rw (trim_space_idem owner) o.plain;
}

module _ (json : Codec) where
  -- For owners that are not blank and hold no colon: a result of a terminal capability which decodes
  -- to an object that names a session of another owner is not passed on.
  pub restore_of_other_owner :
      (reader owner session result : Text) (capability : Capability) (decoded : Map Value)
      → IsOwner reader
      → IsOwner owner
      → IsSession session
      → trim_space reader ≢ trim_space owner
      → carries_session capability ≡ true
      → is_empty result ≡ false
      → json.decode_object result ≡ some decoded
      → lookup (codes "session_id") decoded
        ≡ some (string (scope_terminal_session_id owner session))
      → restore_task_result_owner_scope json reader capability result ≡ none
  unfolding restore_task_result_owner_scope
  restore_of_other_owner reader owner session result capability decoded r o s ne c nonempty dec
        found =
      ground (
        arith,
        r.named,
        unscope-trim reader (scope_terminal_session_id owner session),
        unscope-scope_other reader owner session r o s ne,
      )

  -- For an owner that is not blank and holds no colon: a result of a terminal capability which
  -- decodes to an object that names a session of the owner is passed on, with the id that the owner
  -- knows the session by in its place, if that can be encoded.
  pub restore_of_own_session :
      (owner session result restored : Text) (capability : Capability) (decoded : Map Value)
      → IsOwner owner
      → IsSession session
      → carries_session capability ≡ true
      → is_empty result ≡ false
      → json.decode_object result ≡ some decoded
      → lookup (codes "session_id") decoded
        ≡ some (string (scope_terminal_session_id owner session))
      → json.encode_object (insert (codes "session_id") (string (trim_space session)) decoded)
        ≡ some restored
      → restore_task_result_owner_scope json owner capability result ≡ some restored
  unfolding restore_task_result_owner_scope
  restore_of_own_session owner session result restored capability decoded o s c nonempty dec found
        enc =
      ground (
        arith,
        o.named,
        unscope-trim owner (scope_terminal_session_id owner session),
        unscope-scope_own owner session o s,
      )

  -- Decoding what was encoded gives it back.
  abbrev pub ExecRoundTrips : Type 0
  ExecRoundTrips =
      (p : ExecPayload) (t : Text) → json.encode_exec p ≡ some t → json.decode_exec t ≡ some p

  -- The payload that stands in `out`: its session is the owner's.
  abbrev pub IsOwnedExec : Text → ExecPayload → Text → Type 0
  IsOwnedExec owner p out =
      (q : ExecPayload) × (session : Text) × (json.decode_exec out ≡ some q)
      × (parse_scoped_terminal_session_id q.session_id
          ≡ some (trim_space owner, trim_space session))
      × (q.command ≡ p.command)
      × (q.lease_ttl_sec ≡ p.lease_ttl_sec)

  encoded :
      (owner session out : Text) (p : ExecPayload) (create : Bool)
      → ExecRoundTrips
      → IsOwner owner
      → IsSession session
      → or_internal (
          json.encode_exec (record p {
            session_id = scope_terminal_session_id owner session;
            create_if_missing = create;
          }))
        ≡ ok out
      → IsOwnedExec owner p out
  encoded owner session out p create law o s h = (
    record p { session_id = scope_terminal_session_id owner session; create_if_missing = create },
    session,
    law _ out (ground arith),
    parse-scope owner session o s,
    refl,
    refl,
  )

  scope_new_owned :
      (owner out : Text) (p : ExecPayload) (created : Option Text)
      → ExecRoundTrips
      → IsOwner owner
      → scope_new json owner p created ≡ ok out
      → IsOwnedExec owner p out
  scope_new_owned owner out p none law o h = absurd (cc)
  scope_new_owned owner out p (some c) law o h = elim (Bool-cases (is_empty (trim_space c))) [
    | inl e ↦ absurd (ground arith)
    | inr e ↦
        encoded owner (trim_space c) out p true law o (rw (trim_space_idem c) e) (ground arith)
  ]

  scope_exec_owned :
      (owner input out : Text) (p : ExecPayload) (created : Option Text)
      → ExecRoundTrips
      → IsOwner owner
      → scope_exec json owner input created (some p) ≡ ok out
      → IsOwnedExec owner p out
  scope_exec_owned owner input out p created law o h =
      elim (Bool-cases (is_empty (trim_space p.session_id))) [
        | inl e ↦ scope_new_owned owner out p created law o (ground arith)
        | inr e ↦
            encoded owner (trim_space p.session_id) out p p.create_if_missing law o
              (rw (trim_space_idem p.session_id) e) (ground arith)
      ]

  -- For an owner that is not blank and holds no colon, and an encoding that decodes to what was
  -- encoded: an exec payload that decodes and is let through to a worker names a session of the
  -- owner, whether the request named the session or a new id was made for it, and keeps the command
  -- and the lease that were asked for.
  pub scope_task_input-owned :
      (owner input out : Text) (p : ExecPayload) (created : Option Text)
      → ExecRoundTrips
      → IsOwner owner
      → is_empty input ≡ false
      → json.decode_exec input ≡ some p
      → scope_task_input_by_owner json terminal_exec owner input created ≡ ok out
      → IsOwnedExec owner p out
  unfolding scope_task_input_by_owner
  scope_task_input-owned owner input out p created law o nonempty dec h =
      subst
        (λ (t : Text).
          (q : ExecPayload) × (session : Text) × (json.decode_exec out ≡ some q)
          × (parse_scoped_terminal_session_id q.session_id ≡ some (t, trim_space session))
          × (q.command ≡ p.command)
          × (q.lease_ttl_sec ≡ p.lease_ttl_sec))
        (trim_space_idem owner)
        (scope_exec_owned (trim_space owner) input out p created law (IsOwner-trim owner o)
          (ground (arith, o.named)))

-- The headers that the console lets a worker send with an upload.
abbrev pub IsUploadHeader : Text → Type 0
IsUploadHeader k =
    (k ≡ codes "Content-Type") ⊎ (k ≡ codes "Content-MD5") ⊎ (has_prefix (codes "x-amz-") k ≡ true)

-- Every header of the map has such a name.
abbrev pub AreUploadHeaders : Map Text → Type 0
AreUploadHeaders [] = Unit {0}
AreUploadHeaders ((k, v) ∷ m) = IsUploadHeader k × AreUploadHeaders m

-- What the console makes of a resource payload for an owner: the session's id carries the owner, the
-- headers are filtered, and all else is as it was.
abbrev marked_resource : Text → ResourcePayload → ResourcePayload
marked_resource owner p = record p {
  session_id = scope_terminal_session_id owner (trim_space p.session_id);
  headers = filter_terminal_resource_upload_headers p.headers;
}

module _ (json : Codec) where
  -- Decoding what was encoded gives it back.
  abbrev pub ResourceRoundTrips : Type 0
  ResourceRoundTrips =
      (p : ResourcePayload) (t : Text)
      → json.encode_resource p ≡ some t
      → json.decode_resource t ≡ some p

  -- The payload that stands in `out`: its session is the owner's, and its headers are those of an
  -- upload.
  abbrev pub IsOwnedResource : Text → ResourcePayload → Text → Type 0
  IsOwnedResource owner p out =
      (q : ResourcePayload) × (json.decode_resource out ≡ some q)
      × (parse_scoped_terminal_session_id q.session_id
          ≡ some (trim_space owner, trim_space p.session_id))
      × (q.file_path ≡ p.file_path)
      × (q.action ≡ p.action)
      × (q.signed_url ≡ p.signed_url)
      × AreUploadHeaders q.headers
