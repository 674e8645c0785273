-- ===== src/OwnerScope/Isolation.antt =====
-- console/internal/grpcserver/task_owner_scope.go: scoped ids, and their reading by owners.
use mathlib.Core.List.{append_assoc}
use onlyboxes.Prelude.{
  ◌≡◌, ◌≢◌, refl, sym, ap, ◌∙◌, false, none, some, [], ◌∷◌, ◌++◌, Text, arith, trim_space,
  trim_space_idem, is_empty, is_space, text_eq_refl, has_prefix, trim_prefix, cut, cut-append,
  contains, has_prefix-append, trim_prefix-append, has_prefix-append_left, field_prefix, IsTrimmed,
  IsTrimmed-append, if◌then◌else◌, Bool-cases, inl, inr, subst,
}
use onlyboxes.OwnerScope.Ids.{
  colon, nul, task_owner_scope_prefix, task_request_scope_key, scoped, scope_terminal_session_id,
  parse_scoped_terminal_session_id, unscope_terminal_session_id, owner_prefix, parse_parts,
  split_scoped, split_first, split_second, non_empty,
}

-- An owner's id as the console issues it: not blank, and without the separator.
pub record IsOwner (owner : Text) : Type 0 where
  pub named : is_empty (trim_space owner) ≡ false
  pub plain : contains colon (trim_space owner) ≡ false

abbrev pub IsSession : Text → Type 0
IsSession session = is_empty (trim_space session) ≡ false

scope-scoped :
    (owner session : Text)
    → IsOwner owner
    → IsSession session
    → scope_terminal_session_id owner session ≡ scoped (trim_space owner) (trim_space session)
unfolding scope_terminal_session_id
scope-scoped owner session o s = ground arith

scoped-append : (owner session : Text) → scoped owner session ≡ owner_prefix owner ++ session
scoped-append owner session =
    ap (λ (t : Text). task_owner_scope_prefix ++ colon ∷ t)
      (sym (append_assoc owner (colon ∷ []) session))

scoped-IsTrimmed :
    (owner session : Text)
    → IsTrimmed session
    → is_empty session ≡ false
    → IsTrimmed (scoped owner session)
scoped-IsTrimmed owner session t e = subst IsTrimmed (sym (scoped-append owner session)) (
    IsTrimmed-append b'o' (b'b' ∷ b'x' ∷ colon ∷ (owner ++ colon ∷ [])) session
      (unfold is_space in refl) t e)

split_scoped-scoped :
    (owner session : Text)
    → contains colon owner ≡ false
    → split_scoped (scoped owner session) ≡ some (task_owner_scope_prefix, owner, session)
unfolding split_scoped
split_scoped-scoped owner session h =
    ap split_first (cut-append colon task_owner_scope_prefix (owner ++ colon ∷ session) refl)
    ∙ ap (split_second task_owner_scope_prefix) (cut-append colon owner session h)

-- An owner that is not blank and holds no colon, and a session that is not blank, are read back from
-- the id that was made of them, without the spaces that stood around them.
pub parse-scope :
    (owner session : Text)
    → IsOwner owner
    → IsSession session
    → parse_scoped_terminal_session_id (scope_terminal_session_id owner session)
      ≡ some (trim_space owner, trim_space session)
unfolding parse_scoped_terminal_session_id
parse-scope owner session o s =
    ap (λ (t : Text). parse_parts (split_scoped (trim_space t))) (scope-scoped owner session o s)
    ∙ ap (λ (t : Text). parse_parts (split_scoped t))
        (scoped-IsTrimmed (trim_space owner) (trim_space session) (trim_space_idem session) s)
    ∙ ap parse_parts (split_scoped-scoped (trim_space owner) (trim_space session) o.plain)
    ∙ ground (
      arith,
      o.named,
      s,
      trim_space_idem owner,
      trim_space_idem session,
      text_eq_refl task_owner_scope_prefix,
    )

unscope_lem :
    (owner t : Text)
    → is_empty (trim_space owner) ≡ false
    → is_empty (trim_space t) ≡ false
    → unscope_terminal_session_id owner t ≡ (
        if has_prefix (owner_prefix (trim_space owner)) (trim_space t)
        then non_empty (trim_space (trim_prefix (owner_prefix (trim_space owner)) (trim_space t)))
        else none)
unfolding unscope_terminal_session_id
unscope_lem owner t h k = ground arith

trim_space-scoped :
    (owner session : Text)
    → IsSession session
    → trim_space (scoped owner (trim_space session)) ≡ owner_prefix owner ++ trim_space session
trim_space-scoped owner session s =
    scoped-IsTrimmed owner (trim_space session) (trim_space_idem session) s
    ∙ scoped-append owner (trim_space session)

unscope-scoped :
    (reader owner session : Text)
    → IsOwner reader
    → IsOwner owner
    → IsSession session
    → unscope_terminal_session_id reader (scope_terminal_session_id owner session) ≡ (
        if has_prefix
          (owner_prefix (trim_space reader))
          (owner_prefix (trim_space owner) ++ trim_space session)
        then non_empty (
            trim_space (
              trim_prefix
                (owner_prefix (trim_space reader))
                (owner_prefix (trim_space owner) ++ trim_space session)))
        else none)
unscope-scoped reader owner session r o s =
    let at_scope = trim_space-scoped (trim_space owner) session s in
    ap (unscope_terminal_session_id reader) (scope-scoped owner session o s)
    ∙ unscope_lem reader (scoped (trim_space owner) (trim_space session)) r.named
        (ap is_empty at_scope)
    ∙ ap
        (λ (t : Text).
          if has_prefix (owner_prefix (trim_space reader)) t
          then non_empty (trim_space (trim_prefix (owner_prefix (trim_space reader)) t))
          else none)
        at_scope

-- An owner that is not blank and holds no colon gets its own session's id back, trimmed, from the id
-- that was made of the two.
pub unscope-scope_own :
    (owner session : Text)
    → IsOwner owner
    → IsSession session
    → unscope_terminal_session_id owner (scope_terminal_session_id owner session)
      ≡ some (trim_space session)
unscope-scope_own owner session o s =
    unscope-scoped owner owner session o o s
    ∙ ground (
      arith,
      s,
      trim_space_idem session,
      has_prefix-append (owner_prefix (trim_space owner)) (trim_space session),
      trim_prefix-append (owner_prefix (trim_space owner)) (trim_space session),
    )

other_prefix :
    (reader owner session : Text)
    → contains colon reader ≡ false
    → contains colon owner ≡ false
    → reader ≢ owner
    → has_prefix (owner_prefix reader) (owner_prefix owner ++ session) ≡ false
other_prefix reader owner session r o ne =
    elim (Bool-cases (has_prefix (owner_prefix reader) (owner_prefix owner ++ session))) [
      | inl e ↦ absurd (
          ne (
            field_prefix colon reader owner session r o (
              ap (has_prefix (reader ++ colon ∷ [])) (sym (append_assoc owner (colon ∷ []) session))
              ∙ sym (
                  has_prefix-append_left (task_owner_scope_prefix ++ colon ∷ [])
                    (reader ++ colon ∷ []) ((owner ++ colon ∷ []) ++ session))
              ∙ e)))
      | inr e ↦ e
    ]

-- Of two owners that are not blank, hold no colon and differ after trimming, the one can not read a
-- session id that was made for the other, whatever the session is called.
pub unscope-scope_other :
    (reader owner session : Text)
    → IsOwner reader
    → IsOwner owner
    → IsSession session
    → trim_space reader ≢ trim_space owner
    → unscope_terminal_session_id reader (scope_terminal_session_id owner session) ≡ none
unscope-scope_other reader owner session r o s ne =
    unscope-scoped reader owner session r o s
    ∙ ground (
      arith,
      other_prefix (trim_space reader) (trim_space owner) (trim_space session) r.plain o.plain ne,
    )

-- For owners whose ids have no NUL: two requests have one key only if their owners and their request
-- ids agree after trimming.
pub task_request_scope_key-injective :
    (a b r q : Text)
    → contains nul (trim_space a) ≡ false
    → contains nul (trim_space b) ≡ false
    → task_request_scope_key a r ≡ task_request_scope_key b q
    → (trim_space a ≡ trim_space b) × (trim_space r ≡ trim_space q)
unfolding task_request_scope_key
task_request_scope_key-injective a b r q h k e =
    let same =
      sym (cut-append nul (trim_space a) (trim_space r) h)
      ∙ ap (cut nul) e
      ∙ cut-append nul (trim_space b) (trim_space q) k in
    (cc same, cc same)
