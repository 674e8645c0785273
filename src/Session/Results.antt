-- ===== src/Session/Results.antt =====
-- console/internal/grpcserver/session_runtime.go: the waiting side of a command.
use onlyboxes.Prelude.{
  ℕ, ◌≡◌, ◌≢◌, inl, inr, refl, sym, ap, subst, ◌∙◌, false, Option, none, some, List, [], ◌∷◌, Text,
  Map, arith, lookup, remove, lookup-remove_self, get_elem?-set_self, get_elem?-set_ne, ℕ_discrete,
  trim_space, is_empty, Option-cases, get_elem?,
}
use onlyboxes.Session.Defs.{
  Error, CommandOutcome, PendingCommand, ActiveSession, ResultCh, waiting, closed_with,
  release_capability,
}
use onlyboxes.Session.Pending.{
  CommandResult, take_pending, close_ch, close_result, finish_pending, finish_taken,
  unregister_pending, resolve_pending, outcome_of, fail_all, closed_outcome,
}

release_capability_same :
    (s : ActiveSession) (c : Text)
    → let t = release_capability s c in
      (t.results ≡ s.results)
      × (t.pending ≡ s.pending)
      × (t.done ≡ s.done)
      × (t.closed_err ≡ s.closed_err)
unfolding release_capability
release_capability_same s c = ground arith

pub finish_pending_same :
    (s : ActiveSession) (p : PendingCommand) (o : Option CommandOutcome)
    → let t = finish_pending s p o in
      (t.pending ≡ s.pending) × (t.done ≡ s.done) × (t.closed_err ≡ s.closed_err)
unfolding finish_pending
finish_pending_same s p o = ground (arith, release_capability_same s p.capability)

close_result-hit :
    (s : ActiveSession) (p : PendingCommand) (o : Option CommandOutcome) (x : ResultCh)
    → get_elem? s.results p.result_ch ≡ some x
    → get_elem? (close_result s p o).results p.result_ch ≡ some (close_ch x o)
unfolding close_result
close_result-hit s p o x h =
    ground (arith, get_elem?-set_self s.results p.result_ch (close_ch x o) h)

close_result-miss :
    (s : ActiveSession) (p : PendingCommand) (o : Option CommandOutcome) (ch : ℕ)
    → p.result_ch ≢ ch
    → get_elem? (close_result s p o).results ch ≡ get_elem? s.results ch
unfolding close_result
close_result-miss s p o ch ne = elim (Option-cases (get_elem? s.results p.result_ch)) [
  | inl e ↦ rw (e, close_result) refl
  | inr (x, e) ↦ rw (e, close_result) (get_elem?-set_ne s.results p.result_ch ch (close_ch x o) ne)
]

pub finish_pending-hit :
    (s : ActiveSession) (p : PendingCommand) (o : Option CommandOutcome) (x : ResultCh)
    → get_elem? s.results p.result_ch ≡ some x
    → get_elem? (finish_pending s p o).results p.result_ch ≡ some (close_ch x o)
unfolding finish_pending
finish_pending-hit s p o x h = close_result-hit (release_capability s p.capability) p o x (
    ap (λ (l : List ResultCh). get_elem? l p.result_ch) (release_capability_same s p.capability).0
    ∙ h)

pub finish_pending-miss :
    (s : ActiveSession) (p : PendingCommand) (o : Option CommandOutcome) (ch : ℕ)
    → p.result_ch ≢ ch
    → get_elem? (finish_pending s p o).results ch ≡ get_elem? s.results ch
unfolding finish_pending
finish_pending-miss s p o ch ne =
    close_result-miss (release_capability s p.capability) p o ch ne
    ∙ ap (λ (l : List ResultCh). get_elem? l ch) (release_capability_same s p.capability).0

-- A channel that has its outcome keeps it through the end of any command.
finish_pending-closed :
    (s : ActiveSession) (p : PendingCommand) (o sent : Option CommandOutcome) (ch : ℕ)
    → get_elem? s.results ch ≡ some (closed_with sent)
    → get_elem? (finish_pending s p o).results ch ≡ some (closed_with sent)
finish_pending-closed s p o sent ch h = elim (ℕ_discrete p.result_ch ch) [
  | yes e ↦
      subst (λ c. get_elem? (finish_pending s p o).results c ≡ some (closed_with sent)) e
        (unfold close_ch in
          finish_pending-hit s p o (closed_with sent)
            (subst (λ c. get_elem? s.results c ≡ some (closed_with sent)) (sym e) h))
  | no ne ↦ finish_pending-miss s p o ch ne ∙ h
]

take_pending-some :
    (s : ActiveSession) (id : Text) (p : PendingCommand)
    → is_empty (trim_space id) ≡ false
    → lookup (trim_space id) s.pending ≡ some p
    → take_pending s id ≡ (record s { pending = remove (trim_space id) s.pending }, some p)
unfolding take_pending
take_pending-some s id p e h = ground arith

take_pending-none :
    (s : ActiveSession) (id : Text)
    → lookup (trim_space id) s.pending ≡ none
    → take_pending s id ≡ (s, none)
unfolding take_pending
take_pending-none s id h = ground arith

unregister_pending-none :
    (s : ActiveSession) (id : Text)
    → lookup (trim_space id) s.pending ≡ none
    → unregister_pending s id ≡ s
unfolding unregister_pending
unregister_pending-none s id h =
    ap (λ (x : ActiveSession × Option PendingCommand). finish_taken x none)
      (take_pending-none s id h)

module _ (parse_echo : Text → Option Text) (now : ℕ) where
  resolve_pending-none :
      (s : ActiveSession) (r : CommandResult)
      → lookup (trim_space r.command_id) s.pending ≡ none
      → resolve_pending parse_echo now s r ≡ s
  unfolding resolve_pending
  resolve_pending-none s r h =
      ap
        (λ (x : ActiveSession × Option PendingCommand).
          finish_taken x (some (outcome_of parse_echo now r r.error)))
        (take_pending-none s r.command_id h)

  resolve_pending-some :
      (s : ActiveSession) (r : CommandResult) (p : PendingCommand)
      → is_empty (trim_space r.command_id) ≡ false
      → lookup (trim_space r.command_id) s.pending ≡ some p
      → resolve_pending parse_echo now s r
        ≡ finish_pending
            (record s { pending = remove (trim_space r.command_id) s.pending })
            p
            (some (outcome_of parse_echo now r r.error))
  unfolding resolve_pending
  resolve_pending-some s r p e h =
      ap
        (λ (x : ActiveSession × Option PendingCommand).
          finish_taken x (some (outcome_of parse_echo now r r.error)))
        (take_pending-some s r.command_id p e h)

-- A result for a pending command reaches the channel on which its dispatcher waits, as the
-- channel's one outcome, and the command is pending no more: a second result for the same id and
-- the dispatcher's own unregistering change nothing.
pub resolve_pending_once :
    (parse_echo : Text → Option Text) (now later : ℕ) (s : ActiveSession) (r again : CommandResult)
    (p : PendingCommand)
    → is_empty (trim_space r.command_id) ≡ false
    → lookup (trim_space r.command_id) s.pending ≡ some p
    → get_elem? s.results p.result_ch ≡ some waiting
    → trim_space again.command_id ≡ trim_space r.command_id
    → let t = resolve_pending parse_echo now s r in
      (get_elem? t.results p.result_ch
        ≡ some (closed_with (some (outcome_of parse_echo now r r.error))))
      × (lookup (trim_space r.command_id) t.pending ≡ none)
      × (resolve_pending parse_echo later t again ≡ t)
      × (unregister_pending t r.command_id ≡ t)
resolve_pending_once parse_echo now later s r again p named found open_ same =
    let o = outcome_of parse_echo now r r.error in
    let rest : ActiveSession = record s { pending = remove (trim_space r.command_id) s.pending } in
    let t : ActiveSession = finish_pending rest p (some o) in
    let gone : lookup (trim_space r.command_id) t.pending ≡ none =
      ap (lookup (trim_space r.command_id)) (finish_pending_same rest p (some o)).0
      ∙ lookup-remove_self (trim_space r.command_id) s.pending in
    rw (resolve_pending-some parse_echo now s r p named found) (
      unfold close_ch in finish_pending-hit rest p (some o) waiting open_,
      gone,
      resolve_pending-none parse_echo later t again
          (ap (λ (k : Text). lookup k t.pending) same ∙ gone),
      unregister_pending-none t r.command_id gone,
    )

pub fail_all-closed :
    (s : ActiveSession) (e : Error) (todo : Map PendingCommand) (sent : Option CommandOutcome)
    (ch : ℕ)
    → get_elem? s.results ch ≡ some (closed_with sent)
    → get_elem? (fail_all s e todo).results ch ≡ some (closed_with sent)
unfolding fail_all
fail_all-closed s e [] sent ch h = h
fail_all-closed s e ((id, p) ∷ rest) sent ch h =
    fail_all-closed (finish_pending s p (some (closed_outcome e))) e rest sent ch
      (finish_pending-closed s p (some (closed_outcome e)) sent ch h)
