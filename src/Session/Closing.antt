-- ===== src/Session/Closing.antt =====
-- console/internal/grpcserver/session_runtime.go: the waiting side when a session ends.
use onlyboxes.Prelude.{
  ◌≡◌, refl, sym, subst, ◌∙◌, true, false, Option, none, some, [], ◌∷◌, Text, Map, arith, lookup,
  ℕ_discrete, trim_space, is_empty, get_elem?,
}
use onlyboxes.Session.Defs.{
  Error, err, ResultCh, PendingCommand, ActiveSession, waiting, closed_with, session_closed,
  default_close_message,
}
use onlyboxes.Session.Pending.{
  register_pending, close_ch, finish_pending, fail_all, close, closed_outcome,
}
use onlyboxes.Session.Results.{
  finish_pending_same, finish_pending-hit, finish_pending-miss, fail_all-closed,
}

-- Each channel of the list gets the error, whatever other channels are closed before it.
fail_all-hit :
    (s : ActiveSession) (e : Error) (todo : Map PendingCommand) (id : Text) (p : PendingCommand)
    → lookup id todo ≡ some p
    → get_elem? s.results p.result_ch ≡ some waiting
    → get_elem? (fail_all s e todo).results p.result_ch
      ≡ some (closed_with (some (closed_outcome e)))
unfolding fail_all lookup
fail_all-hit s e [] id p h k = absurd (cc)
fail_all-hit s e ((j, q) ∷ rest) id p h k = elim (ℕ_discrete q.result_ch p.result_ch) [
  | yes same ↦
      fail_all-closed (finish_pending s q (some (closed_outcome e))) e rest
        (some (closed_outcome e)) p.result_ch
        (subst
          (λ c.
            get_elem? (finish_pending s q (some (closed_outcome e))).results c
            ≡ some (closed_with (some (closed_outcome e))))
          same
          (unfold close_ch in
            finish_pending-hit s q (some (closed_outcome e)) waiting
              (subst (λ c. get_elem? s.results c ≡ some waiting) (sym same) k)))
  | no ne ↦
      fail_all-hit (finish_pending s q (some (closed_outcome e))) e rest id p (ground arith)
        (finish_pending-miss s q (some (closed_outcome e)) p.result_ch ne ∙ k)
]

fail_all_same :
    (s : ActiveSession) (e : Error) (todo : Map PendingCommand)
    → let t = fail_all s e todo in
      (t.pending ≡ s.pending) × (t.done ≡ s.done) × (t.closed_err ≡ s.closed_err)
unfolding fail_all
fail_all_same s e [] = (refl, refl, refl)
fail_all_same s e ((id, p) ∷ rest) =
    let (a, b, c) = fail_all_same (finish_pending s p (some (closed_outcome e))) e rest in
    let (x, y, z) = finish_pending_same s p (some (closed_outcome e)) in (a ∙ x, b ∙ y, c ∙ z)

abbrev closing_error : Option Error → Error
closing_error none = session_closed default_close_message
closing_error (some e) = e

close_lem :
    (s : ActiveSession) (reason : Option Error)
    → s.done ≡ false
    → close s reason
      ≡ fail_all
          (record s { pending = []; done = true; closed_err = some (closing_error reason) })
          (closing_error reason)
          s.pending
unfolding close
close_lem s none h = ground arith
close_lem s (some e) h = ground arith

register_closed :
    (s : ActiveSession) (id c : Text) (e : Error)
    → s.done ≡ true
    → s.closed_err ≡ some e
    → is_empty (trim_space id) ≡ false
    → register_pending s id c ≡ (s, err e)
unfolding register_pending
register_closed s id c e h k n = ground arith

close_twice : (s : ActiveSession) (again : Option Error) → s.done ≡ true → close s again ≡ s
unfolding close
close_twice s again h = ground arith

-- What those that wait for a pending command receive: where its channel was open, the error.
abbrev pub IsTold : Option ResultCh → Option ResultCh → Error → Type 0
IsTold (some waiting) after e = after ≡ some (closed_with (some (closed_outcome e)))
IsTold before after e = Unit {0}

abbrev pub AreTold : ActiveSession → ActiveSession → Error → Option PendingCommand → Type 0
AreTold s t e none = Unit {0}
AreTold s t e (some p) =
    IsTold (get_elem? s.results p.result_ch) (get_elem? t.results p.result_ch) e

fail_all-IsTold :
    (s : ActiveSession) (e : Error) (todo : Map PendingCommand) (id : Text) (p : PendingCommand)
    (before : Option ResultCh)
    → lookup id todo ≡ some p
    → get_elem? s.results p.result_ch ≡ before
    → IsTold before (get_elem? (fail_all s e todo).results p.result_ch) e
fail_all-IsTold s e todo id p none h k = tt
fail_all-IsTold s e todo id p (some (closed_with sent)) h k = tt
fail_all-IsTold s e todo id p (some waiting) h k = fail_all-hit s e todo id p h k

fail_all-AreTold :
    (s : ActiveSession) (e : Error) (todo : Map PendingCommand) (id : Text)
    (o : Option PendingCommand)
    → lookup id todo ≡ o
    → AreTold s (fail_all s e todo) e o
fail_all-AreTold s e todo id none h = tt
fail_all-AreTold s e todo id (some p) h =
    fail_all-IsTold s e todo id p (get_elem? s.results p.result_ch) h refl

-- Closing an open session, for a reason or for none and whether or not commands are pending, leaves
-- the session done and no command pending. From then on a command that has an id is refused with the
-- error of the closing, and closing again changes nothing. If a command is pending under the id that
-- is given and its channel is open, those that wait at the channel receive the error.
pub close_delivers :
    (s : ActiveSession) (reason again : Option Error) (id new_id c : Text)
    → s.done ≡ false
    → is_empty (trim_space new_id) ≡ false
    → let t = close s reason in
      (t.done ≡ true)
      × (t.pending ≡ [])
      × (register_pending t new_id c ≡ (t, err (closing_error reason)))
      × (close t again ≡ t)
      × AreTold s t (closing_error reason) (lookup id s.pending)
close_delivers s reason again id new_id c h n =
    let e = closing_error reason in
    let base : ActiveSession = record s { pending = []; done = true; closed_err = some e } in
    let (none_left, is_done, why) = fail_all_same base e s.pending in
    rw (close_lem s reason h) (
      is_done,
      none_left,
      register_closed (fail_all base e s.pending) new_id c e is_done why n,
      close_twice (fail_all base e s.pending) again is_done,
      fail_all-AreTold base e s.pending id (lookup id s.pending) refl,
    )
