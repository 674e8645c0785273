-- ===== src/Dispatch/Names.antt =====
-- console/internal/grpcserver/service_dispatch.go: sessions keep their worker's id.
use onlyboxes.Prelude.{
  ℕ, ◌+◌, ◌≡◌, refl, sym, ◌∙◌, Bool, true, false, Option, none, some, List, Text, lookup, get_elem?,
  set, get_elem?-set_self, get_elem?-set_ne, ℕ_discrete, trim_space, is_empty, if_cases,
}
use onlyboxes.Session.Defs.{ActiveSession, try_acquire_capability, release_capability}
use onlyboxes.Dispatch.Defs.{
  Worker, Service, Result, ok, err, Gap, pause, get_session, put_found, put_session, is_usable,
  acquire_at_found, acquire_at, release_at_found, release_at, acquired_or_full, pick_node_found,
  pick_session_for_node_and_capability,
}

abbrev pub name_of : Option Worker → Option Text
name_of none = none
name_of (some w) = some w.node_id

abbrev pub name_at : Service → ℕ → Option Text
name_at s i = name_of (get_elem? s.heap i)

-- Every session that is listed has the id that it is listed under, which is trimmed.
abbrev pub IsNamed : Service → Type 0
IsNamed s =
    (n : Text) (i : ℕ) → lookup n s.sessions ≡ some i → (name_at s i ≡ some n) × (trim_space n ≡ n)

-- Sessions keep their ids, and what is listed afterwards is listed under its id.
pub record Moves (s t : Service) : Type 0 where
  pub keeps : (i : ℕ) (n : Text) → name_at s i ≡ some n → name_at t i ≡ some n
  pub names : IsNamed s → IsNamed t

pub Moves-refl : (s : Service) → Moves s s
Moves-refl s = record { keeps = λ i n h. h; names = λ h. h }

pub Moves-trans : {s t u : Service} → Moves s t → Moves t u → Moves s u
Moves-trans a b = record {
  keeps = λ i n h. b.keeps i n (a.keeps i n h);
  names = λ h. b.names (a.names h);
}

-- What the other goroutines do in a pause.
pub record IsFair (gap : Gap) : Type 0 where
  pub gap-Moves : (k : ℕ) (s : Service) → Moves s (gap k s)

pub pause-Moves : {gap : Gap} → IsFair gap → (s : Service) → Moves s (pause gap s)
unfolding pause
pause-Moves fair s =
    let m = fair.gap-Moves s.pauses (record s { pauses = s.pauses + 1 }) in
    record { keeps = m.keeps; names = m.names }

name_of-set :
    (heap : List Worker) (i j : ℕ) (w : Worker) (session : ActiveSession)
    → get_elem? heap i ≡ some w
    → name_of (get_elem? (set heap i (record w { session = session })) j)
      ≡ name_of (get_elem? heap j)
name_of-set heap i j w session h = elim (ℕ_discrete i j) [
  | yes e ↦ rw (sym e, get_elem?-set_self heap i (record w { session = session }) h, h) refl
  | no n ↦ rw (get_elem?-set_ne heap i j (record w { session = session }) n) refl
]

put_found-name :
    (heap : List Worker) (i j : ℕ) (o : Option Worker) (session : ActiveSession)
    → get_elem? heap i ≡ o
    → name_of (get_elem? (put_found heap i o session) j) ≡ name_of (get_elem? heap j)
put_found-name heap i j none session h = refl
put_found-name heap i j (some w) session h = name_of-set heap i j w session h

pub put_session-Moves :
    (s : Service) (i : ℕ) (session : ActiveSession) → Moves s (put_session s i session)
unfolding put_session
put_session-Moves s i session =
    let same : (j : ℕ) → name_at (put_session s i session) j ≡ name_at s j =
      λ j. put_found-name s.heap i j (get_elem? s.heap i) session refl in
    record {
      keeps = λ j n h. same j ∙ h;
      names = λ named n j h. (same j ∙ (named n j h).0, (named n j h).1);
    }

pub acquire_at-Moves :
    (s : Service) (capability : Text) (i : ℕ) → Moves s (acquire_at s capability i).0
unfolding acquire_at
acquire_at-Moves s capability i = go (get_elem? s.heap i)
  where
    go : (o : Option Worker) → Moves s (acquire_at_found s capability i o).0
    go none = Moves-refl s
    go (some w) = put_session-Moves s i (try_acquire_capability w.session capability).0

pub release_at-Moves :
    (s : Service) (capability : Text) (i : ℕ) → Moves s (release_at s capability i)
unfolding release_at
release_at-Moves s capability i = go (get_elem? s.heap i)
  where
    go : (o : Option Worker) → Moves s (release_at_found s capability i o)
    go none = Moves-refl s
    go (some w) = put_session-Moves s i (release_capability w.session capability)

-- What a choice of the worker `n` gives.
abbrev pub Found : Text → Service → Service × Result ℕ → Type 0
Found n s (t, ok i) = Moves s t × (name_at t i ≡ some n)
Found n s (t, err e) = Moves s t

acquired-Found :
    (s : Service) (n : Text) (i : ℕ) (r : Service × Bool)
    → name_at s i ≡ some n
    → Moves s r.0
    → Found n s (acquired_or_full i r)
acquired-Found s n i (t, true) h m = (m, m.keeps i n h)
acquired-Found s n i (t, false) h m = m

pick_node-Found :
    (s : Service) (n capability : Text) (o : Option ℕ)
    → lookup n s.sessions ≡ o
    → IsNamed s
    → Found n s (pick_node_found s capability o)
pick_node-Found s n capability none h named = Moves-refl s
pick_node-Found s n capability (some i) h named =
    if_cases (Found n s) (is_usable capability (get_elem? s.heap i)) _ _
      (λ _.
        acquired-Found s n i (acquire_at s capability i) (named n i h).0
          (acquire_at-Moves s capability i))
      (λ _. Moves-refl s)

pub pick_for_node-Found :
    (s : Service) (node capability : Text)
    → IsNamed s
    → Found (trim_space node) s (pick_session_for_node_and_capability s node capability)
unfolding pick_session_for_node_and_capability get_session
pick_for_node-Found s node capability named =
    if_cases (Found (trim_space node) s) (is_empty (trim_space node)) _ _ (λ _. Moves-refl s)
      (λ _.
        pick_node-Found s (trim_space node) capability (lookup (trim_space node) s.sessions) refl
          named)
