-- ===== src/Dispatch/Room.antt =====
-- console/internal/grpcserver/service_dispatch.go: workers with room, and the snapshots of them.
use onlyboxes.Prelude.{
  ℕ, ◌≡◌, refl, sym, ◌∙◌, Bool, false, ◌&&◌, not, Option, none, some, Text, Map, arith, lookup,
  lookup-insert_self, get_elem?, set, get_elem?-set_self, get_elem?-set_ne, ℕ_discrete, is_empty,
  leb, if_cases,
}
use onlyboxes.Session.Defs.{
  ActiveSession, SessionCapability, normalize_capability, max_or_default, has_capability,
  inflight_found, inflight_snapshot, acquire_found, try_acquire_capability,
}
use onlyboxes.Dispatch.Defs.{Worker, Service, put_session, is_usable, acquire_at_found, acquire_at}
use onlyboxes.Dispatch.Pick.{snapshot_at}

abbrev pub room_found : Option SessionCapability → Bool
room_found none = false
room_found (some c) = not (leb (max_or_default c) c.inflight)

-- The session would take one more command.
abbrev pub has_room : ActiveSession → Text → Bool
has_room s capability =
    not (is_empty (normalize_capability capability))
    && room_found (lookup (normalize_capability capability) s.capabilities)

abbrev pub worker_has_room : Text → Option Worker → Bool
worker_has_room capability none = false
worker_has_room capability (some w) = has_room w.session capability

-- Alike for a choice: the same sessions, as usable and with room as before.
pub record IsAlike (capability : Text) (s t : Service) : Type 0 where
  pub same_sessions : t.sessions ≡ s.sessions
  pub same_usable :
      (j : ℕ)
      → is_usable capability (get_elem? t.heap j) ≡ is_usable capability (get_elem? s.heap j)
  pub same_room :
      (j : ℕ)
      → worker_has_room capability (get_elem? t.heap j)
        ≡ worker_has_room capability (get_elem? s.heap j)

pub IsAlike-refl : (capability : Text) (s : Service) → IsAlike capability s s
IsAlike-refl capability s = record {
  same_sessions = refl;
  same_usable = λ j. refl;
  same_room = λ j. refl;
}

pub IsAlike-trans : {c : Text} {s t u : Service} → IsAlike c s t → IsAlike c t u → IsAlike c s u
IsAlike-trans a b = record {
  same_sessions = b.same_sessions ∙ a.same_sessions;
  same_usable = λ j. b.same_usable j ∙ a.same_usable j;
  same_room = λ j. b.same_room j ∙ a.same_room j;
}

inflight_found-keeps :
    (s : ActiveSession) (capability : Text) (o : Option SessionCapability)
    → lookup (normalize_capability capability) s.capabilities ≡ o
    → (has_capability (inflight_found s (normalize_capability capability) o).0 capability
        ≡ has_capability s capability)
      × (has_room (inflight_found s (normalize_capability capability) o).0 capability
          ≡ has_room s capability)
unfolding inflight_found has_capability
inflight_found-keeps s capability none h = (refl, refl)
inflight_found-keeps s capability (some c) h =
    let written =
      lookup-insert_self (normalize_capability capability)
        (record c { max_inflight = max_or_default c }) s.capabilities in
    (ground (arith, written, h), rw (written, h) (ground arith))

snapshot_keeps :
    (s : ActiveSession) (capability : Text)
    → (has_capability (inflight_snapshot s capability).0 capability ≡ has_capability s capability)
      × (has_room (inflight_snapshot s capability).0 capability ≡ has_room s capability)
unfolding inflight_snapshot
snapshot_keeps s capability =
    if_cases
      (λ (x : ActiveSession × Option (ℕ × ℕ)).
        (has_capability x.0 capability ≡ has_capability s capability)
        × (has_room x.0 capability ≡ has_room s capability))
      (is_empty (normalize_capability capability)) _ _ (λ _. (refl, refl))
      (λ _.
        inflight_found-keeps s capability (lookup (normalize_capability capability) s.capabilities)
          refl)

set-IsAlike :
    (s : Service) (capability : Text) (i : ℕ) (w : Worker) (x : ActiveSession)
    → get_elem? s.heap i ≡ some w
    → has_capability x capability ≡ has_capability w.session capability
    → has_room x capability ≡ has_room w.session capability
    → IsAlike capability s (record s { heap = set s.heap i (record w { session = x }) })
set-IsAlike s capability i w x h same room =
    let v = record w { session = x } in
    record {
      same_sessions = refl;
      same_usable = λ j. elim (ℕ_discrete i j) [
        | yes e ↦ rw (sym e, get_elem?-set_self s.heap i v h, h, same) refl
        | no n ↦ rw (get_elem?-set_ne s.heap i j v n) refl
      ];
      same_room = λ j. elim (ℕ_discrete i j) [
        | yes e ↦ rw (sym e, get_elem?-set_self s.heap i v h, h, room) refl
        | no n ↦ rw (get_elem?-set_ne s.heap i j v n) refl
      ];
    }

pub snapshot-IsAlike :
    (s : Service) (capability : Text) (e : Map (Unit {0})) (aware : Bool) (i : ℕ)
    (o : Option Worker)
    → get_elem? s.heap i ≡ o
    → IsAlike capability s (snapshot_at capability e aware s i o).0
unfolding put_session
snapshot-IsAlike s capability e aware i none h = IsAlike-refl capability s
snapshot-IsAlike s capability e aware i (some w) h =
    let k = snapshot_keeps w.session capability in
    rw h (set-IsAlike s capability i w (inflight_snapshot w.session capability).0 h k.0 k.1)

abbrev pub has_more : Option (ℕ × ℕ) → Bool
has_more none = false
has_more (some (inflight, limit)) = not (leb limit inflight)

more_found :
    (s : ActiveSession) (name : Text) (o : Option SessionCapability)
    → has_more (inflight_found s name o).1 ≡ room_found o
unfolding inflight_found
more_found s name none = refl
more_found s name (some c) = refl

-- The snapshot tells whether there is room.
pub snapshot_more :
    (s : Service) (capability : Text) (e : Map (Unit {0})) (aware : Bool) (i : ℕ)
    (o : Option Worker)
    → has_more (snapshot_at capability e aware s i o).1 ≡ worker_has_room capability o
unfolding inflight_snapshot
snapshot_more s capability e aware i none = refl
snapshot_more s capability e aware i (some w) =
    let name = normalize_capability capability in
    ground (arith, more_found w.session name (lookup name w.session.capabilities))

acquire_found-room :
    (s : ActiveSession) (name : Text) (o : Option SessionCapability)
    → (acquire_found s name o).1 ≡ room_found o
unfolding acquire_found
acquire_found-room s name none = refl
acquire_found-room s name (some c) = ground arith

-- A slot is given exactly if there is room.
pub acquire_at-room :
    (s : Service) (capability : Text) (i : ℕ)
    → (acquire_at s capability i).1 ≡ worker_has_room capability (get_elem? s.heap i)
unfolding acquire_at try_acquire_capability
acquire_at-room s capability i = go (get_elem? s.heap i)
  where
    go : (o : Option Worker) → (acquire_at_found s capability i o).1 ≡ worker_has_room capability o
    go none = refl
    go (some w) =
        let name = normalize_capability capability in
        ground (arith, acquire_found-room w.session name (lookup name w.session.capabilities))
