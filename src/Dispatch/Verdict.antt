-- ===== src/Dispatch/Verdict.antt =====
-- console/internal/grpcserver/service_dispatch.go: what `pickSessionForCapability` answers.
use onlyboxes.Prelude.{
  ℕ, ◌+◌, ◌%◌, ◌^◌, ◌≡◌, refl, ◌∙◌, Bool, true, false, ◌||◌, Option, none, some, List, [], ◌∷◌,
  ◌++◌, Text, Map, arith, get_elem?, leb, if◌then◌else◌, if_cases,
}
use onlyboxes.Dispatch.Defs.{Service, no_worker_capacity, Result, ok, err, Gap, pause}
use onlyboxes.Dispatch.Pick.{
  Candidate, Scan, rotate, scan_nodes, insert_candidate, sort_candidates, try_candidates, order,
  picked_or_refused, pick_session_for_capability,
}
use onlyboxes.Dispatch.Room.{worker_has_room, IsAlike, acquire_at-room}
use onlyboxes.Dispatch.Offers.{
  any, any-rotate, is_cons, finds, serves, offers, AllRoom, pause-IsAlike, scan-Sees,
}

pub data Verdict : Type 0 where
  granted full nobody : Verdict

abbrev pub verdict : Result ℕ → Verdict
verdict (ok i) = granted
verdict (err no_worker_capacity) = full
verdict (err _) = nobody

abbrev is_some : Option ℕ → Bool
is_some none = false
is_some (some i) = true

module _ (capability : Text) (e : Map (Unit {0})) (aware : Bool) where
  abbrev Rooms : Service → List Candidate → Type 0
  Rooms s cs = AllRoom capability e aware s cs

  append-Rooms :
      (s : Service) (cs ds : List Candidate) → Rooms s cs → Rooms s ds → Rooms s (cs ++ ds)
  append-Rooms s [] ds f g = g
  append-Rooms s (c ∷ cs) ds f g = (f.0, append-Rooms s cs ds f.1 g)

  insert-Rooms :
      (s : Service) (c : Candidate) (cs : List Candidate)
      → worker_has_room capability (get_elem? s.heap c.session) ≡ true
      → Rooms s cs
      → Rooms s (insert_candidate c cs)
  unfolding insert_candidate
  insert-Rooms s c [] f g = (f, tt)
  insert-Rooms s c (d ∷ ds) f g =
      if_cases (Rooms s) (leb c.inflight d.inflight) _ _ (λ _. (f, g))
        (λ _. (g.0, insert-Rooms s c ds f g.1))

  sort-Rooms : (s : Service) (cs : List Candidate) → Rooms s cs → Rooms s (sort_candidates cs)
  unfolding sort_candidates
  sort-Rooms s [] f = tt
  sort-Rooms s (c ∷ cs) f = insert-Rooms s c (sort_candidates cs) f.0 (sort-Rooms s cs f.1)

  insert-is_cons : (c : Candidate) (cs : List Candidate) → is_cons (insert_candidate c cs) ≡ true
  unfolding insert_candidate
  insert-is_cons c [] = refl
  insert-is_cons c (d ∷ ds) = ground arith

  sort-is_cons : (cs : List Candidate) → is_cons (sort_candidates cs) ≡ is_cons cs
  unfolding sort_candidates
  sort-is_cons [] = refl
  sort-is_cons (c ∷ cs) = insert-is_cons c (sort_candidates cs)

  append-is_cons : (cs ds : List Candidate) → is_cons (cs ++ ds) ≡ (is_cons cs || is_cons ds)
  append-is_cons [] ds = refl
  append-is_cons (c ∷ cs) ds = refl

  order-is_cons : (scan : Scan) → is_cons (order scan) ≡ finds scan
  order-is_cons scan = ground (
    arith,
    sort-is_cons scan.available,
    sort-is_cons scan.unknown_capacity,
    sort-is_cons scan.full,
    append-is_cons (sort_candidates scan.available)
        (sort_candidates scan.unknown_capacity ++ sort_candidates scan.full),
    append-is_cons (sort_candidates scan.unknown_capacity) (sort_candidates scan.full),
  )

  Rooms-alike :
      (s t : Service) (cs : List Candidate) → IsAlike capability s t → Rooms s cs → Rooms t cs
  Rooms-alike s t [] a h = tt
  Rooms-alike s t (c ∷ cs) a h = (a.same_room c.session ∙ h.0, Rooms-alike s t cs a h.1)

  -- The first candidate gives a slot.
  try_some :
      (gap : Gap) (cs : List Candidate) (s : Service)
      → IsAlike capability s (pause gap s)
      → Rooms s cs
      → is_some (try_candidates gap capability cs s).1 ≡ is_cons cs
  unfolding try_candidates
  try_some gap [] s a h = refl
  try_some gap (c ∷ cs) s a h =
      rw (acquire_at-room (pause gap s) capability c.session, a.same_room c.session, h.0) refl

  picked-verdict :
      (b : Bool) (x : Service × Option ℕ)
      → verdict (picked_or_refused b x).1
        ≡ (if is_some x.1 then granted else if b then full else nobody)
  picked-verdict b (s, some i) = refl
  picked-verdict true (s, none) = refl
  picked-verdict false (s, none) = refl

-- Where other goroutines leave it as it is which workers are connected, ready and have room: a worker is
-- picked exactly if one that the registry lists is connected, ready, not excluded, has the capability and
-- has room for a command; if there are such workers but none with room, the answer is that there is no
-- capacity, and if there are none, that no worker has the capability.
pub pick_session-verdict :
    (gap : Gap) (s : Service) (capability : Text) (e : Map (Unit {0})) (aware : Bool)
    (online : List Text)
    → ((k : ℕ) (t : Service) → IsAlike capability t (gap k t))
    → verdict (pick_session_for_capability gap s capability e aware online).1 ≡ (
        if any (offers capability e aware s) online
        then granted
        else if any (serves capability e aware s) online
        then full
        else nobody)
unfolding pick_session_for_capability
pick_session-verdict gap s capability e aware [] calm = refl
pick_session-verdict gap s capability e aware (n ∷ ns) calm =
    let t = record s { round_robin = (s.round_robin + 1) % 2 ^ 64 } in
    let nodes = rotate s.round_robin (n ∷ ns) in
    let scanned = scan_nodes capability e aware gap t nodes in
    let sees = scan-Sees capability e aware gap calm t nodes in
    let rooms =
      append-Rooms capability e aware t _ _
        (sort-Rooms capability e aware t scanned.1.available sees.all_available)
        (append-Rooms capability e aware t _ _
          (sort-Rooms capability e aware t scanned.1.unknown_capacity sees.all_unknown)
          (sort-Rooms capability e aware t scanned.1.full sees.all_full)) in
    let tried =
      try_some capability e aware gap (order scanned.1) scanned.0
        (pause-IsAlike capability e aware gap calm scanned.0)
        (Rooms-alike capability e aware t scanned.0 (order scanned.1) sees.alike rooms) in
    let offered =
      tried
      ∙ order-is_cons capability e aware scanned.1
      ∙ sees.offer_seen
      ∙ any-rotate (offers capability e aware t) s.round_robin (n ∷ ns) in
    let served =
      sees.usable_seen ∙ any-rotate (serves capability e aware t) s.round_robin (n ∷ ns) in
    picked-verdict capability e aware scanned.1.has_session
      (try_candidates gap capability (order scanned.1) scanned.0)
    ∙ (rw (offered, served) refl)
