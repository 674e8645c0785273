-- ===== src/Dispatch/Offers.antt =====
-- console/internal/grpcserver/service_dispatch.go: `pickSessionForCapability` against what the workers offer.
use onlyboxes.Prelude.{
  ℕ, zero, suc, ◌+◌, ◌%◌, ◌≡◌, refl, sym, ap, ◌∙◌, Bool, true, false, ◌&&◌, ◌||◌, not, Option, none,
  some, List, [], ◌∷◌, ◌++◌, Text, Map, arith, lookup, get_elem?, take, length, leb, if_cases,
}
use onlyboxes.Dispatch.Defs.{TerminalCapacity, Service, Gap, pause, get_session}
use onlyboxes.Dispatch.Pick.{
  Candidate, Group, known_available, unknown, reported_full, Scan, group_of, add_candidate,
  add_worker, drop, rotate, snapshot_at, capacity_of, is_listed, pointer, scan_nodes,
}
use onlyboxes.Dispatch.Room.{
  worker_has_room, IsAlike, IsAlike-refl, IsAlike-trans, snapshot-IsAlike, has_more, snapshot_more,
}

abbrev pub any : (Text → Bool) → List Text → Bool
any p [] = false
any p (n ∷ ns) = p n || any p ns

pub any_ext : (p q : Text → Bool) (ns : List Text) → ((n : Text) → p n ≡ q n) → any p ns ≡ any q ns
any_ext p q [] h = refl
any_ext p q (n ∷ ns) h = rw (h n, any_ext p q ns h) refl

any-append : (p : Text → Bool) (ms ns : List Text) → any p (ms ++ ns) ≡ (any p ms || any p ns)
any-append p [] ns = refl
any-append p (m ∷ ms) ns = ground (arith, any-append p ms ns)

any-drop-take :
    (p : Text → Bool) (k : ℕ) (ns : List Text) → (any p (drop k ns) || any p (take k ns)) ≡ any p ns
unfolding drop
any-drop-take p zero ns = ground arith
any-drop-take p (suc k) [] = refl
any-drop-take p (suc k) (n ∷ ns) = ground (arith, any-drop-take p k ns)

pub any-rotate : (p : Text → Bool) (start : ℕ) (ns : List Text) → any p (rotate start ns) ≡ any p ns
unfolding rotate
any-rotate p start [] = refl
any-rotate p start (n ∷ ns) =
    let k = start % length (n ∷ ns) in
    any-append p (drop k (n ∷ ns)) (take k (n ∷ ns)) ∙ any-drop-take p k (n ∷ ns)

abbrev pub is_cons : List Candidate → Bool
is_cons [] = false
is_cons (c ∷ cs) = true

-- There is a candidate.
abbrev pub finds : Scan → Bool
finds scan = is_cons scan.available || is_cons scan.unknown_capacity || is_cons scan.full

module _ (capability : Text) (e : Map (Unit {0})) (aware : Bool) where
  -- The worker is connected, is not excluded, is ready and has the capability.
  abbrev pub serves : Service → Text → Bool
  serves s node = is_listed capability e aware s node (lookup node s.sessions)

  -- It also has room for one more command.
  abbrev pub offers : Service → Text → Bool
  offers s node =
      serves s node
      && worker_has_room capability
          (get_elem? s.heap (pointer capability e aware (lookup node s.sessions)))

  abbrev pub AllRoom : Service → List Candidate → Type 0
  AllRoom s [] = Unit
  AllRoom s (c ∷ cs) =
      (worker_has_room capability (get_elem? s.heap c.session) ≡ true) × AllRoom s cs

  AllRoom-alike :
      {s t : Service} (cs : List Candidate) → IsAlike capability s t → AllRoom t cs → AllRoom s cs
  AllRoom-alike [] a h = tt
  AllRoom-alike (c ∷ cs) a h = (sym (a.same_room c.session) ∙ h.0, AllRoom-alike cs a h.1)

  listed_alike :
      {s t : Service} (node : Text) (o : Option ℕ)
      → IsAlike capability s t
      → is_listed capability e aware t node o ≡ is_listed capability e aware s node o
  listed_alike node none a = refl
  listed_alike node (some i) a = rw (a.same_usable i) refl

  serves_alike : (s t : Service) → IsAlike capability s t → (n : Text) → serves t n ≡ serves s n
  serves_alike s t a n = rw (a.same_sessions) (listed_alike n (lookup n s.sessions) a)

  offers_alike : (s t : Service) → IsAlike capability s t → (n : Text) → offers t n ≡ offers s n
  offers_alike s t a n =
      rw
        (
          a.same_sessions,
          listed_alike n (lookup n s.sessions) a,
          a.same_room (pointer capability e aware (lookup n s.sessions)),
        )
        refl

  -- The candidates that a scan of the workers finds in `s`.
  pub record Sees (s : Service) (nodes : List Text) (x : Service × Scan) : Type 0 where
    pub alike : IsAlike capability s x.0
    pub usable_seen : x.1.has_session ≡ any (serves s) nodes
    pub offer_seen : finds x.1 ≡ any (offers s) nodes
    pub all_available : AllRoom s x.1.available
    pub all_unknown : AllRoom s x.1.unknown_capacity
    pub all_full : AllRoom s x.1.full

  add_candidate-finds :
      (c : Candidate) (g : Group) (scan : Scan) → finds (add_candidate c g scan) ≡ true
  add_candidate-finds c known_available scan = refl
  add_candidate-finds c unknown scan = ground arith
  add_candidate-finds c reported_full scan = ground arith

  add_candidate-has_session :
      (c : Candidate) (g : Group) (scan : Scan) → (add_candidate c g scan).has_session ≡ true
  add_candidate-has_session c known_available scan = refl
  add_candidate-has_session c unknown scan = refl
  add_candidate-has_session c reported_full scan = refl

  add_worker-finds :
      (i : ℕ) (c : TerminalCapacity) (o : Option (ℕ × ℕ)) (scan : Scan)
      → finds (add_worker aware i c o scan) ≡ (has_more o || finds scan)
  add_worker-finds i c none scan = refl
  add_worker-finds i c (some (inflight, limit)) scan = ground (
    arith,
    add_candidate-finds (record { session = i; inflight = inflight }) (group_of aware c) scan,
  )

  add_worker-has_session :
      (i : ℕ) (c : TerminalCapacity) (o : Option (ℕ × ℕ)) (scan : Scan)
      → (add_worker aware i c o scan).has_session ≡ true
  add_worker-has_session i c none scan = refl
  add_worker-has_session i c (some (inflight, limit)) scan =
      if_cases (λ (x : Scan). x.has_session ≡ true) (leb limit inflight) _ _ (λ _. refl)
        (λ _.
          add_candidate-has_session (record { session = i; inflight = inflight }) (group_of aware c)
            scan)

  abbrev ScanRoom : Service → Scan → Type 0
  ScanRoom s scan =
      AllRoom s scan.available × (AllRoom s scan.unknown_capacity × AllRoom s scan.full)

  add_candidate-ScanRoom :
      (s : Service) (c : Candidate) (g : Group) (scan : Scan)
      → worker_has_room capability (get_elem? s.heap c.session) ≡ true
      → ScanRoom s scan
      → ScanRoom s (add_candidate c g scan)
  add_candidate-ScanRoom s c known_available scan f h = ((f, h.0), h.1)
  add_candidate-ScanRoom s c unknown scan f h = (h.0, ((f, h.1.0), h.1.1))
  add_candidate-ScanRoom s c reported_full scan f h = (h.0, (h.1.0, (f, h.1.1)))

  add_worker-ScanRoom :
      (s : Service) (i : ℕ) (c : TerminalCapacity) (o : Option (ℕ × ℕ)) (scan : Scan)
      → has_more o ≡ worker_has_room capability (get_elem? s.heap i)
      → ScanRoom s scan
      → ScanRoom s (add_worker aware i c o scan)
  add_worker-ScanRoom s i c none scan m h = h
  add_worker-ScanRoom s i c (some (inflight, limit)) scan m h =
      if_cases (ScanRoom s) (leb limit inflight) _ _ (λ _. h)
        (λ l.
          add_candidate-ScanRoom s (record { session = i; inflight = inflight }) (group_of aware c)
            scan (sym m ∙ ap not l) h)

  module _ (gap : Gap) (calm : (k : ℕ) (t : Service) → IsAlike capability t (gap k t)) where
    pub pause-IsAlike : (s : Service) → IsAlike capability s (pause gap s)
    unfolding pause
    pause-IsAlike s =
        let c = calm s.pauses (record s { pauses = s.pauses + 1 }) in
        record {
          same_sessions = c.same_sessions;
          same_usable = c.same_usable;
          same_room = c.same_room;
        }

    pub scan-Sees :
        (s : Service) (nodes : List Text) → Sees s nodes (scan_nodes capability e aware gap s nodes)
    unfolding scan_nodes get_session
    scan-Sees s [] = record {
      alike = IsAlike-refl capability s;
      usable_seen = refl;
      offer_seen = refl;
      all_available = tt;
      all_unknown = tt;
      all_full = tt;
    }
    scan-Sees s (node ∷ nodes) =
        let a = pause gap s in
        let found = lookup node a.sessions in
        let i = pointer capability e aware found in
        let b = pause gap a in
        let c = pause gap b in
        let snapshot = snapshot_at capability e aware c i (get_elem? c.heap i) in
        let d = pause gap snapshot.0 in
        let to_a = pause-IsAlike s in
        let to_b = IsAlike-trans to_a (pause-IsAlike a) in
        let to_c = IsAlike-trans to_b (pause-IsAlike b) in
        let to_d = IsAlike-trans to_c (
          IsAlike-trans (snapshot-IsAlike c capability e aware i (get_elem? c.heap i) refl)
            (pause-IsAlike snapshot.0)) in
        let seen : is_listed capability e aware b node found ≡ serves s node =
          listed_alike node found to_b
          ∙ ap (λ (m : Map ℕ). is_listed capability e aware s node (lookup node m))
              to_a.same_sessions in
        let more = snapshot_more c capability e aware i (get_elem? c.heap i) ∙ to_c.same_room i in
        let room_seen =
          more
          ∙ ap
              (λ (m : Map ℕ).
                worker_has_room capability
                  (get_elem? s.heap (pointer capability e aware (lookup node m))))
              to_a.same_sessions in
        if_cases (Sees s (node ∷ nodes)) (is_listed capability e aware b node found) _ _
          (λ l.
            let listed : serves s node ≡ true = sym seen ∙ l in
            let rest = scan-Sees d nodes in
            let scan = (scan_nodes capability e aware gap d nodes).1 in
            let k = capacity_of capability e aware (get_elem? d.heap i) in
            let room = add_worker-ScanRoom s i k snapshot.1 scan more (
              AllRoom-alike scan.available to_d rest.all_available,
              (
                AllRoom-alike scan.unknown_capacity to_d rest.all_unknown,
                AllRoom-alike scan.full to_d rest.all_full,
              ),
            ) in
            record {
              alike = IsAlike-trans to_d rest.alike;
              usable_seen = add_worker-has_session i k snapshot.1 scan ∙ (rw listed refl);
              offer_seen =
                  add_worker-finds i k snapshot.1 scan
                  ∙ (rw
                      (
                        room_seen,
                        rest.offer_seen,
                        any_ext (offers d) (offers s) nodes (offers_alike s d to_d),
                        listed,
                      )
                      refl);
              all_available = room.0;
              all_unknown = room.1.0;
              all_full = room.1.1;
            })
          (λ l.
            let unlisted : serves s node ≡ false = sym seen ∙ l in
            let rest = scan-Sees b nodes in
            let scan = (scan_nodes capability e aware gap b nodes).1 in
            record {
              alike = IsAlike-trans to_b rest.alike;
              usable_seen =
                  rest.usable_seen
                  ∙ any_ext (serves b) (serves s) nodes (serves_alike s b to_b)
                  ∙ (rw unlisted refl);
              offer_seen =
                  rest.offer_seen
                  ∙ any_ext (offers b) (offers s) nodes (offers_alike s b to_b)
                  ∙ (rw unlisted refl);
              all_available = AllRoom-alike scan.available to_b rest.all_available;
              all_unknown = AllRoom-alike scan.unknown_capacity to_b rest.all_unknown;
              all_full = AllRoom-alike scan.full to_b rest.all_full;
            })
