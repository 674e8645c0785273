-- ===== src/Dispatch/Fresh.antt =====
-- console/internal/grpcserver/service_dispatch.go: the choice among the workers, and those excluded.
use onlyboxes.Prelude.{
  ℕ, ◌+◌, ◌%◌, ◌^◌, ◌≡◌, refl, Bool, true, false, Option, none, some, List, [], ◌∷◌, ◌++◌, Text,
  Map, arith, lookup, get_elem?, trim_space, leb, if_cases,
}
use onlyboxes.Session.Defs.{inflight_snapshot}
use onlyboxes.Routes.Defs.{has}
use onlyboxes.Dispatch.Defs.{
  TerminalCapacity, Worker, Service, Result, ok, err, Gap, pause, get_session, acquire_at,
  is_node_excluded,
}
use onlyboxes.Dispatch.Pick.{
  Candidate, Group, known_available, unknown, reported_full, Scan, group_of, add_candidate,
  add_worker, rotate, snapshot_at, capacity_of, is_listed, pointer, scan_nodes, insert_candidate,
  sort_candidates, try_candidates, order, picked_or_refused, pick_session_for_capability,
}
use onlyboxes.Dispatch.Names.{
  name_at, IsNamed, Moves, Moves-refl, Moves-trans, IsFair, pause-Moves, put_session-Moves,
  acquire_at-Moves,
}

-- The session at `i` is one of a worker that is not excluded.
pub record IsFresh (excluded : Map (Unit {0})) (s : Service) (i : ℕ) : Type 0 where
  pub node : Text
  pub named : name_at s i ≡ some node
  pub trimmed : trim_space node ≡ node
  pub fresh : has (lookup node excluded) ≡ false

abbrev pub AllFresh : Map (Unit {0}) → Service → List Candidate → Type 0
AllFresh excluded s [] = Unit
AllFresh excluded s (c ∷ cs) = IsFresh excluded s c.session × AllFresh excluded s cs

pub IsFresh-moved :
    {e : Map (Unit {0})} {s t : Service} (i : ℕ) → Moves s t → IsFresh e s i → IsFresh e t i
IsFresh-moved i m f = record {
  node = f.node;
  named = m.keeps i f.node f.named;
  trimmed = f.trimmed;
  fresh = f.fresh;
}

module _ (e : Map (Unit {0})) where
  AllFresh-moved :
      {s t : Service} (cs : List Candidate) → Moves s t → AllFresh e s cs → AllFresh e t cs
  AllFresh-moved [] m f = tt
  AllFresh-moved (c ∷ cs) m f = (IsFresh-moved c.session m f.0, AllFresh-moved cs m f.1)

  AllFresh-append :
      (s : Service) (cs ds : List Candidate)
      → AllFresh e s cs
      → AllFresh e s ds
      → AllFresh e s (cs ++ ds)
  AllFresh-append s [] ds f g = g
  AllFresh-append s (c ∷ cs) ds f g = (f.0, AllFresh-append s cs ds f.1 g)

  insert-AllFresh :
      (s : Service) (c : Candidate) (cs : List Candidate)
      → IsFresh e s c.session
      → AllFresh e s cs
      → AllFresh e s (insert_candidate c cs)
  unfolding insert_candidate
  insert-AllFresh s c [] f g = (f, tt)
  insert-AllFresh s c (d ∷ ds) f g =
      if_cases (AllFresh e s) (leb c.inflight d.inflight) _ _ (λ _. (f, g))
        (λ _. (g.0, insert-AllFresh s c ds f g.1))

  sort-AllFresh :
      (s : Service) (cs : List Candidate) → AllFresh e s cs → AllFresh e s (sort_candidates cs)
  unfolding sort_candidates
  sort-AllFresh s [] f = tt
  sort-AllFresh s (c ∷ cs) f = insert-AllFresh s c (sort_candidates cs) f.0 (sort-AllFresh s cs f.1)

  abbrev ScanFresh : Service → Scan → Type 0
  ScanFresh s scan =
      AllFresh e s scan.available × (AllFresh e s scan.unknown_capacity × AllFresh e s scan.full)

  order-AllFresh : (s : Service) (scan : Scan) → ScanFresh s scan → AllFresh e s (order scan)
  order-AllFresh s scan f = AllFresh-append s _ _ (sort-AllFresh s scan.available f.0) (
      AllFresh-append s _ _ (sort-AllFresh s scan.unknown_capacity f.1.0)
        (sort-AllFresh s scan.full f.1.1))

  add_candidate-ScanFresh :
      (s : Service) (c : Candidate) (g : Group) (scan : Scan)
      → IsFresh e s c.session
      → ScanFresh s scan
      → ScanFresh s (add_candidate c g scan)
  add_candidate-ScanFresh s c known_available scan f h = ((f, h.0), h.1)
  add_candidate-ScanFresh s c unknown scan f h = (h.0, ((f, h.1.0), h.1.1))
  add_candidate-ScanFresh s c reported_full scan f h = (h.0, (h.1.0, (f, h.1.1)))

  add_worker-ScanFresh :
      (s : Service) (aware : Bool) (i : ℕ) (c : TerminalCapacity) (o : Option (ℕ × ℕ)) (scan : Scan)
      → IsFresh e s i
      → ScanFresh s scan
      → ScanFresh s (add_worker aware i c o scan)
  add_worker-ScanFresh s aware i c none scan f h = h
  add_worker-ScanFresh s aware i c (some (inflight, limit)) scan f h =
      if_cases (ScanFresh s) (leb limit inflight) _ _ (λ _. h)
        (λ _.
          add_candidate-ScanFresh s (record { session = i; inflight = inflight }) (group_of aware c)
            scan f h)

  -- What is scanned of the workers in `s`.
  abbrev Scanned : Service → Service × Scan → Type 0
  Scanned s x = Moves s x.0 × ScanFresh x.0 x.1

  module _ (capability : Text) (aware : Bool) (gap : Gap) (fair : IsFair gap) where
    snapshot_at-Moves :
        (s : Service) (i : ℕ) (o : Option Worker) → Moves s (snapshot_at capability e aware s i o).0
    snapshot_at-Moves s i none = Moves-refl s
    snapshot_at-Moves s i (some w) =
        put_session-Moves s i (inflight_snapshot w.session capability).0

    listed-IsFresh :
        (s t : Service) (node : Text) (o : Option ℕ)
        → lookup node s.sessions ≡ o
        → is_listed capability e aware t node o ≡ true
        → IsNamed s
        → IsFresh e s (pointer capability e aware o)
    unfolding is_node_excluded
    listed-IsFresh s t node none h l named = absurd (ground arith)
    listed-IsFresh s t node (some i) h l named =
        let k = (named node i h).1 in
        record { node = node; named = (named node i h).0; trimmed = k; fresh = ground (arith, k) }

    scan-Scanned :
        (s : Service) (nodes : List Text)
        → IsNamed s
        → Scanned s (scan_nodes capability e aware gap s nodes)
    unfolding scan_nodes get_session
    scan-Scanned s [] named = (Moves-refl s, (tt, (tt, tt)))
    scan-Scanned s (node ∷ nodes) named =
        let a = pause gap s in
        let found = lookup node a.sessions in
        let i = pointer capability e aware found in
        let b = pause gap a in
        let c = pause gap b in
        let snapshot = snapshot_at capability e aware c i (get_elem? c.heap i) in
        let d = pause gap snapshot.0 in
        let to_a = pause-Moves fair s in
        let a_to_b = pause-Moves fair a in
        let b_to_d = Moves-trans (pause-Moves fair b) (
          Moves-trans (snapshot_at-Moves c i (get_elem? c.heap i)) (pause-Moves fair snapshot.0)) in
        let to_b = Moves-trans to_a a_to_b in
        if_cases (Scanned s) (is_listed capability e aware b node found) _ _
          (λ l.
            let rest = scan-Scanned d nodes ((Moves-trans to_b b_to_d).names named) in
            (
              Moves-trans (Moves-trans to_b b_to_d) rest.0,
              add_worker-ScanFresh (scan_nodes capability e aware gap d nodes).0 aware i
                  (capacity_of capability e aware (get_elem? d.heap i)) snapshot.1 _
                  (IsFresh-moved i (Moves-trans (Moves-trans a_to_b b_to_d) rest.0)
                    (listed-IsFresh a b node found refl l (to_a.names named)))
                  rest.1,
            ))
          (λ _.
            let rest = scan-Scanned b nodes (to_b.names named) in (Moves-trans to_b rest.0, rest.1))

  -- What a choice of a worker that is not excluded gives.
  abbrev pub Chosen : Service → Service × Result ℕ → Type 0
  Chosen s (t, ok i) = Moves s t × IsFresh e t i
  Chosen s (t, err r) = Moves s t

  abbrev Tried : Service → Service × Option ℕ → Type 0
  Tried s (t, some i) = Moves s t × IsFresh e t i
  Tried s (t, none) = Moves s t

  Tried-after : {s t : Service} (x : Service × Option ℕ) → Moves s t → Tried t x → Tried s x
  Tried-after (u, some i) m h = (Moves-trans m h.0, h.1)
  Tried-after (u, none) m h = Moves-trans m h

  try-Tried :
      (gap : Gap) (fair : IsFair gap) (capability : Text) (cs : List Candidate) (s : Service)
      → AllFresh e s cs
      → Tried s (try_candidates gap capability cs s)
  unfolding try_candidates
  try-Tried gap fair capability [] s f = Moves-refl s
  try-Tried gap fair capability (c ∷ cs) s f =
      let p = pause gap s in
      let m = Moves-trans (pause-Moves fair s) (acquire_at-Moves p capability c.session) in
      if_cases (Tried s) (acquire_at p capability c.session).1 _ _
        (λ _. (m, IsFresh-moved c.session m f.0))
        (λ _. Tried-after _ m (
          try-Tried gap fair capability cs (acquire_at p capability c.session).0
            (AllFresh-moved cs m f.1)))

  picked-Chosen :
      (s : Service) (b : Bool) (x : Service × Option ℕ)
      → Tried s x
      → Chosen s (picked_or_refused b x)
  picked-Chosen s b (t, some i) h = h
  picked-Chosen s true (t, none) h = h
  picked-Chosen s false (t, none) h = h

  pub pick-Chosen :
      (gap : Gap) (s : Service) (capability : Text) (aware : Bool) (online : List Text)
      → IsFair gap
      → IsNamed s
      → Chosen s (pick_session_for_capability gap s capability e aware online)
  unfolding pick_session_for_capability
  pick-Chosen gap s capability aware [] fair named = Moves-refl s
  pick-Chosen gap s capability aware (n ∷ ns) fair named =
      let t = record s { round_robin = (s.round_robin + 1) % 2 ^ 64 } in
      let scanned = scan_nodes capability e aware gap t (rotate s.round_robin (n ∷ ns)) in
      let h = scan-Scanned capability aware gap fair t (rotate s.round_robin (n ∷ ns)) named in
      let m : Moves s scanned.0 = record { keeps = h.0.keeps; names = h.0.names } in
      picked-Chosen s scanned.1.has_session _ (
        Tried-after _ m (
          try-Tried gap fair capability (order scanned.1) scanned.0
            (order-AllFresh scanned.0 scanned.1 h.1)))
