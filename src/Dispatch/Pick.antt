-- ===== src/Dispatch/Pick.antt =====
-- console/internal/grpcserver/service_dispatch.go: `pickSessionForCapability`.
use onlyboxes.Prelude.{
  ℕ, zero, suc, ◌+◌, ◌%◌, ◌^◌, Bool, true, false, ◌&&◌, not, Option, none, some, List, [], ◌∷◌,
  ◌++◌, Text, Map, get_elem?, take, length, ltb, leb, if◌then◌else◌,
}
use onlyboxes.Session.Defs.{inflight_snapshot}
use onlyboxes.Dispatch.Defs.{
  TerminalCapacity, Worker, Service, no_capability_worker, no_worker_capacity, Result, ok, err, Gap,
  pause, get_session, put_session, is_usable, acquire_at, is_node_excluded,
}

pub record Candidate : Type 0 where
  pub session : ℕ
  pub inflight : ℕ

pub data Group : Type 0 where
  known_available unknown reported_full : Group

-- What the loop over the workers finds: whether any is usable, and those with room by group.
pub record Scan : Type 0 where
  pub has_session : Bool
  pub available : List Candidate
  pub unknown_capacity : List Candidate
  pub full : List Candidate

abbrev pub empty_scan : Scan
empty_scan = record { has_session = false; available = []; unknown_capacity = []; full = [] }

unfoldable pub group_of : Bool → TerminalCapacity → Group
group_of capacity_aware c =
    if not capacity_aware
    then known_available
    else if not c.known
    then unknown
    else if ltb 0 c.max_active_sessions && leb c.max_active_sessions c.active_session_count
    then reported_full
    else known_available

abbrev pub add_candidate : Candidate → Group → Scan → Scan
add_candidate c known_available scan = record scan {
  has_session = true;
  available = c ∷ scan.available;
}
add_candidate c unknown scan = record scan {
  has_session = true;
  unknown_capacity = c ∷ scan.unknown_capacity;
}
add_candidate c reported_full scan = record scan { has_session = true; full = c ∷ scan.full }

-- A usable worker; one without room only counts as found.
abbrev pub add_worker : Bool → ℕ → TerminalCapacity → Option (ℕ × ℕ) → Scan → Scan
add_worker capacity_aware i c none scan = record scan { has_session = true }
add_worker capacity_aware i c (some (inflight, max_inflight)) scan =
    if leb max_inflight inflight
    then record scan { has_session = true }
    else add_candidate (record { session = i; inflight = inflight }) (group_of capacity_aware c)
        scan

unfoldable pub drop : {A : Type 0} → ℕ → List A → List A
drop zero xs = xs
drop (suc n) [] = []
drop (suc n) (x ∷ xs) = drop n xs

-- The order of `(start + i) % len(nodeIDs)`.
unfoldable pub rotate : ℕ → List Text → List Text
unfolding drop
rotate start [] = []
rotate start (n ∷ ns) = let k = start % length (n ∷ ns) in drop k (n ∷ ns) ++ take k (n ∷ ns)

module _ (capability : Text) (excluded : Map (Unit {0})) (capacity_aware : Bool) where
  abbrev pub snapshot_at : Service → ℕ → Option Worker → Service × Option (ℕ × ℕ)
  snapshot_at s i none = (s, none)
  snapshot_at s i (some w) =
      let r = inflight_snapshot w.session capability in (put_session s i r.0, r.1)

  abbrev pub capacity_of : Option Worker → TerminalCapacity
  capacity_of none = record { known = false; max_active_sessions = 0; active_session_count = 0 }
  capacity_of (some w) = w.capacity

  abbrev pub is_listed : Service → Text → Option ℕ → Bool
  is_listed s node none = false
  is_listed s node (some i) =
      not (is_node_excluded node excluded) && is_usable capability (get_elem? s.heap i)

  abbrev pub pointer : Option ℕ → ℕ
  pointer none = 0
  pointer (some i) = i

  -- Other goroutines come between the looks at a worker: at the map of sessions, at whether it is
  -- ready and has the capability, at its commands in flight, and at its capacity.
  unfoldable pub scan_nodes : Gap → Service → List Text → Service × Scan
  unfolding pause put_session get_session is_node_excluded group_of
  scan_nodes gap s [] = (s, empty_scan)
  scan_nodes gap s (node ∷ nodes) =
      let a = pause gap s in
      let found = get_session a node in
      let i = pointer found in
      let b = pause gap a in
      let c = pause gap b in
      let snapshot = snapshot_at c i (get_elem? c.heap i) in
      let d = pause gap snapshot.0 in
      let skipped = scan_nodes gap b nodes in
      let rest = scan_nodes gap d nodes in
      if is_listed b node found
      then (
        rest.0,
        add_worker capacity_aware i (capacity_of (get_elem? d.heap i)) snapshot.1 rest.1,
      )
      else skipped

-- `sort.SliceStable` by the commands in flight.
unfoldable pub insert_candidate : Candidate → List Candidate → List Candidate
insert_candidate c [] = c ∷ []
insert_candidate c (d ∷ ds) =
    let rest = insert_candidate c ds in if leb c.inflight d.inflight then c ∷ d ∷ ds else d ∷ rest

unfoldable pub sort_candidates : List Candidate → List Candidate
unfolding insert_candidate
sort_candidates [] = []
sort_candidates (c ∷ cs) = insert_candidate c (sort_candidates cs)

-- The first candidate that gives a slot.
unfoldable pub try_candidates : Gap → Text → List Candidate → Service → Service × Option ℕ
unfolding pause acquire_at
try_candidates gap capability [] s = (s, none)
try_candidates gap capability (c ∷ cs) s =
    let r = acquire_at (pause gap s) capability c.session in
    let rest = try_candidates gap capability cs r.0 in if r.1 then (r.0, some c.session) else rest

abbrev pub order : Scan → List Candidate
order scan =
    sort_candidates scan.available
    ++ (sort_candidates scan.unknown_capacity ++ sort_candidates scan.full)

abbrev pub picked_or_refused : Bool → Service × Option ℕ → Service × Result ℕ
picked_or_refused has_session (s, some i) = (s, ok i)
picked_or_refused true (s, none) = (s, err no_worker_capacity)
picked_or_refused false (s, none) = (s, err no_capability_worker)

-- `online` is what the registry lists; `capacity_aware` says that a new terminal session is wanted.
-- The counter of the round robin wraps at 64 bits. Past 2^63 the source's `int` of it is negative, and
-- so is the index that it gives; the model goes on as if `int` held 64 bits without a sign.
unfoldable pub pick_session_for_capability :
    Gap → Service → Text → Map (Unit {0}) → Bool → List Text → Service × Result ℕ
unfolding rotate scan_nodes sort_candidates try_candidates
pick_session_for_capability gap s capability excluded capacity_aware [] =
    (s, err no_capability_worker)
pick_session_for_capability gap s capability excluded capacity_aware (n ∷ ns) =
    let t = record s { round_robin = (s.round_robin + 1) % 2 ^ 64 } in
    let scanned =
      scan_nodes capability excluded capacity_aware gap t (rotate s.round_robin (n ∷ ns)) in
    picked_or_refused scanned.1.has_session
      (try_candidates gap capability (order scanned.1) scanned.0)
