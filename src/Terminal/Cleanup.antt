-- ===== src/Terminal/Cleanup.antt =====
-- worker/worker-docker/internal/runner/terminal_exec.go: the invariant and the cleanup of sessions.
use onlyboxes.Prelude.{
  ℕ, ◌≡◌, refl, false, List, [], ◌∷◌, Text, arith, get_elem?, trim_space, ap, ◌∙◌, if_cases,
  get_elem?-set_self,
}
use onlyboxes.Terminal.Defs.{Session, Manager, put, force_remove_container, proxy_cancel}
use onlyboxes.Terminal.Claim.{
  release_capacity_reservation, cleanup_session, cleanup_tracked_session,
}
use onlyboxes.Terminal.Invariant.{Inv, IsValid-set, IsValid-free}
use onlyboxes.Terminal.Preservation.{IsRetired}

-- A session that nobody finds in the map may be marked in any way that keeps it there.
pub retired-Inv :
    (m : Manager) (p : ℕ) (s s' : Session)
    → IsRetired m p s
    → s'.session_id ≡ s.session_id
    → s'.capacity_reserved ≡ s.capacity_reserved
    → s'.retired ≡ s.retired
    → Inv m
    → Inv (put m p s')
retired-Inv m p s s' (hg, hr) hid hres hret v =
    IsValid-set v p s s' hg hid hres hret (λ j k. absurd (cc (k.not_retired, hr)))

pub release_capacity_reservation-Inv :
    (m : Manager) (p : ℕ) (s : Session)
    → IsRetired m p s
    → Inv m
    → Inv (release_capacity_reservation m p s)
unfolding release_capacity_reservation
release_capacity_reservation-Inv m p s (hg, hr) v =
    if_cases Inv s.capacity_reserved _ _
      (λ held. IsValid-free v p s (record s { capacity_reserved = false }) hg hr held refl) (λ _. v)

pub force_remove_container-Inv :
    (m : Manager) (name : Text) → Inv m → Inv (force_remove_container m name)
unfolding force_remove_container
force_remove_container-Inv m name v = go (trim_space name)
  where
    go : (t : Text) → Inv (elim t [ [] ↦ m | c ∷ cs ↦ record m { removed = (c ∷ cs) ∷ m.removed } ])
    go [] = v
    go (c ∷ cs) = v

force_remove_container_heap :
    (m : Manager) (name : Text) → (force_remove_container m name).heap ≡ m.heap
unfolding force_remove_container
force_remove_container_heap m name = ground arith

pub cleanup_session-Inv :
    (m : Manager) (p : ℕ) (s : Session) → IsRetired m p s → Inv m → Inv (cleanup_session m p s)
unfolding cleanup_session
cleanup_session-Inv m p s (hg, hr) v =
    let cancelled : Manager = put m p (proxy_cancel s) in
    release_capacity_reservation-Inv (force_remove_container cancelled s.container_name) p
      (proxy_cancel s)
      (
        ap (λ (h : List Session). get_elem? h p)
              (force_remove_container_heap cancelled s.container_name)
            ∙ get_elem?-set_self m.heap p (proxy_cancel s) hg,
        hr,
      )
      (force_remove_container-Inv cancelled s.container_name
        (retired-Inv m p s (proxy_cancel s) (hg, hr) refl refl refl v))

pub cleanup_tracked_session-Inv :
    (m : Manager) (p : ℕ) (s : Session)
    → IsRetired m p s
    → Inv m
    → Inv (cleanup_tracked_session m p s)
unfolding cleanup_tracked_session
cleanup_tracked_session-Inv m p s r v = cleanup_session-Inv m p s r v
