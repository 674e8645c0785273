-- ===== src/Routes/Index.antt =====
-- console/internal/grpcserver/terminal_session_routes.go: the index by worker, against the table.
use onlyboxes.Prelude.{
  ◌≡◌, refl, Bool, false, ◌||◌, Option, none, some, [], ◌∷◌, Text, Map, arith, lookup, insert,
  remove, lookup-insert, lookup-remove, text_eq, text_eq→eq, text_eq_iff, if◌then◌else◌,
}
use onlyboxes.Routes.Defs.{
  Route, Routes, has, sessions_of, index_add, index_put, index_del_found, index_del, put_route,
  add_route, delete_terminal_session_route_locked,
}

-- The index has the session under the worker.
abbrev pub member : Text → Text → Map (Map (Unit {0})) → Bool
member n i index = has (lookup i (sessions_of (lookup n index)))

abbrev pub on : Text → Option Route → Bool
on n none = false
on n (some r) = text_eq r.node_id n

-- The index holds a session under a worker exactly if the session's route leads to that worker.
abbrev pub IsIndex : Map Route → Map (Map (Unit {0})) → Type 0
IsIndex routes index = (n i : Text) → member n i index ≡ on n (lookup i routes)

abbrev pub IsIndexed : Routes → Type 0
IsIndexed s = IsIndex s.session_to_node s.node_to_sessions

pub member-add :
    (m j n i : Text) (index : Map (Map (Unit {0})))
    → member n i (index_add m j index)
      ≡ (if text_eq m n then text_eq j i || member n i index else member n i index)
unfolding index_add
member-add m j n i index = ground (
  arith,
  lookup-insert m n (insert j tt (sessions_of (lookup m index))) index,
  lookup-insert j i tt (sessions_of (lookup m index)),
  text_eq→eq m n,
)

lookup-nil {ℓ} : {V : Type ℓ} (k : Text) → lookup {V = V} k [] ≡ none
unfolding lookup
lookup-nil k = refl

member-put :
    (m n i : Text) (set : Map (Unit {0})) (index : Map (Map (Unit {0})))
    → member n i (index_put m set index)
      ≡ (if text_eq m n then has (lookup i set) else member n i index)
member-put m n i [] index = ground (arith, lookup-remove m n index, lookup-nil {V = Unit {0}} i)
member-put m n i (e ∷ rest) index = ground (arith, lookup-insert m n (e ∷ rest) index)

member-del_found :
    (m j n i : Text) (o : Option (Map (Unit {0}))) (index : Map (Map (Unit {0})))
    → lookup m index ≡ o
    → member n i (index_del_found m j o index) ≡ (
        if text_eq m n then (if text_eq j i then false else member n i index) else member n i index)
member-del_found m j n i none index h =
    ground (arith, h, text_eq→eq m n, lookup-nil {V = Unit {0}} i)
member-del_found m j n i (some set) index h =
    ground (arith, h, member-put m n i (remove j set) index, lookup-remove j i set, text_eq→eq m n)

pub member-del :
    (m j n i : Text) (index : Map (Map (Unit {0})))
    → member n i (index_del m j index) ≡ (
        if text_eq m n then (if text_eq j i then false else member n i index) else member n i index)
unfolding index_del
member-del m j n i index = member-del_found m j n i (lookup m index) index refl

-- A write to a route that stays on its worker.
pub put_route-IsIndexed :
    (s : Routes) (id : Text) (r t : Route)
    → lookup id s.session_to_node ≡ some r
    → t.node_id ≡ r.node_id
    → IsIndexed s
    → IsIndexed (put_route s id t)
put_route-IsIndexed s id r t found same v n i =
    ground (arith, v n i, lookup-insert id i t s.session_to_node, text_eq→eq id i)

pub add_route-IsIndexed :
    (s : Routes) (id : Text) (t : Route)
    → lookup id s.session_to_node ≡ none
    → IsIndexed s
    → IsIndexed (add_route s id t)
add_route-IsIndexed s id t fresh v n i = ground (
  arith,
  v n i,
  lookup-insert id i t s.session_to_node,
  text_eq→eq id i,
  text_eq_iff t.node_id n,
  member-add t.node_id id n i s.node_to_sessions,
)

pub delete_locked-IsIndexed :
    (s : Routes) (id : Text) (r : Route)
    → lookup id s.session_to_node ≡ some r
    → IsIndexed s
    → IsIndexed (delete_terminal_session_route_locked s id r)
unfolding delete_terminal_session_route_locked
delete_locked-IsIndexed s id r found v n i = ground (
  arith,
  v n i,
  lookup-remove id i s.session_to_node,
  text_eq→eq id i,
  text_eq_iff r.node_id n,
  member-del r.node_id id n i s.node_to_sessions,
)
