-- ===== src/Gateway/Routing/Resolve.antt =====
-- What `resolve_thread` answers after each operation of the router.
use agent_console.Prelude.{
  Str, ◌==◌, is_empty, not, Option, none, some, List, [], ◌∷◌, ◌≡◌, ◌≢◌, refl, arith, if◌then◌else◌,
}
use agent_console.Prelude.Dict
use agent_console.Prelude.Dict.{Dict}
use agent_console.Domain.Thread.{Thread, ThreadRoute}
use agent_console.Gateway.Routing.{
  Router, track_thread, delete_machine, route_of, insert_route, insert_routes, replace_snapshot,
  clear_machine, resolve_thread,
}

abbrev pub or_else : Option ThreadRoute → Option ThreadRoute → Option ThreadRoute
or_else none b = b
or_else (some a) b = some a

-- The route that a snapshot gives to a thread: that of its last entry with this id.
abbrev pub last_route : Str → List Thread → Str → Option ThreadRoute
last_route machine_id [] id = none
last_route machine_id (t ∷ ts) id = or_else (last_route machine_id ts id) (
    if is_empty t.thread_id
    then none
    else if t.thread_id == id
    then some (route_of machine_id t)
    else none)

-- What is left of a route once the routes of a machine are deleted.
abbrev pub unless_of : Str → Option ThreadRoute → Option ThreadRoute
unless_of machine_id none = none
unless_of machine_id (some route) = if route.machine_id == machine_id then none else some route

get-delete_machine :
    (m : Str) (d : Dict ThreadRoute) (id : Str)
    → Dict.get (delete_machine m d) id ≡ unless_of m (Dict.get d id)
unfolding delete_machine
get-delete_machine m d id =
    ground (arith, Dict.get-retain (λ route. not (route.machine_id == m)) d id)

get-insert_route :
    (m : Str) (t : Thread) (d : Dict ThreadRoute) (id : Str)
    → Dict.get (insert_route m t d) id
      ≡ or_else
          (if is_empty t.thread_id
            then none
            else if t.thread_id == id
            then some (route_of m t)
            else none)
          (Dict.get d id)
unfolding insert_route
get-insert_route m t d id = ground (arith, Dict.get-put d t.thread_id (route_of m t) id)

get-insert_routes :
    (m : Str) (ts : List Thread) (d : Dict ThreadRoute) (id : Str)
    → Dict.get (insert_routes m ts d) id ≡ or_else (last_route m ts id) (Dict.get d id)
unfolding insert_routes
get-insert_routes m [] d id = refl
get-insert_routes m (t ∷ ts) d id =
    ground (arith, get-insert_routes m ts (insert_route m t d) id, get-insert_route m t d id)

-- After a snapshot of a machine, a thread resolves to the route of the last entry of the snapshot
-- that carries its id, an entry without a machine counting for the machine of the snapshot. A
-- thread that the snapshot does not name keeps its route, unless that belonged to the machine, in
-- which case it has none.
pub resolve_thread-replace_snapshot :
    (m : Str) (ts : List Thread) (r : Router) (id : Str)
    → resolve_thread (replace_snapshot m ts r) id
      ≡ or_else (last_route m ts id) (unless_of m (resolve_thread r id))
unfolding resolve_thread replace_snapshot
resolve_thread-replace_snapshot m ts r id = ground (
  arith,
  get-insert_routes m ts (delete_machine m r.threads) id,
  get-delete_machine m r.threads id,
)

-- Clearing a machine takes away exactly the routes that belong to it; the empty machine id clears
-- nothing.
pub resolve_thread-clear_machine :
    (m : Str) (r : Router) (id : Str)
    → resolve_thread (clear_machine m r) id
      ≡ (if is_empty m then resolve_thread r id else unless_of m (resolve_thread r id))
unfolding resolve_thread clear_machine
resolve_thread-clear_machine m r id = ground (arith, get-delete_machine m r.threads id)

-- A tracked thread resolves to the machine and the agent given, and no other thread is touched.
pub resolve_thread-track_thread :
    (id machine_id agent_id : Str) (r : Router) (j : Str)
    → id ≢ []
    → resolve_thread (track_thread id machine_id agent_id r) j ≡ (
        if id == j
        then some (record { machine_id = machine_id; agent_id = agent_id })
        else resolve_thread r j)
unfolding resolve_thread track_thread
resolve_thread-track_thread id machine_id agent_id r j h =
    ground
      (arith, Dict.get-put r.threads id (record { machine_id = machine_id; agent_id = agent_id }) j)
