-- ===== src/Gateway/RuntimeIndex/Routes.antt =====
-- The route table of the runtime index against the router, which keeps the same routes a second
-- time.
use agent_console.Prelude.{
  Str, ◌==◌, is_empty, not, List, [], ◌∷◌, ◌≡◌, ◌≢◌, refl, arith, if◌then◌else◌,
}
use agent_console.Prelude.Dict
use agent_console.Prelude.Dict.{Dict}
use agent_console.Prelude.Time.{TimeText}
use agent_console.Domain.Thread.{Thread, ThreadRoute}
use agent_console.Domain.Environment.{EnvironmentResource}
use agent_console.Gateway.Routing
use agent_console.Gateway.Routing.{Router}
use agent_console.Gateway.Routing.Resolve.{
  or_else, last_route, unless_of, resolve_thread-replace_snapshot, resolve_thread-clear_machine,
  resolve_thread-track_thread,
}
use agent_console.Gateway.RuntimeIndex.{
  Store, delete_machine, insert_routes, replace_snapshot, upsert_thread, clear_machine,
  thread_route,
}

get-delete_machine :
    (m : Str) (d : Dict ThreadRoute) (id : Str)
    → Dict.get (delete_machine m d) id ≡ unless_of m (Dict.get d id)
unfolding delete_machine
get-delete_machine m d id =
    ground (arith, Dict.get-retain (λ route. not (route.machine_id == m)) d id)

get-insert_routes :
    (m : Str) (ts : List Thread) (d : Dict ThreadRoute) (id : Str)
    → Dict.get (insert_routes m ts d) id ≡ or_else (last_route m ts id) (Dict.get d id)
unfolding insert_routes
get-insert_routes m [] d id = refl
get-insert_routes m (t ∷ ts) d id =
    let owner = if is_empty t.machine_id then m else t.machine_id in
    let route : ThreadRoute = record { machine_id = owner; agent_id = t.agent_id } in
    ground (
      arith,
      get-insert_routes m ts (if is_empty t.thread_id then d else Dict.put d t.thread_id route) id,
      Dict.get-put d t.thread_id route id,
    )

pub thread_route-replace_snapshot :
    (time : TimeText) (m : Str) (ts : List Thread) (env : List EnvironmentResource) (s : Store)
    (id : Str)
    → thread_route (replace_snapshot time m ts env s) id
      ≡ or_else (last_route m ts id) (unless_of m (thread_route s id))
unfolding thread_route replace_snapshot
thread_route-replace_snapshot time m ts env s id = ground (
  arith,
  get-insert_routes m ts (delete_machine m s.thread_routes) id,
  get-delete_machine m s.thread_routes id,
)

-- The index and the router answer alike for every thread.
abbrev pub RoutesAgree : Store → Router → Type 0
RoutesAgree s r = (id : Str) → thread_route s id ≡ Routing.resolve_thread r id

-- Where the index and the router answer alike, they still do after both took the same snapshot.
pub replace_snapshot-RoutesAgree :
    (time : TimeText) (m : Str) (ts : List Thread) (env : List EnvironmentResource) (s : Store)
    (r : Router)
    → RoutesAgree s r
    → RoutesAgree (replace_snapshot time m ts env s) (Routing.replace_snapshot m ts r)
replace_snapshot-RoutesAgree time m ts env s r h id = ground (
  arith,
  thread_route-replace_snapshot time m ts env s id,
  resolve_thread-replace_snapshot m ts r id,
  h id,
)

-- Where they answer alike, they still do after both cleared the same machine.
pub clear_machine-RoutesAgree :
    (m : Str) (s : Store) (r : Router)
    → RoutesAgree s r
    → RoutesAgree (clear_machine m s) (Routing.clear_machine m r)
unfolding thread_route clear_machine
clear_machine-RoutesAgree m s r h id =
    ground
      (arith, resolve_thread-clear_machine m r id, get-delete_machine m s.thread_routes id, h id)

-- Where they answer alike, they still do after the index took a thread of a machine and the router
-- tracked it for the same owner.
pub upsert_thread-RoutesAgree :
    (time : TimeText) (m : Str) (t : Thread) (s : Store) (r : Router)
    → m ≢ []
    → t.thread_id ≢ []
    → RoutesAgree s r
    → RoutesAgree (upsert_thread time m t s) (
        Routing.track_thread t.thread_id
          (if is_empty t.machine_id then m else t.machine_id)
          t.agent_id
          r)
unfolding thread_route upsert_thread
upsert_thread-RoutesAgree time m t s r hm ht h id =
    let owner = if is_empty t.machine_id then m else t.machine_id in
    let route : ThreadRoute = record { machine_id = owner; agent_id = t.agent_id } in
    ground (
      arith,
      resolve_thread-track_thread t.thread_id owner t.agent_id r id ht,
      Dict.get-put s.thread_routes t.thread_id route id,
      h id,
    )
