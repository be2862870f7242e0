-- ===== src/Gateway/Routing.antt =====
-- gateway/internal/routing/router.go: which machine and agent a thread belongs to. A method that
-- changes the router returns the new one; the lock makes each method one step.
pub mod Resolve
mod Tests
use agent_console.Prelude.{Str, ◌==◌, is_empty, Bool, not, Option, List, [], ◌∷◌, if◌then◌else◌}
use agent_console.Prelude.Dict
use agent_console.Prelude.Dict.{Dict}
use agent_console.Domain.Thread.{Thread, ThreadRoute}

pub record Router : Type 0 where
  pub threads : Dict ThreadRoute

unfoldable pub new_router : Router
new_router = record { threads = [] }

pub track_thread : Str → Str → Str → Router → Router
track_thread thread_id machine_id agent_id r = if is_empty thread_id then r else record r {
  threads = Dict.put r.threads thread_id (record { machine_id = machine_id; agent_id = agent_id });
}

-- The loop that deletes the routes of a machine.
pub delete_machine : Str → Dict ThreadRoute → Dict ThreadRoute
delete_machine machine_id = Dict.retain (λ route. not (route.machine_id == machine_id))

abbrev pub route_of : Str → Thread → ThreadRoute
route_of machine_id t = record {
  machine_id = if is_empty t.machine_id then machine_id else t.machine_id;
  agent_id = t.agent_id;
}

-- One round of the loop over the threads of a snapshot.
insert_route : Str → Thread → Dict ThreadRoute → Dict ThreadRoute
insert_route machine_id t d =
    if is_empty t.thread_id then d else Dict.put d t.thread_id (route_of machine_id t)

insert_routes : Str → List Thread → Dict ThreadRoute → Dict ThreadRoute
insert_routes machine_id [] d = d
insert_routes machine_id (t ∷ ts) d = insert_routes machine_id ts (insert_route machine_id t d)

pub replace_snapshot : Str → List Thread → Router → Router
unfolding delete_machine insert_route insert_routes
replace_snapshot machine_id threads r = record r {
  threads = insert_routes machine_id threads (delete_machine machine_id r.threads);
}

pub clear_machine : Str → Router → Router
unfolding delete_machine
clear_machine machine_id r =
    if is_empty machine_id then r else record r { threads = delete_machine machine_id r.threads }

unfoldable pub resolve_thread : Router → Str → Option ThreadRoute
resolve_thread r thread_id = Dict.get r.threads thread_id
