-- ===== src/Gateway/RuntimeIndex.antt =====
-- gateway/internal/runtimeindex/store.go: the threads and the environment of each machine, as its
-- last snapshot gave them, and the route of each thread. A method that changes the store returns
-- the new one; the lock makes each method one step. A nil store is not modelled.
pub mod Activity
pub mod Routes
pub mod Threads
pub mod Metrics
pub mod Mirrored
mod Tests
use agent_console.Prelude.{
  ℕ, Str, ◌==◌, is_empty, Bool, not, Option, none, some, List, [], ◌∷◌, ◌++◌, ◌+◌, map, length,
  if◌then◌else◌,
}
use agent_console.Prelude.Text.Trim.{trim_space}
use agent_console.Prelude.Lists.{keep, count}
use agent_console.Prelude.Dict
use agent_console.Prelude.Dict.{Dict}
use agent_console.Prelude.Time.{TimeText}
use agent_console.Domain.Thread.{Thread, ThreadRoute, ThreadStatus, OverviewMetrics, is_active}
use agent_console.Domain.Environment.{EnvironmentResource, EnvironmentKind, kind_eq}
use Activity.{latest_thread_activity}

pub record Store : Type 0 where
  pub threads_by_machine : Dict (List Thread)
  pub environment_by_machine : Dict (List EnvironmentResource)
  pub thread_routes : Dict ThreadRoute

unfoldable pub new_store : Store
new_store = record { threads_by_machine = []; environment_by_machine = []; thread_routes = [] }

-- s.threadsByMachine[machineID], nil where the machine is missing
abbrev pub threads_of : Store → Str → List Thread
threads_of s machine_id = Dict.get_or [] (Dict.get s.threads_by_machine machine_id)

-- The loop that fills previousByThreadID.
index_threads : List Thread → Dict Thread → Dict Thread
index_threads [] d = d
index_threads (t ∷ ts) d =
    index_threads ts (if is_empty (trim_space t.thread_id) then d else Dict.put d t.thread_id t)

-- The loop that deletes the routes of a machine.
delete_machine : Str → Dict ThreadRoute → Dict ThreadRoute
delete_machine machine_id = Dict.retain (λ route. not (route.machine_id == machine_id))

-- The loop that enters the routes of the threads of a snapshot.
insert_routes : Str → List Thread → Dict ThreadRoute → Dict ThreadRoute
insert_routes machine_id [] d = d
insert_routes machine_id (t ∷ ts) d =
    let owner = if is_empty t.machine_id then machine_id else t.machine_id in
    let route : ThreadRoute = record { machine_id = owner; agent_id = t.agent_id } in
    insert_routes machine_id ts (if is_empty t.thread_id then d else Dict.put d t.thread_id route)

abbrev set_unknown : Thread → Thread
set_unknown t = record t { status = ThreadStatus.unknown }

module _ (time : TimeText) where
  abbrev newer : Thread → Option Thread → Thread
  newer t none = t
  newer t (some existing) = record t {
    last_activity_at = latest_thread_activity time existing.last_activity_at t.last_activity_at;
  }

  -- One round of the loop over nextThreads: the map is read at the trimmed id.
  refresh : Dict Thread → Thread → Thread
  refresh previous t =
      let id = trim_space t.thread_id in if is_empty id then t else newer t (Dict.get previous id)

  pub replace_snapshot : Str → List Thread → List EnvironmentResource → Store → Store
  unfolding index_threads delete_machine insert_routes refresh
  replace_snapshot machine_id threads environment s =
      let previous = index_threads (threads_of s machine_id) [] in
      record {
        threads_by_machine =
            Dict.put s.threads_by_machine machine_id (map (refresh previous) threads);
        environment_by_machine = Dict.put s.environment_by_machine machine_id environment;
        thread_routes =
            insert_routes machine_id threads (delete_machine machine_id s.thread_routes);
      }

  -- The loop over the items: the first thread with this id is replaced, and where there is none the
  -- thread is appended.
  upsert_in : Thread → List Thread → List Thread
  upsert_in thread [] = thread ∷ []
  upsert_in thread (x ∷ xs) =
      if x.thread_id == thread.thread_id
      then newer thread (some x) ∷ xs
      else x ∷ upsert_in thread xs

  pub upsert_thread : Str → Thread → Store → Store
  unfolding upsert_in
  upsert_thread machine_id thread s =
      let owner = if is_empty thread.machine_id then machine_id else thread.machine_id in
      let owned = record thread { machine_id = owner } in
      if is_empty machine_id then s else if is_empty thread.thread_id then s else record s {
        threads_by_machine =
            Dict.put s.threads_by_machine machine_id (upsert_in owned (threads_of s machine_id));
        thread_routes =
            Dict.put s.thread_routes thread.thread_id
              (record { machine_id = owner; agent_id = thread.agent_id });
      }

pub remove_thread : Str → Str → Store → Store
remove_thread machine_id thread_id s =
    if is_empty machine_id then s else if is_empty thread_id then s else record s {
      threads_by_machine =
          Dict.put s.threads_by_machine machine_id
            (keep (λ t. not (t.thread_id == thread_id)) (threads_of s machine_id));
      thread_routes = Dict.remove s.thread_routes thread_id;
    }

pub clear_machine : Str → Store → Store
unfolding delete_machine
clear_machine machine_id s = if is_empty machine_id then s else record {
  threads_by_machine = Dict.remove s.threads_by_machine machine_id;
  environment_by_machine = Dict.remove s.environment_by_machine machine_id;
  thread_routes = delete_machine machine_id s.thread_routes;
}

-- The write after the test on len(threads).
mark_threads : Str → List Thread → Store → Store
mark_threads machine_id [] s = s
mark_threads machine_id (t ∷ ts) s = record s {
  threads_by_machine = Dict.put s.threads_by_machine machine_id (map set_unknown (t ∷ ts));
}

pub mark_machine_unknown : Str → Store → Store
unfolding mark_threads
mark_machine_unknown machine_id s =
    if is_empty machine_id then s else mark_threads machine_id (threads_of s machine_id) s

concat {ℓ} : {A : Type ℓ} → List (List A) → List A
concat [] = []
concat (xs ∷ xss) = xs ++ concat xss

pub all_threads : Store → List Thread
unfolding concat
all_threads s = concat (Dict.values s.threads_by_machine)

pub environment : EnvironmentKind → Store → List EnvironmentResource
unfolding concat
environment kind s =
    keep (λ item. kind_eq item.kind kind) (concat (Dict.values s.environment_by_machine))

unfoldable pub thread_route : Store → Str → Option ThreadRoute
thread_route s thread_id = Dict.get s.thread_routes thread_id

-- The two counting loops of OverviewMetrics.
count_active : List (List Thread) → ℕ
count_active [] = 0
count_active (ts ∷ rest) = count (λ t. is_active t.status) ts + count_active rest

count_items : List (List EnvironmentResource) → ℕ
count_items [] = 0
count_items (items ∷ rest) = length items + count_items rest

pub overview_metrics : Store → OverviewMetrics
unfolding count_active count_items
overview_metrics s = record {
  online_machines = 0;
  active_threads = count_active (Dict.values s.threads_by_machine);
  pending_approvals = 0;
  running_agents = 0;
  environment_items = count_items (Dict.values s.environment_by_machine);
}
