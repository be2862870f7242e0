-- ===== src/Gateway/RuntimeIndex/Tests.antt =====
-- The runtime index at concrete inputs.
use agent_console.Prelude.{Str, str, ◌==◌, ◌≡◌, refl, none, some, List, [], ◌∷◌, map, arith}
use agent_console.Prelude.Dict
use agent_console.Prelude.Text.Trim.{trim_space}
use agent_console.Prelude.Time.Sample.{sample_time}
use agent_console.Domain.Thread.{Thread, ThreadStatus}
use agent_console.Gateway.Routing
use agent_console.Gateway.RuntimeIndex.{
  Store, new_store, threads_of, replace_snapshot, remove_thread, thread_route,
}
use agent_console.Gateway.RuntimeIndex.Activity.{
  parse_thread_activity, normalize_thread_activity, latest_thread_activity,
  latest_thread_activity-max,
}
use agent_console.Gateway.RuntimeIndex.Routes.{RoutesAgree, replace_snapshot-RoutesAgree}
use agent_console.Gateway.RuntimeIndex.Threads.{find_thread, remove_thread_complete}
use agent_console.Gateway.RuntimeIndex.Metrics.{
  IsWellFormed, Op, replace, remove, clear, run-IsWellFormed,
}

abbrev thread_at : Str → Str → ThreadStatus → Thread
thread_at id at status = record {
  thread_id = id;
  machine_id = [];
  agent_id = str "agent-01";
  status = status;
  title = [];
  last_activity_at = at;
  messages = [];
}

abbrev m1 : Str
m1 = str "m1"

abbrev t1 : Str
t1 = str "t1"

abbrev early : List Thread
early =
    thread_at t1 (str "B") ThreadStatus.active
    ∷ thread_at (str "t2") (str "C") ThreadStatus.idle
    ∷ []

abbrev late : List Thread
late = thread_at t1 (str "A") ThreadStatus.idle ∷ []

abbrev store1 : Store
store1 = replace_snapshot sample_time m1 early [] new_store

activity_kept :
    map (λ t. t.last_activity_at) (threads_of (replace_snapshot sample_time m1 late [] store1) m1)
    ≡ str "B" ∷ []
unfolding replace_snapshot new_store latest_thread_activity normalize_thread_activity
    parse_thread_activity trim_space ◌==◌ Dict.get Dict.put
activity_kept = refl

latest_thread_activity-max_example :
    parse_thread_activity sample_time (latest_thread_activity sample_time (str "B") (str "D"))
    ≡ some 31536003000000000
unfolding parse_thread_activity trim_space
latest_thread_activity-max_example =
    latest_thread_activity-max sample_time (str "B") (str "D") 31536001000000000 31536003000000000
      refl refl (omega arith) (omega arith) (omega arith) (omega arith)

empty_agree : RoutesAgree new_store Routing.new_router
unfolding thread_route new_store Routing.resolve_thread Routing.new_router Dict.get
empty_agree id = refl

replace_snapshot-RoutesAgree_example :
    RoutesAgree store1 (Routing.replace_snapshot m1 early Routing.new_router)
replace_snapshot-RoutesAgree_example =
    replace_snapshot-RoutesAgree sample_time m1 early [] new_store Routing.new_router empty_agree

remove_thread_complete_example :
    (find_thread t1 (threads_of (remove_thread m1 t1 store1) m1) ≡ none)
    × (thread_route (remove_thread m1 t1 store1) t1 ≡ none)
unfolding ◌==◌
remove_thread_complete_example = remove_thread_complete m1 t1 store1 t1 m1 (λ e. cc) (λ e. cc)

new_store-IsWellFormed : IsWellFormed new_store
unfolding new_store
new_store-IsWellFormed = record { threads_keyed = tt; environment_keyed = tt; routes_keyed = tt }

abbrev script : List Op
script = replace m1 early [] ∷ remove m1 t1 ∷ clear m1 ∷ []

store1-IsWellFormed : IsWellFormed store1
store1-IsWellFormed =
    run-IsWellFormed sample_time (replace m1 early [] ∷ []) new_store new_store-IsWellFormed
