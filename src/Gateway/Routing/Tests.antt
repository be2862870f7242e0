-- ===== src/Gateway/Routing/Tests.antt =====
-- The router at concrete inputs.
use agent_console.Prelude.{Str, str, ◌==◌, ◌≡◌, refl, none, some, List, [], ◌∷◌}
use agent_console.Prelude.Dict
use agent_console.Domain.Thread.{Thread, ThreadStatus}
use agent_console.Gateway.Routing.{
  Router, new_router, track_thread, replace_snapshot, resolve_thread,
}
use agent_console.Gateway.Routing.Resolve.{resolve_thread-replace_snapshot}

abbrev pub thread_on : Str → Str → Thread
thread_on id machine_id = record {
  thread_id = id;
  machine_id = machine_id;
  agent_id = str "agent-01";
  status = ThreadStatus.idle;
  title = [];
  last_activity_at = [];
  messages = [];
}

abbrev two_threads : List Thread
two_threads = thread_on (str "t1") [] ∷ thread_on (str "t2") (str "m2") ∷ []

abbrev tracked : Router
tracked = track_thread (str "t0") (str "m1") (str "agent-01") new_router

snapshot_routes :
    resolve_thread (replace_snapshot (str "m1") two_threads tracked) (str "t1")
    ≡ some (record { machine_id = str "m1"; agent_id = str "agent-01" })
unfolding resolve_thread replace_snapshot track_thread new_router Dict.get Dict.put Dict.retain
snapshot_routes = refl

snapshot_forgets :
    resolve_thread (replace_snapshot (str "m1") two_threads tracked) (str "t0") ≡ none
unfolding resolve_thread replace_snapshot track_thread new_router Dict.get Dict.put Dict.retain
snapshot_forgets = refl

resolve_thread-replace_snapshot_example :
    resolve_thread (replace_snapshot (str "m1") two_threads tracked) (str "t2")
    ≡ some (record { machine_id = str "m2"; agent_id = str "agent-01" })
unfolding ◌==◌
resolve_thread-replace_snapshot_example =
    resolve_thread-replace_snapshot (str "m1") two_threads tracked (str "t2")
