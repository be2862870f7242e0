-- ===== src/Client/FakeAdapter/Tests.antt =====
-- The fake adapter at concrete inputs.
use agent_console.Prelude.{
  str, ◌==◌, ◌≡◌, refl, false, none, some, List, [], ◌∷◌, arith, if◌then◌else◌,
}
use agent_console.Prelude.Result.{ok, err}
use agent_console.Prelude.Dict
use agent_console.Prelude.Text.Decimal.{decimal, decimal2}
use agent_console.Domain.Json.{no_fields}
use agent_console.Domain.Turn.{Turn, TurnStatus, ThreadRuntimePreferences}
use agent_console.Client.FakeAdapter.{
  FakeAdapter, FakeError, new_fake_adapter, create_thread, read_thread, start_turn, steer_turn,
  interrupt_turn, turn_name, thread_name,
}
use agent_console.Client.FakeAdapter.Threads.{IsConsistent, read-create_thread}
use agent_console.Client.FakeAdapter.Runs
use agent_console.Client.FakeAdapter.Runs.{
  ThreadOp, create, resume, archive, start, interrupt, run_ops-IsConsistent,
}
use agent_console.Client.FakeAdapter.Turns.{start_result, steer_result, start_turn-run_ops}
use agent_console.Client.FakeAdapter.Resources.{Paths}
use agent_console.Client.FakeAdapter.Refinement
use agent_console.Client.FakeAdapter.Refinement.{
  View, EnvOp, install, enable_plugin, upsert_mcp, uninstall,
}

new-IsConsistent : IsConsistent new_fake_adapter
new-IsConsistent = record {
  threads_named = λ id t e. ground arith;
  turns_named = λ id turn e. ground (arith, Dict.get-nil {V = Turn} id);
  turns_owned = λ id turn e. ground (arith, Dict.get-nil {V = Turn} id);
  settings_owned = λ id p e. ground (arith, Dict.get-nil {V = ThreadRuntimePreferences} id);
}

abbrev ops : List ThreadOp
ops =
    create (str "first")
    ∷ start (thread_name 1)
    ∷ archive (thread_name 1)
    ∷ create (str "second")
    ∷ interrupt (thread_name 1) (turn_name 1)
    ∷ []

run_ops-IsConsistent_example : IsConsistent (Runs.run_ops ops new_fake_adapter)
run_ops-IsConsistent_example =
    run_ops-IsConsistent ops new_fake_adapter (omega arith) (omega arith) new-IsConsistent

read-create_thread_example :
    let (a', t) = create_thread (str "first") new_fake_adapter in
    (read_thread t.thread_id new_fake_adapter ≡ err FakeError.thread_not_found)
    × (read_thread (str "thread-07") a' ≡ (
        if t.thread_id == str "thread-07"
        then ok t
        else read_thread (str "thread-07") new_fake_adapter))
read-create_thread_example =
    read-create_thread (str "first") new_fake_adapter (str "thread-07") new-IsConsistent

abbrev with_thread : FakeAdapter
with_thread = Runs.run_ops (create (str "first") ∷ []) new_fake_adapter

with_thread-IsConsistent : IsConsistent with_thread
with_thread-IsConsistent =
    run_ops-IsConsistent (create (str "first") ∷ []) new_fake_adapter (omega arith) (omega arith)
      new-IsConsistent

start_turn-run_ops_example :
    let later = Runs.run_ops ops (start_turn (thread_name 1) with_thread).0 in
    ((start_turn (thread_name 1) with_thread).1 ≡ ok (start_result (thread_name 1) (turn_name 1)))
    × (steer_turn (thread_name 1) (turn_name 1) later
        ≡ ok (steer_result (thread_name 1) (turn_name 1)))
    × ((stopped : Turn) × ((interrupt_turn (thread_name 1) (turn_name 1) later).1 ≡ ok stopped)
        × (stopped.thread_id ≡ thread_name 1)
        × (stopped.status ≡ TurnStatus.interrupted))
unfolding create_thread decimal2 decimal ◌==◌
start_turn-run_ops_example =
    start_turn-run_ops ops (thread_name 1) with_thread
      (create_thread (str "first") new_fake_adapter).1 refl (omega arith) (omega arith)
      with_thread-IsConsistent

abbrev paths : Paths
paths = record { home = some (str "/root"); join = λ parts. str "p"; to_lower = λ s. s }

abbrev env_ops : List EnvOp
env_ops =
    install (str "p1") (str "/market") (str "Plugin")
    ∷ upsert_mcp (str "server") no_fields
    ∷ enable_plugin (str "p1") false
    ∷ uninstall (str "p2")
    ∷ []

abbrev nothing : View
nothing kind id = none
