-- ===== src/Gateway/Settings/Tests.antt =====
-- The settings at concrete inputs.
use agent_console.Prelude.{Str, str, ◌≡◌, refl, List, [], ◌∷◌, arith}
use agent_console.Prelude.Text.Trim.{trim_space}
use agent_console.Prelude.Dict
use agent_console.Domain.Config.{AgentConfigDocument, AgentConfigFormat}
use agent_console.Gateway.Settings.{
  MemoryStore, new_memory_store, version_of, get_global, get_machine, list_agent_types,
  get_console_preferences, snapshot, load,
}
use agent_console.Gateway.Settings.Documents.{put_globals, version-put_globals}
use agent_console.Gateway.Settings.Snapshots.{
  IsWellFormed, Op, put_global_op, put_machine_op, delete_machine_op, run_ops, run_ops-IsWellFormed,
  load-snapshot,
}

abbrev codex : Str
codex = str "codex"

abbrev m1 : Str
m1 = str "m1"

abbrev document : AgentConfigDocument
document = record {
  agent_type = [];
  format = AgentConfigFormat.unset;
  content = str "model = 1";
  updated_at = [];
  updated_by = [];
  version = 0;
}

abbrev fresh : MemoryStore
fresh = new_memory_store []

version-put_globals_example :
    version_of
      (get_global (put_globals codex ((str "a", document) ∷ (str "b", document) ∷ []) fresh) codex)
    ≡ 2
unfolding trim_space get_global new_memory_store Dict.get
version-put_globals_example =
    version-put_globals codex ((str "a", document) ∷ (str "b", document) ∷ []) fresh refl
      (omega arith)

fresh-IsWellFormed : IsWellFormed fresh
unfolding new_memory_store Dict.get
fresh-IsWellFormed = record { globals_keyed = tt; machines_keyed = tt; filled = λ m docs e. cc }

abbrev script : List Op
script =
    put_global_op (str "now") codex document
    ∷ put_machine_op (str "now") m1 codex document
    ∷ put_machine_op (str "now") (str "m2") codex document
    ∷ delete_machine_op m1 codex
    ∷ []

run_ops-IsWellFormed_example : IsWellFormed (run_ops script fresh)
run_ops-IsWellFormed_example = run_ops-IsWellFormed script fresh fresh-IsWellFormed

load-snapshot_example :
    let u = load (snapshot (run_ops script fresh)) fresh in
    (list_agent_types u ≡ list_agent_types (run_ops script fresh))
    × (get_global u codex ≡ get_global (run_ops script fresh) codex)
    × (get_machine u (str "m2") codex ≡ get_machine (run_ops script fresh) (str "m2") codex)
    × (get_console_preferences u ≡ get_console_preferences (run_ops script fresh))
load-snapshot_example =
    load-snapshot (run_ops script fresh) fresh (str "m2") codex run_ops-IsWellFormed_example
