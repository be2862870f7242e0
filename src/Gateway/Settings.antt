-- ===== src/Gateway/Settings.antt =====
-- gateway/internal/settings/memory_store.go: the configuration documents of the agent types, once
-- for all machines and once for each machine, and the preferences of the console. A method that
-- changes the store returns the new one; the lock makes each method one step. The clock is an
-- argument: `now` is what s.timeNow().UTC().Format(time.RFC3339) returns at the call.
pub mod Documents
pub mod Snapshots
pub mod FileStore
mod Tests
use agent_console.Prelude.{
  ℕ, ◌+◌, ◌%◌, ◌^◌, Str, str, ◌==◌, is_empty, Bool, true, false, Option, none, some, List, [], ◌∷◌,
  map, if◌then◌else◌,
}
use agent_console.Prelude.Result.{Result, ok, err}
use agent_console.Prelude.Text.Trim.{trim_space}
use agent_console.Prelude.Dict
use agent_console.Prelude.Dict.{Dict}
use agent_console.Domain.Config.{
  AgentDescriptor, AgentConfigDocument, AgentConfigFormat, ConsolePreferences,
}

pub record MemoryStore : Type 0 where
  pub agents : List AgentDescriptor
  pub globals : Dict AgentConfigDocument
  pub machines : Dict (Dict AgentConfigDocument)
  pub console_preferences : Option ConsolePreferences
  pub updated_by : Str

pub data SettingsError : Type 0 where
  machine_id_required agent_type_required : SettingsError

pub new_memory_store : List AgentDescriptor → MemoryStore
new_memory_store agents = record {
  agents = agents;
  globals = [];
  machines = [];
  console_preferences = none;
  updated_by = str "console";
}

pub list_agent_types : MemoryStore → List AgentDescriptor
list_agent_types s = s.agents

-- strings.TrimSpace(s) == ""
abbrev pub is_blank : Str → Bool
is_blank s = is_empty (trim_space s)

abbrev or_toml : AgentConfigFormat → AgentConfigFormat
or_toml AgentConfigFormat.unset = AgentConfigFormat.toml
or_toml format = format

-- An int64 wraps round.
abbrev pub next_version : ℕ → ℕ
next_version v = (v + 1) % 2 ^ 64

stamp_document : MemoryStore → Str → Str → AgentConfigDocument → ℕ → AgentConfigDocument
stamp_document s now agent_type document current_version = record document {
  agent_type = agent_type;
  format = or_toml document.format;
  version = next_version current_version;
  updated_at = now;
  updated_by = if is_blank document.updated_by then s.updated_by else document.updated_by;
}

-- The version of `current := documents[agentType]`, 0 where there is none.
abbrev pub version_of : Option AgentConfigDocument → ℕ
version_of none = 0
version_of (some d) = d.version

pub get_global : MemoryStore → Str → Option AgentConfigDocument
get_global s agent_type = Dict.get s.globals agent_type

pub put_global : Str → Str → AgentConfigDocument → MemoryStore → Result SettingsError MemoryStore
unfolding stamp_document
put_global now agent_type document s =
    let stamped =
      stamp_document s now agent_type document (version_of (Dict.get s.globals agent_type)) in
    if is_blank agent_type
    then err agent_type_required
    else ok (record s { globals = Dict.put s.globals agent_type stamped })

-- s.machines[machineID], nil where the machine is missing
abbrev pub documents_of : MemoryStore → Str → Dict AgentConfigDocument
documents_of s machine_id = Dict.get_or [] (Dict.get s.machines machine_id)

pub get_machine : MemoryStore → Str → Str → Option AgentConfigDocument
get_machine s machine_id agent_type = Dict.get (documents_of s machine_id) agent_type

pub put_machine :
    Str → Str → Str → AgentConfigDocument → MemoryStore → Result SettingsError MemoryStore
unfolding stamp_document
put_machine now machine_id agent_type document s =
    let documents = documents_of s machine_id in
    let stamped =
      stamp_document s now agent_type document (version_of (Dict.get documents agent_type)) in
    if is_blank machine_id
    then err machine_id_required
    else if is_blank agent_type
    then err agent_type_required
    else ok (record s {
      machines = Dict.put s.machines machine_id (Dict.put documents agent_type stamped);
    })

-- A machine that is left without documents goes.
store_documents : Str → Dict AgentConfigDocument → MemoryStore → MemoryStore
store_documents machine_id [] s = record s { machines = Dict.remove s.machines machine_id }
store_documents machine_id (d ∷ ds) s = record s {
  machines = Dict.put s.machines machine_id (d ∷ ds);
}

pub delete_machine : Str → Str → MemoryStore → Result SettingsError MemoryStore
unfolding store_documents
delete_machine machine_id agent_type s =
    if is_blank machine_id
    then err machine_id_required
    else if is_blank agent_type
    then err agent_type_required
    else elim (Dict.get s.machines machine_id) [
      | none ↦ ok s
      | some documents ↦ ok (store_documents machine_id (Dict.remove documents agent_type) s)
    ]

-- cloneThreadTitles: an empty map becomes nil.
clone_thread_titles : Option (Dict Str) → Option (Dict Str)
clone_thread_titles none = none
clone_thread_titles (some []) = none
clone_thread_titles (some (e ∷ es)) = some (e ∷ es)

copy_preferences : ConsolePreferences → ConsolePreferences
unfolding clone_thread_titles
copy_preferences p = record p { thread_titles = clone_thread_titles p.thread_titles }

copy_some : Option ConsolePreferences → Option ConsolePreferences
copy_some none = none
copy_some (some p) = some (copy_preferences p)

pub get_console_preferences : MemoryStore → Option ConsolePreferences
unfolding copy_some copy_preferences
get_console_preferences s = copy_some s.console_preferences

pub put_console_preferences : ConsolePreferences → MemoryStore → MemoryStore
unfolding copy_preferences
put_console_preferences p s = record s { console_preferences = some (copy_preferences p) }

pub record PersistedState : Type 0 where
  pub agents : List AgentDescriptor
  pub globals : Dict AgentConfigDocument
  pub machines : Dict (Dict AgentConfigDocument)
  pub console_preferences : Option ConsolePreferences

-- The loops of cloneDocumentMap and cloneMachineDocumentMap.
pub clone_documents : Dict AgentConfigDocument → Dict AgentConfigDocument → Dict AgentConfigDocument
clone_documents cloned [] = cloned
clone_documents cloned ((k, v) ∷ source) = clone_documents (Dict.put cloned k v) source

pub clone_machines :
    Dict (Dict AgentConfigDocument)
    → Dict (Dict AgentConfigDocument)
    → Dict (Dict AgentConfigDocument)
clone_machines cloned [] = cloned
clone_machines cloned ((k, v) ∷ source) =
    clone_machines (Dict.put cloned k (clone_documents [] v)) source

pub snapshot : MemoryStore → PersistedState
unfolding clone_documents clone_machines copy_some copy_preferences
snapshot s = record {
  agents = s.agents;
  globals = clone_documents [] s.globals;
  machines = clone_machines [] s.machines;
  console_preferences = copy_some s.console_preferences;
}

pub load : PersistedState → MemoryStore → MemoryStore
unfolding clone_documents clone_machines copy_some copy_preferences
load state s = record s {
  agents = state.agents;
  globals = clone_documents [] state.globals;
  machines = clone_machines [] state.machines;
  console_preferences = copy_some state.console_preferences;
}
