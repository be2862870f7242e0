-- ===== src/Client/Manager.antt =====
-- client/internal/agent/manager/manager.go, with the interfaces of client/internal/agent/types/interfaces.go
-- and Build of client/internal/snapshot/builder.go. The manager passes a call on to the runtime of
-- a name. A runtime is a state with the operations of the record Runtime; each name has a runtime
-- of its own. The optional interfaces depend on the dynamic type of the runtime, and so on its
-- state here. ReloadMCPServers of RuntimeMCPManager is left out: the manager does not call it.
pub mod Independence
pub mod Fake
mod Tests
use agent_console.Prelude.{
  Str, ◌==◌, Bool, true, false, Option, none, some, List, [], ◌∷◌, if◌then◌else◌,
}
use agent_console.Prelude.Result.{Result, ok, err}
use agent_console.Prelude.Dict
use agent_console.Prelude.Dict.{Dict}
use agent_console.Domain.Json.{Fields}
use agent_console.Domain.Thread.{Thread}
use agent_console.Domain.Environment.{EnvironmentResource}
use agent_console.Domain.Config.{AgentConfigDocument}
use agent_console.Domain.Turn.{Turn, ThreadRuntimePreferencePatch, ThreadRuntimeSettings}
use agent_console.Client.FakeAdapter.{TurnResult}

-- The value of a call that only says whether it failed.
pub data Done : Type 0 where
  done : Done

pub record ApplyConfigResult : Type 0 where
  pub agent_type : Str
  pub file_path : Str

-- A method of an object of type S, which may change it and may fail with an E.
abbrev pub Method : Type 0 → Type 0 → Type 0 → Type 0
Method E S A = S → S × Result E A

pub record SkillManager (E S : Type 0) : Type 0 where
  pub create_skill : Str → Str → Method E S Str
  pub delete_skill : Str → Method E S Done

pub record McpManager (E S : Type 0) : Type 0 where
  pub upsert_mcp_server : Str → Fields → Method E S Done
  pub remove_mcp_server : Str → Method E S Done
  pub set_mcp_server_enabled : Str → Bool → Method E S Done

pub record PluginManager (E S : Type 0) : Type 0 where
  pub install_plugin : Str → Str → Str → Method E S Done
  pub set_plugin_enabled : Str → Bool → Method E S Done
  pub uninstall_plugin : Str → Method E S Done

pub record SettingsManager (E S : Type 0) : Type 0 where
  pub read_settings : Str → Method E S ThreadRuntimeSettings
  pub update_settings : Str → ThreadRuntimePreferencePatch → Method E S ThreadRuntimeSettings

-- types.Runtime, and the interfaces that a runtime may have besides.
pub record Runtime (E S : Type 0) : Type 0 where
  pub list_threads : Method E S (List Thread)
  pub list_environment : Method E S (List EnvironmentResource)
  pub create_thread : Str → Method E S Thread
  pub read_thread : Str → Method E S Thread
  pub resume_thread : Str → Method E S Thread
  pub archive_thread : Str → Method E S Done
  pub start_turn : Str → Str → Method E S TurnResult
  pub steer_turn : Str → Str → Str → Method E S TurnResult
  pub interrupt_turn : Str → Str → Method E S Turn
  pub respond_approval : S → Option (Str → Str → Fields → Method E S Done)
  pub set_skill_enabled : S → Option (Str → Bool → Method E S Done)
  pub skills : S → Option (SkillManager E S)
  pub mcp : S → Option (McpManager E S)
  pub plugins : S → Option (PluginManager E S)
  pub config : S → Option (AgentConfigDocument → Method E S ApplyConfigResult)
  pub settings : S → Option (SettingsManager E S)

pub data ManagerError (E : Type 0) : Type 0 where
  not_configured not_registered unsupported : ManagerError E
  failed : E → ManagerError E

-- The registry of the runtimes, none where the manager has none.
pub record Manager (S : Type 0) : Type 0 where
  pub registry : Option (Dict S)

pub record RuntimeSnapshot : Type 0 where
  pub threads : List Thread
  pub environment : List EnvironmentResource

abbrev pub lifted : {E A : Type 0} → Result E A → Result (ManagerError E) A
lifted (ok a) = ok a
lifted (err e) = err (failed e)

module _ {E S : Type 0} where
  -- The runtime after the call takes the place of the one before.
  abbrev put_back :
      {A : Type 0} → Dict S → Str → S × Result E A → Manager S × Result (ManagerError E) A
  put_back d name (s, r) = (record { registry = some (Dict.put d name s) }, lifted r)

  abbrev on_found :
      {A : Type 0} → Method E S A → Dict S → Str → Option S → Manager S × Result (ManagerError E) A
  on_found f d name none = (record { registry = some d }, err not_registered)
  on_found f d name (some s) = put_back d name (f s)

  -- resolveRuntime, and the call.
  abbrev on_registry :
      {A : Type 0} → Method E S A → Str → Option (Dict S) → Manager S × Result (ManagerError E) A
  on_registry f name none = (record { registry = none }, err not_configured)
  on_registry f name (some d) = on_found f d name (Dict.get d name)

  abbrev pub call :
      {A : Type 0} → Method E S A → Str → Manager S → Manager S × Result (ManagerError E) A
  call f name m = on_registry f name m.registry

  -- The type assertion, and the call of a method that the assertion makes possible.
  abbrev if_supported :
      {A I : Type 0}
      → (I → Method E S A)
      → Dict S
      → Str
      → S
      → Option I
      → Manager S × Result (ManagerError E) A
  if_supported f d name s none = (record { registry = some d }, err unsupported)
  if_supported f d name s (some i) = put_back d name (f i s)

  abbrev optional_found :
      {A I : Type 0}
      → (S → Option I)
      → (I → Method E S A)
      → Dict S
      → Str
      → Option S
      → Manager S × Result (ManagerError E) A
  optional_found supports f d name none = (record { registry = some d }, err not_registered)
  optional_found supports f d name (some s) = if_supported f d name s (supports s)

  abbrev optional_registry :
      {A I : Type 0}
      → (S → Option I)
      → (I → Method E S A)
      → Str
      → Option (Dict S)
      → Manager S × Result (ManagerError E) A
  optional_registry supports f name none = (record { registry = none }, err not_configured)
  optional_registry supports f name (some d) = optional_found supports f d name (Dict.get d name)

  abbrev pub call_optional :
      {A I : Type 0}
      → (S → Option I)
      → (I → Method E S A)
      → Str
      → Manager S
      → Manager S × Result (ManagerError E) A
  call_optional supports f name m = optional_registry supports f name m.registry

  -- snapshot.Build
  build_environment :
      List Thread → S × Result E (List EnvironmentResource) → S × Result E RuntimeSnapshot
  build_environment threads (s, err e) = (s, err e)
  build_environment threads (s, ok environment) =
      (s, ok (record { threads = threads; environment = environment }))

  build_threads : Runtime E S → S × Result E (List Thread) → S × Result E RuntimeSnapshot
  unfolding build_environment
  build_threads runtime (s, err e) = (s, err e)
  build_threads runtime (s, ok threads) = build_environment threads (runtime.list_environment s)

  unfoldable pub build : Runtime E S → Method E S RuntimeSnapshot
  unfolding build_threads
  build runtime s = build_threads runtime (runtime.list_threads s)

module _ {E S : Type 0} (runtime : Runtime E S) where
  abbrev Answer : Type 0 → Type 0
  Answer A = Manager S × Result (ManagerError E) A

  abbrev pub threads : Str → Manager S → Answer (List Thread)
  threads name m = call runtime.list_threads name m

  abbrev pub environment : Str → Manager S → Answer (List EnvironmentResource)
  environment name m = call runtime.list_environment name m

  abbrev pub create_thread : Str → Str → Manager S → Answer Thread
  create_thread name title m = call (runtime.create_thread title) name m

  abbrev pub read_thread : Str → Str → Manager S → Answer Thread
  read_thread name id m = call (runtime.read_thread id) name m

  abbrev pub resume_thread : Str → Str → Manager S → Answer Thread
  resume_thread name id m = call (runtime.resume_thread id) name m

  abbrev pub archive_thread : Str → Str → Manager S → Answer Done
  archive_thread name id m = call (runtime.archive_thread id) name m

  abbrev pub start_turn : Str → Str → Str → Manager S → Answer TurnResult
  start_turn name id input m = call (runtime.start_turn id input) name m

  abbrev pub steer_turn : Str → Str → Str → Str → Manager S → Answer TurnResult
  steer_turn name id turn input m = call (runtime.steer_turn id turn input) name m

  abbrev pub interrupt_turn : Str → Str → Str → Manager S → Answer Turn
  interrupt_turn name id turn m = call (runtime.interrupt_turn id turn) name m

  abbrev pub respond_approval : Str → Str → Str → Fields → Manager S → Answer Done
  respond_approval name id decision answers m =
      call_optional runtime.respond_approval (λ respond. respond id decision answers) name m

  abbrev pub set_skill_enabled : Str → Str → Bool → Manager S → Answer Done
  set_skill_enabled name id enabled m =
      call_optional runtime.set_skill_enabled (λ configure. configure id enabled) name m

  abbrev pub create_skill : Str → Str → Str → Manager S → Answer Str
  create_skill name skill description m =
      call_optional runtime.skills (λ i. i.create_skill skill description) name m

  abbrev pub delete_skill : Str → Str → Manager S → Answer Done
  delete_skill name skill m = call_optional runtime.skills (λ i. i.delete_skill skill) name m

  abbrev pub upsert_mcp_server : Str → Str → Fields → Manager S → Answer Done
  upsert_mcp_server name id config m =
      call_optional runtime.mcp (λ i. i.upsert_mcp_server id config) name m

  abbrev pub remove_mcp_server : Str → Str → Manager S → Answer Done
  remove_mcp_server name id m = call_optional runtime.mcp (λ i. i.remove_mcp_server id) name m

  abbrev pub set_mcp_server_enabled : Str → Str → Bool → Manager S → Answer Done
  set_mcp_server_enabled name id enabled m =
      call_optional runtime.mcp (λ i. i.set_mcp_server_enabled id enabled) name m

  abbrev pub install_plugin : Str → Str → Str → Str → Manager S → Answer Done
  install_plugin name id path plugin m =
      call_optional runtime.plugins (λ i. i.install_plugin id path plugin) name m

  abbrev pub set_plugin_enabled : Str → Str → Bool → Manager S → Answer Done
  set_plugin_enabled name id enabled m =
      call_optional runtime.plugins (λ i. i.set_plugin_enabled id enabled) name m

  abbrev pub uninstall_plugin : Str → Str → Manager S → Answer Done
  uninstall_plugin name id m = call_optional runtime.plugins (λ i. i.uninstall_plugin id) name m

  abbrev pub apply_config : Str → AgentConfigDocument → Manager S → Answer ApplyConfigResult
  apply_config name document m = call_optional runtime.config (λ apply. apply document) name m

  abbrev pub read_settings : Str → Str → Manager S → Answer ThreadRuntimeSettings
  read_settings name id m = call_optional runtime.settings (λ i. i.read_settings id) name m

  abbrev pub update_settings :
      Str → Str → ThreadRuntimePreferencePatch → Manager S → Answer ThreadRuntimeSettings
  update_settings name id patch m =
      call_optional runtime.settings (λ i. i.update_settings id patch) name m

  abbrev pub manager_snapshot : Str → Manager S → Answer RuntimeSnapshot
  manager_snapshot name m = call (build runtime) name m
