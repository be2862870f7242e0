-- ===== src/Client/FakeAdapter/Refinement.antt =====
-- The environment of the adapter as a table from kinds and ids to resources.
use agent_console.Prelude.{
  Str, ◌==◌, is_empty, Bool, true, false, ◌&&◌, Option, none, some, List, [], ◌∷◌, ◌≡◌, refl,
  if◌then◌else◌,
}
use agent_console.Prelude.Text.{eq_refl}
use agent_console.Prelude.Result.{Result, ok, err}
use agent_console.Prelude.Text.Trim.{trim_space}
use agent_console.Domain.Json.{Fields}
use agent_console.Domain.Environment.{
  EnvironmentResource, EnvironmentKind, EnvironmentResourceStatus, kind_eq,
}
use agent_console.Client.FakeAdapter.{FakeAdapter, FakeError}
use agent_console.Client.FakeAdapter.Resources.{
  Paths, is_resource, set_status, set_enabled_detail, merge_fake_resource, fake_resource,
  reinstalled, installed, plugin_enabled, plugin_gone, new_skill, set_skill_enabled,
  upsert_mcp_server, remove_mcp_server, set_mcp_server_enabled, install_plugin, set_plugin_enabled,
  uninstall_plugin, create_skill, delete_skill, skill_path, selected, normalize_skill_slug,
}

-- What ListEnvironment shows of a resource: the first one of the kind and the id.
abbrev pub find_resource :
    EnvironmentKind → Str → List EnvironmentResource → Option EnvironmentResource
find_resource kind id [] = none
find_resource kind id (r ∷ rs) = if is_resource kind id r then some r else find_resource kind id rs

kind_eq_refl : (a : EnvironmentKind) → kind_eq a a ≡ true
kind_eq_refl EnvironmentKind.unset = refl
kind_eq_refl EnvironmentKind.skill = refl
kind_eq_refl EnvironmentKind.mcp = refl
kind_eq_refl EnvironmentKind.plugin = refl
kind_eq_refl (EnvironmentKind.other a) = eq_refl a

abbrev map_some :
    (EnvironmentResource → EnvironmentResource)
    → Option EnvironmentResource
    → Option EnvironmentResource
map_some f none = none
map_some f (some r) = some (f r)

abbrev or_new :
    (EnvironmentResource → EnvironmentResource)
    → EnvironmentResource
    → Option EnvironmentResource
    → Option EnvironmentResource
or_new f new none = some new
or_new f new (some r) = some (f r)

IsKept : EnvironmentKind → Str → (EnvironmentResource → EnvironmentResource) → Type 0
IsKept k id f =
    (r : EnvironmentResource) → is_resource k id r ≡ true → is_resource k id (f r) ≡ true

-- What each operation does to the table.
abbrev pub View : Type 0
View = EnvironmentKind → Str → Option EnvironmentResource

abbrev at :
    EnvironmentKind → Str → (Option EnvironmentResource → Option EnvironmentResource) → View → View
at k id f view l j = if kind_eq k l && id == j then f (view l j) else view l j

-- The adapter shows what the table holds.
pub record Shows (view : View) (a : FakeAdapter) : Type 0 where
  pub shown : (l : EnvironmentKind) (j : Str) → find_resource l j a.environment ≡ view l j

pub data EnvOp : Type 0 where
  enable_skill : Str → Bool → EnvOp
  make_skill drop_skill : Str → EnvOp
  upsert_mcp : Str → Fields → EnvOp
  remove_mcp : Str → EnvOp
  enable_mcp : Str → Bool → EnvOp
  install : Str → Str → Str → EnvOp
  enable_plugin : Str → Bool → EnvOp
  uninstall : Str → EnvOp

abbrev on_ok : Result FakeError Str → (Str → View → View) → View → View
on_ok (err e) f view = view
on_ok (ok path) f view = f path view

module _ (paths : Paths) where
  abbrev pub apply : EnvOp → FakeAdapter → FakeAdapter
  apply (enable_skill id enabled) a = (set_skill_enabled id enabled a).0
  apply (make_skill name) a = (create_skill paths name a).0
  apply (drop_skill name) a = (delete_skill paths name a).0
  apply (upsert_mcp id config) a = upsert_mcp_server id config a
  apply (remove_mcp id) a = (remove_mcp_server id a).0
  apply (enable_mcp id enabled) a = (set_mcp_server_enabled id enabled a).0
  apply (install id path name) a = install_plugin id path name a
  apply (enable_plugin id enabled) a = (set_plugin_enabled id enabled a).0
  apply (uninstall id) a = (uninstall_plugin id a).0

  abbrev made : Str → Str → View → View
  made name path =
      at EnvironmentKind.skill path
        (or_new (merge_fake_resource (new_skill paths path name)) (new_skill paths path name))

  abbrev pub specified : EnvOp → View → View
  specified (enable_skill id enabled) = at EnvironmentKind.skill id (map_some (set_status enabled))
  specified (make_skill given) =
      let name = trim_space given in
      if is_empty name
      then (λ view. view)
      else on_ok (skill_path paths (normalize_skill_slug paths name) paths.home) (made name)
  specified (drop_skill given) =
      let name = trim_space given in
      if is_empty name
      then (λ view. view)
      else on_ok (selected paths name) (λ path. at EnvironmentKind.skill path (λ o. none))
  specified (upsert_mcp id config) =
      let new =
        fake_resource EnvironmentKind.mcp id id EnvironmentResourceStatus.enabled false config in
      at EnvironmentKind.mcp id (or_new (merge_fake_resource new) new)
  specified (remove_mcp id) = at EnvironmentKind.mcp id (λ o. none)
  specified (enable_mcp id enabled) =
      at EnvironmentKind.mcp id (map_some (set_enabled_detail enabled))
  specified (install id path name) =
      at EnvironmentKind.plugin id (or_new (reinstalled path name) (installed id path name))
  specified (enable_plugin id enabled) =
      at EnvironmentKind.plugin id (map_some (plugin_enabled enabled))
  specified (uninstall id) = at EnvironmentKind.plugin id (map_some plugin_gone)

  abbrev pub run_ops : List EnvOp → FakeAdapter → FakeAdapter
  run_ops [] a = a
  run_ops (op ∷ ops) a = run_ops ops (apply op a)

  abbrev pub run_specified : List EnvOp → View → View
  run_specified [] view = view
  run_specified (op ∷ ops) view = run_specified ops (specified op view)
