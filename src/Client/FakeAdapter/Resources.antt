-- ===== src/Client/FakeAdapter/Resources.antt =====
-- fake_adapter.go: the resources of the environment, with the slugs of environment.go. The home directory,
-- filepath.Join and strings.ToLower are parameters.
use agent_console.Prelude.{
  ℕ, Str, str, ◌==◌, is_empty, Bool, true, false, not, ◌&&◌, ◌||◌, Option, none, some, List, [],
  ◌∷◌, ◌++◌, leb, nat_eq, if◌then◌else◌,
}
use mathlib.Core.List.{reverse}
use agent_console.Prelude.Result.{Result, ok, err}
use agent_console.Prelude.Lists.{keep}
use agent_console.Prelude.Text.Trim.{trim_space}
use agent_console.Prelude.Text.Utf8.{runes}
use agent_console.Domain.Json.{Fields, no_fields, field, Value, bool, text}
use agent_console.Domain.Environment.{
  EnvironmentResource, EnvironmentKind, EnvironmentResourceStatus, kind_eq,
}
use agent_console.Client.FakeAdapter.{
  FakeAdapter, FakeError, resource_not_found, name_required, name_invalid, id_required, no_home,
}

-- resource.Kind == kind && resource.ResourceID == id
abbrev pub is_resource : EnvironmentKind → Str → EnvironmentResource → Bool
is_resource kind id r = kind_eq r.kind kind && r.resource_id == id

abbrev pub has_resource : EnvironmentKind → Str → List EnvironmentResource → Bool
has_resource kind id [] = false
has_resource kind id (r ∷ rs) = is_resource kind id r || has_resource kind id rs

-- The first resource of the kind and the id is changed, and the loop ends.
abbrev pub change_resource :
    EnvironmentKind
    → Str
    → (EnvironmentResource → EnvironmentResource)
    → List EnvironmentResource
    → List EnvironmentResource
change_resource kind id f [] = []
change_resource kind id f (r ∷ rs) =
    if is_resource kind id r then f r ∷ rs else r ∷ change_resource kind id f rs

abbrev pub enabled_status : Bool → EnvironmentResourceStatus
enabled_status true = EnvironmentResourceStatus.enabled
enabled_status false = EnvironmentResourceStatus.disabled

-- details[key] = value
abbrev pub put_field : Str → Value → Fields → Fields
put_field key value no_fields = field key value no_fields
put_field key value (field k v rest) =
    if k == key then field key value rest else field k v (put_field key value rest)

abbrev or_empty_map : Option Fields → Fields
or_empty_map none = no_fields
or_empty_map (some details) = details

abbrev or_some_details : Option Fields → Option Fields → Option Fields
or_some_details (some next) current = some next
or_some_details none current = some (or_empty_map current)

abbrev or_set : EnvironmentResourceStatus → EnvironmentResourceStatus → EnvironmentResourceStatus
or_set EnvironmentResourceStatus.unset current = current
or_set next current = next

-- mergeFakeEnvironmentResource
abbrev pub merge_fake_resource : EnvironmentResource → EnvironmentResource → EnvironmentResource
merge_fake_resource next current = record next {
  display_name = if is_empty next.display_name then current.display_name else next.display_name;
  status = or_set next.status current.status;
  details = or_some_details next.details current.details;
}

abbrev pub fake_resource :
    EnvironmentKind → Str → Str → EnvironmentResourceStatus → Bool → Fields → EnvironmentResource
fake_resource kind id name status restart details = record {
  resource_id = id;
  machine_id = [];
  agent_id = [];
  kind = kind;
  display_name = name;
  status = status;
  restart_required = restart;
  last_observed_at = [];
  details = some details;
}

-- A loop that changes a resource, or says that there is none.
abbrev pub change_or_fail :
    EnvironmentKind
    → Str
    → (EnvironmentResource → EnvironmentResource)
    → FakeAdapter
    → FakeAdapter × Option FakeError
change_or_fail kind id f a =
    if has_resource kind id a.environment
    then (record a { environment = change_resource kind id f a.environment }, none)
    else (a, some resource_not_found)

-- A loop that changes a resource, or adds one.
abbrev pub change_or_add :
    EnvironmentKind
    → Str
    → (EnvironmentResource → EnvironmentResource)
    → EnvironmentResource
    → FakeAdapter
    → FakeAdapter
change_or_add kind id f new a = record a {
  environment =
      if has_resource kind id a.environment
      then change_resource kind id f a.environment
      else a.environment ++ (new ∷ []);
}

-- A loop that keeps the other resources, or says that there is none.
abbrev pub remove_or_fail : EnvironmentKind → Str → FakeAdapter → FakeAdapter × Option FakeError
remove_or_fail kind id a =
    if has_resource kind id a.environment
    then (record a { environment = keep (λ r. not (is_resource kind id r)) a.environment }, none)
    else (a, some resource_not_found)

abbrev pub set_status : Bool → EnvironmentResource → EnvironmentResource
set_status enabled r = record r { status = enabled_status enabled }

unfoldable pub set_skill_enabled : Str → Bool → FakeAdapter → FakeAdapter × Option FakeError
set_skill_enabled name enabled a = change_or_fail EnvironmentKind.skill name (set_status enabled) a

unfoldable pub upsert_mcp_server : Str → Fields → FakeAdapter → FakeAdapter
upsert_mcp_server id config a =
    let new =
      fake_resource EnvironmentKind.mcp id id EnvironmentResourceStatus.enabled false config in
    change_or_add EnvironmentKind.mcp id (merge_fake_resource new) new a

unfoldable pub remove_mcp_server : Str → FakeAdapter → FakeAdapter × Option FakeError
remove_mcp_server id a = remove_or_fail EnvironmentKind.mcp id a

abbrev pub set_enabled_detail : Bool → EnvironmentResource → EnvironmentResource
set_enabled_detail enabled r = record (set_status enabled r) {
  details = some (put_field (str "enabled") (bool enabled) (or_empty_map r.details));
}

unfoldable pub set_mcp_server_enabled : Str → Bool → FakeAdapter → FakeAdapter × Option FakeError
set_mcp_server_enabled id enabled a =
    change_or_fail EnvironmentKind.mcp id (set_enabled_detail enabled) a

abbrev pub reinstalled : Str → Str → EnvironmentResource → EnvironmentResource
reinstalled path name r = record r {
  status = EnvironmentResourceStatus.enabled;
  restart_required = true;
  details = some (
      put_field (str "pluginName") (text name)
        (put_field (str "marketplacePath") (text path) (or_empty_map r.details)));
}

abbrev pub installed : Str → Str → Str → EnvironmentResource
installed id path name =
    fake_resource EnvironmentKind.plugin id name EnvironmentResourceStatus.enabled true
      (field (str "marketplacePath") (text path) (field (str "pluginName") (text name) no_fields))

unfoldable pub install_plugin : Str → Str → Str → FakeAdapter → FakeAdapter
install_plugin id path name a =
    change_or_add EnvironmentKind.plugin id (reinstalled path name) (installed id path name) a

abbrev pub plugin_enabled : Bool → EnvironmentResource → EnvironmentResource
plugin_enabled enabled r = record (set_enabled_detail enabled r) { restart_required = true }

unfoldable pub set_plugin_enabled : Str → Bool → FakeAdapter → FakeAdapter × Option FakeError
set_plugin_enabled id enabled a =
    change_or_fail EnvironmentKind.plugin id (plugin_enabled enabled) a

abbrev pub plugin_gone : EnvironmentResource → EnvironmentResource
plugin_gone r = record r { status = EnvironmentResourceStatus.unknown; restart_required = true }

unfoldable pub uninstall_plugin : Str → FakeAdapter → FakeAdapter × Option FakeError
uninstall_plugin id a = change_or_fail EnvironmentKind.plugin id plugin_gone a

-- resolveUserHomeDir, filepath.Join and strings.ToLower.
pub record Paths : Type 0 where
  pub home : Option Str
  pub join : List Str → Str
  pub to_lower : Str → Str

-- (r >= 'a' && r <= 'z') || (r >= '0' && r <= '9')
abbrev is_slug_rune : ℕ → Bool
is_slug_rune r = (leb b'a' r && leb r b'z') || (leb b'0' r && leb r b'9')

-- The loop of normalizeSkillSlug; `built` is what the builder holds, the last byte first.
slug_loop : List ℕ → Bool → Str → Str
slug_loop [] last_dash built = built
slug_loop (r ∷ rs) last_dash built =
    let with_rune = slug_loop rs false (r ∷ built) in
    let with_dash = slug_loop rs true (b'-' ∷ built) in
    let as_before = slug_loop rs last_dash built in
    if is_slug_rune r
    then with_rune
    else if not last_dash && not (is_empty built)
    then with_dash
    else as_before

-- strings.TrimLeft(s, "-")
trim_dashes : Str → Str
trim_dashes [] = []
trim_dashes (c ∷ s) = let rest = trim_dashes s in if nat_eq c b'-' then rest else c ∷ s

unfoldable pub normalize_skill_slug : Paths → Str → Str
unfolding slug_loop trim_dashes
normalize_skill_slug paths name = reverse (
    trim_dashes
      (reverse (trim_dashes (reverse (slug_loop (runes (paths.to_lower name)) false [])))))

-- strings.ContainsAny(s, `/\`)
has_separator : Str → Bool
has_separator [] = false
has_separator (c ∷ s) = nat_eq c b'/' || nat_eq c 92 || has_separator s

-- len(s) > 1 && s[1] == ':'
has_drive : Str → Bool
has_drive (a ∷ b ∷ s) = nat_eq b b':'
has_drive _ = false

unfoldable pub is_path_like : Str → Bool
unfolding has_separator has_drive
is_path_like id =
    let trimmed = trim_space id in
    if is_empty trimmed then false else if has_separator trimmed then true else has_drive trimmed

module _ (paths : Paths) where
  abbrev skill_file : Str → Str → Str
  skill_file home slug =
      paths.join (home ∷ str ".codex" ∷ str "skills" ∷ slug ∷ str "SKILL.md" ∷ [])

  -- The path of a skill's file, by its name.
  unfoldable pub skill_path : Str → Option Str → Result FakeError Str
  skill_path slug none = if is_empty slug then err name_invalid else err no_home
  skill_path slug (some home) =
      if is_empty slug then err name_invalid else ok (skill_file home slug)

  abbrev pub new_skill : Str → Str → EnvironmentResource
  new_skill path name =
      fake_resource EnvironmentKind.skill path name EnvironmentResourceStatus.disabled false
        (field (str "path") (text path) (field (str "enabled") (bool false) no_fields))

  unfoldable pub create_at :
      Str → Result FakeError Str → FakeAdapter → FakeAdapter × Result FakeError Str
  create_at name (err e) a = (a, err e)
  create_at name (ok path) a = (
    change_or_add EnvironmentKind.skill path (merge_fake_resource (new_skill path name))
        (new_skill path name) a,
    ok path,
  )

  unfoldable pub create_skill : Str → FakeAdapter → FakeAdapter × Result FakeError Str
  unfolding create_at skill_path
  create_skill given a =
      let name = trim_space given in
      if is_empty name
      then (a, err name_required)
      else create_at name (skill_path (normalize_skill_slug paths name) paths.home) a

  unfoldable pub delete_at : Result FakeError Str → FakeAdapter → FakeAdapter × Option FakeError
  delete_at (err e) a = (a, some e)
  delete_at (ok path) a = remove_or_fail EnvironmentKind.skill path a

  -- What a selector names: a path as it is, or a name.
  unfoldable pub selected : Str → Result FakeError Str
  unfolding skill_path
  selected selector =
      if is_path_like selector
      then ok selector
      else skill_path (normalize_skill_slug paths selector) paths.home

  unfoldable pub delete_skill : Str → FakeAdapter → FakeAdapter × Option FakeError
  unfolding delete_at selected
  delete_skill name a =
      let selector = trim_space name in
      if is_empty selector then (a, some id_required) else delete_at (selected selector) a
