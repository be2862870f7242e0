-- ===== src/Gateway/ClientHub/Resources.antt =====
-- client_hub.go: environmentSkillStatus, mergeEnvironmentResource and the loop of
-- upsertEnvironmentResource.
use agent_console.Prelude.{
  Str, ◌==◌, is_empty, Bool, true, false, ◌&&◌, ◌||◌, Option, none, some, List, [], ◌∷◌,
  if◌then◌else◌,
}
use agent_console.Domain.Json.{Fields}
use agent_console.Domain.Environment.{
  EnvironmentResource, EnvironmentKind, EnvironmentResourceStatus, kind_eq,
}

abbrev pub environment_skill_status : Bool → EnvironmentResourceStatus
environment_skill_status true = EnvironmentResourceStatus.enabled
environment_skill_status false = EnvironmentResourceStatus.disabled

abbrev or_status : EnvironmentResourceStatus → EnvironmentResourceStatus → EnvironmentResourceStatus
or_status EnvironmentResourceStatus.unset current = current
or_status next current = next

abbrev pub or_kind : EnvironmentKind → EnvironmentKind → EnvironmentKind
or_kind EnvironmentKind.unset current = current
or_kind next current = next

abbrev or_details : Option Fields → Option Fields → Option Fields
or_details none current = current
or_details (some d) current = some d

abbrev pub or_str : Str → Str → Str
or_str next current = if is_empty next then current else next

unfoldable pub merge_environment_resource :
    EnvironmentResource → EnvironmentResource → EnvironmentResource
merge_environment_resource current next = record {
  resource_id = next.resource_id;
  machine_id = or_str next.machine_id current.machine_id;
  agent_id = or_str next.agent_id current.agent_id;
  kind = or_kind next.kind current.kind;
  display_name = or_str next.display_name current.display_name;
  status = or_status next.status current.status;
  restart_required = next.restart_required || current.restart_required;
  last_observed_at = or_str next.last_observed_at current.last_observed_at;
  details = or_details next.details current.details;
}

-- The resource that an update is about: its kind and id agree, and so does the agent, unless one of
-- the two leaves it open.
unfoldable pub same_resource : EnvironmentResource → EnvironmentResource → Bool
same_resource next current =
    kind_eq current.kind next.kind
    && current.resource_id == next.resource_id
    && (is_empty next.agent_id || is_empty current.agent_id || current.agent_id == next.agent_id)

unfoldable pub upsert_resource :
    EnvironmentResource
    → List EnvironmentResource
    → List EnvironmentResource × EnvironmentResource × Bool
upsert_resource next [] = (next ∷ [], next, false)
upsert_resource next (current ∷ rest) =
    let merged = merge_environment_resource current next in
    let (rest', stored, replaced) = upsert_resource next rest in
    if same_resource next current
    then (merged ∷ rest, merged, true)
    else (current ∷ rest', stored, replaced)
