-- ===== src/Gateway/ClientHub/Envelopes.antt =====
-- client_hub.go: handleSnapshotEnvelope. A payload is `none` where it does not decode.
pub mod Agreement
use agent_console.Prelude.{
  ℕ, Str, str, is_empty, Bool, true, false, Option, none, some, List, [], ◌∷◌, ◌++◌, map,
  if◌then◌else◌,
}
use agent_console.Prelude.Time.{TimeText}
use agent_console.Domain.Machine.{Machine, MachineStatus, MachineRuntimeStatus}
use agent_console.Domain.Thread.{Thread}
use agent_console.Domain.Environment.{EnvironmentResource, EnvironmentKind}
use agent_console.Domain.Protocol.{ThreadUpdatedPayload, ResourceChangedPayload}
use agent_console.Gateway.Registry
use agent_console.Gateway.Routing
use agent_console.Gateway.ClientHub.{ClientHub, on_some, replace_machine_snapshot}
use agent_console.Gateway.ClientHub.Resources.{or_str}
use agent_console.Gateway.ClientHub.Broadcast.{
  broadcast_machine_updated, broadcast_thread_updated, broadcast_resource_changed, or_online,
  or_unknown,
}
use agent_console.Gateway.ClientHub.Connections.{is_current_owner}

abbrev pub owned_thread : Str → Thread → Thread
owned_thread machine_id t = record t { machine_id = or_str t.machine_id machine_id }

abbrev pub owned_resource : Str → EnvironmentResource → EnvironmentResource
owned_resource machine_id r = record r { machine_id = or_str r.machine_id machine_id }

unfoldable pub normalize_threads : List Thread → Str → List Thread
normalize_threads items machine_id = map (owned_thread machine_id) items

unfoldable pub normalize_environment : List EnvironmentResource → Str → List EnvironmentResource
normalize_environment items machine_id = map (owned_resource machine_id) items

-- The payload, by the name of the envelope.
pub data SnapshotPayload : Type 0 where
  machine_snapshot : Option Machine → SnapshotPayload
  thread_snapshot : Option (List Thread) → SnapshotPayload
  environment_snapshot : Option (List EnvironmentResource) → SnapshotPayload
  other_snapshot : SnapshotPayload

-- The machine of a snapshot, with what it leaves open.
abbrev filled_machine : Str → Machine → Machine
filled_machine machine_id machine =
    let id = or_str machine.id machine_id in
    record machine {
      id = id;
      name = or_str machine.name id;
      status = or_online machine.status;
      runtime_status = or_unknown machine.runtime_status;
    }

abbrev pub threads_of_machine : Str → ThreadUpdatedPayload
threads_of_machine machine_id = record {
  machine_id = machine_id;
  agent_id = [];
  thread_id = [];
  thread = none;
}

abbrev resources_of_machine : Str → ResourceChangedPayload
resources_of_machine machine_id = record {
  machine_id = machine_id;
  agent_id = [];
  kind = EnvironmentKind.unset;
  resource_id = [];
  resource = none;
  action = str "snapshot";
}

module _ (time : TimeText) where
  -- What follows the check of the owner. `now` is the clock, formatted.
  unfoldable pub apply_snapshot : Str → Str → Str → SnapshotPayload → ClientHub → ClientHub
  apply_snapshot now machine_id timestamp (machine_snapshot (some machine)) h =
      let filled = filled_machine machine_id machine in
      broadcast_machine_updated now filled timestamp
        (record h { registry = on_some (Registry.upsert filled) h.registry })
  apply_snapshot now machine_id timestamp (thread_snapshot (some items)) h =
      let threads = normalize_threads items machine_id in
      let h' = replace_machine_snapshot time machine_id threads [] true false h in
      broadcast_thread_updated now (threads_of_machine machine_id) timestamp
        (record h' { router = on_some (Routing.replace_snapshot machine_id threads) h'.router })
  apply_snapshot now machine_id timestamp (environment_snapshot (some items)) h =
      let environment = normalize_environment items machine_id in
      broadcast_resource_changed now (resources_of_machine machine_id) timestamp
        (replace_machine_snapshot time machine_id [] environment false true h)
  apply_snapshot now machine_id timestamp _ h = h

  unfoldable pub handle_snapshot_envelope :
      Str → ℕ → Str → Str → SnapshotPayload → ClientHub → ClientHub
  handle_snapshot_envelope now conn machine_id timestamp payload h =
      if is_current_owner h conn machine_id
      then apply_snapshot now machine_id timestamp payload h
      else h
