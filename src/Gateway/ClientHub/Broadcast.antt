-- ===== src/Gateway/ClientHub/Broadcast.antt =====
-- client_hub.go: what the hub tells the consoles. broadcastNorthboundEvent, and the three functions
-- that announce a machine, a thread and a resource. `now` is the clock, formatted.
use agent_console.Prelude.{Str, str, is_empty, Option, none, some, [], if◌then◌else◌}
use agent_console.Domain.Machine.{Machine, MachineStatus, MachineRuntimeStatus}
use agent_console.Domain.Thread.{Thread}
use agent_console.Domain.Environment.{EnvironmentResource}
use agent_console.Domain.Protocol.{
  Envelope, Category, Payload, ThreadUpdatedPayload, ResourceChangedPayload,
}
use agent_console.Gateway.ConsoleHub
use agent_console.Gateway.ClientHub.{ClientHub, on_some}
use agent_console.Gateway.ClientHub.Resources.{or_str, or_kind}

-- if consoleHub != nil { _ = consoleHub.Broadcast(envelope) }
unfoldable pub publish : Envelope → ClientHub → ClientHub
publish e h = record h { console_hub = on_some (ConsoleHub.broadcast e) h.console_hub }

unfoldable pub broadcast_northbound_event : Str → Str → Str → Payload → ClientHub → ClientHub
unfolding publish
broadcast_northbound_event now machine_id timestamp payload h =
    publish
      (record {
        version = str "v1";
        category = Category.event;
        request_id = [];
        machine_id = machine_id;
        timestamp = or_str timestamp now;
        payload = payload;
      })
      h

abbrev pub named : Machine → Machine
named machine = record machine { name = or_str machine.name machine.id }

abbrev pub or_online : MachineStatus → MachineStatus
or_online MachineStatus.unset = MachineStatus.online
or_online status = status

abbrev pub or_unknown : MachineRuntimeStatus → MachineRuntimeStatus
or_unknown MachineRuntimeStatus.unset = MachineRuntimeStatus.unknown
or_unknown status = status

abbrev pub complete_machine : Machine → Machine
complete_machine machine = record (named machine) {
  status = or_online machine.status;
  runtime_status = or_unknown machine.runtime_status;
}

unfoldable pub broadcast_machine_updated : Str → Machine → Str → ClientHub → ClientHub
unfolding broadcast_northbound_event
broadcast_machine_updated now machine timestamp h =
    let complete = complete_machine machine in
    if is_empty machine.id
    then h
    else broadcast_northbound_event now machine.id timestamp
        (Payload.machine_updated (some complete)) h

-- The ids that the payload leaves open are those of its thread.
abbrev pub fill_thread : ThreadUpdatedPayload → Option Thread → ThreadUpdatedPayload
fill_thread p none = p
fill_thread p (some t) = record p {
  machine_id = or_str p.machine_id t.machine_id;
  thread_id = or_str p.thread_id t.thread_id;
}

unfoldable pub broadcast_thread_updated : Str → ThreadUpdatedPayload → Str → ClientHub → ClientHub
unfolding broadcast_northbound_event
broadcast_thread_updated now payload timestamp h =
    let p = fill_thread payload payload.thread in
    if is_empty p.machine_id
    then h
    else broadcast_northbound_event now p.machine_id timestamp (Payload.thread_updated (some p)) h

abbrev pub fill_resource :
    ResourceChangedPayload → Option EnvironmentResource → ResourceChangedPayload
fill_resource p none = p
fill_resource p (some r) = record p {
  resource_id = or_str p.resource_id r.resource_id;
  kind = or_kind p.kind r.kind;
}

unfoldable pub broadcast_resource_changed :
    Str → ResourceChangedPayload → Str → ClientHub → ClientHub
unfolding broadcast_northbound_event
broadcast_resource_changed now payload timestamp h =
    let p = fill_resource payload payload.resource in
    if is_empty p.machine_id
    then h
    else broadcast_northbound_event now p.machine_id timestamp (Payload.resource_changed (some p)) h
