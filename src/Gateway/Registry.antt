-- ===== src/Gateway/Registry.antt =====
-- gateway/internal/registry/store.go: the machines, the approvals that wait for an answer, and the
-- latest timeline events of each thread. A method that changes the store returns the new one; the
-- lock makes each method one step. Slices are values here: that the store hands out the array of
-- a machine's agents is not modelled.
pub mod Machines
pub mod Approvals
pub mod History
mod Tests
use agent_console.Prelude.{
  ℕ, ◌-◌, Str, ◌==◌, is_empty, Bool, true, false, ◌||◌, Option, none, some, List, [], ◌∷◌, ◌++◌,
  map, length, ltb, leb, if◌then◌else◌,
}
use agent_console.Prelude.Lists.{keep, drop}
use agent_console.Prelude.Sort.{sort_by}
use agent_console.Prelude.Dict
use agent_console.Prelude.Dict.{Dict}
use agent_console.Domain.Machine.{
  Machine, MachineStatus, MachineRuntimeStatus, AgentInstance, AgentInstanceStatus,
}
use agent_console.Domain.Timeline.{TimelineEvent, ApprovalRequiredPayload}

pub record StoredApprovalRequest : Type 0 where
  pub machine_id : Str
  pub payload : ApprovalRequiredPayload

-- `timeline_limit` is an int; 0 stands for what is not positive.
pub record Store : Type 0 where
  pub machines : Dict Machine
  pub pending_approvals : Dict StoredApprovalRequest
  pub timeline_events : Dict (List TimelineEvent)
  pub timeline_limit : ℕ

pub new_store : Store
new_store = record {
  machines = [];
  pending_approvals = [];
  timeline_events = [];
  timeline_limit = 500;
}

pub list_machines : Store → List Machine
list_machines s = Dict.values s.machines

pub get_machine : Store → Str → Option Machine
get_machine s machine_id = Dict.get s.machines machine_id

-- status == "" || status == MachineRuntimeStatusUnknown
abbrev is_unset_or_unknown : MachineRuntimeStatus → Bool
is_unset_or_unknown MachineRuntimeStatus.unset = true
is_unset_or_unknown MachineRuntimeStatus.unknown = true
is_unset_or_unknown _ = false

abbrev or_unknown : MachineRuntimeStatus → MachineRuntimeStatus
or_unknown MachineRuntimeStatus.unset = MachineRuntimeStatus.unknown
or_unknown status = status

abbrev or_agents : List AgentInstance → List AgentInstance → List AgentInstance
or_agents [] existing = existing
or_agents (a ∷ agents) existing = a ∷ agents

-- What an update leaves open is taken from the machine that is there.
merge_existing : Option Machine → Machine → Machine
merge_existing none machine = machine
merge_existing (some existing) machine = record machine {
  name = if is_empty machine.name then existing.name else machine.name;
  runtime_status =
      if is_unset_or_unknown machine.runtime_status
      then existing.runtime_status
      else machine.runtime_status;
  agents = or_agents machine.agents existing.agents;
}

pub upsert : Machine → Store → Store
unfolding merge_existing
upsert machine s =
    let merged = merge_existing (Dict.get s.machines machine.id) machine in
    let stored = record merged { runtime_status = or_unknown merged.runtime_status } in
    if is_empty machine.id then s else record s { machines = Dict.put s.machines machine.id stored }

abbrev stopped_agent : AgentInstance → AgentInstance
stopped_agent a = record a { status = AgentInstanceStatus.stopped }

abbrev offline_machine : Machine → Machine
offline_machine machine = record machine {
  status = MachineStatus.offline;
  runtime_status = MachineRuntimeStatus.unknown;
  agents = map stopped_agent machine.agents;
}

pub mark_offline : Str → Store → Store
mark_offline machine_id s =
    if is_empty machine_id then s else elim (Dict.get s.machines machine_id) [
      | none ↦ s
      | some machine ↦ record s {
        machines = Dict.put s.machines machine_id (offline_machine machine);
      }
    ]

pub upsert_pending_approval : Str → ApprovalRequiredPayload → Store → Store
upsert_pending_approval machine_id payload s = if is_empty payload.request_id then s else record s {
  pending_approvals =
      Dict.put s.pending_approvals payload.request_id
        (record { machine_id = machine_id; payload = payload });
}

pub remove_pending_approval : Str → Store → Store
remove_pending_approval request_id s =
    if is_empty request_id
    then s
    else record s { pending_approvals = Dict.remove s.pending_approvals request_id }

pub pending_approval : Store → Str → Option ApprovalRequiredPayload
pending_approval s request_id =
    if is_empty request_id
    then none
    else elim (Dict.get s.pending_approvals request_id) [ none ↦ none | some a ↦ some a.payload ]

-- The loop over the pending approvals.
abbrev payloads_for : Str → List StoredApprovalRequest → List ApprovalRequiredPayload
payloads_for thread_id [] = []
payloads_for thread_id (a ∷ rest) =
    let others = payloads_for thread_id rest in
    if a.payload.thread_id == thread_id then a.payload ∷ others else others

abbrev request_key : ApprovalRequiredPayload → Str
request_key p = p.request_id

pub pending_approvals_for_thread : Store → Str → List ApprovalRequiredPayload
pending_approvals_for_thread s thread_id =
    if is_empty thread_id
    then []
    else sort_by request_key (payloads_for thread_id (Dict.values s.pending_approvals))

pub pending_approval_count : Store → ℕ
pending_approval_count s = length s.pending_approvals

-- events[len(events)-limit:], where there are more than `limit` of them
truncate : ℕ → List TimelineEvent → List TimelineEvent
truncate limit events =
    if ltb limit (length events) then drop (length events - limit) events else events

pub append_timeline_event : TimelineEvent → Store → Store
unfolding truncate
append_timeline_event event s =
    let events = Dict.get_or [] (Dict.get s.timeline_events event.thread_id) ++ (event ∷ []) in
    let limit = if leb s.timeline_limit 0 then 500 else s.timeline_limit in
    if is_empty event.thread_id then s else if is_empty event.event_id then s else record s {
      timeline_events = Dict.put s.timeline_events event.thread_id (truncate limit events);
    }

pub timeline_events_for_thread : Store → Str → List TimelineEvent
timeline_events_for_thread s thread_id =
    if is_empty thread_id then [] else Dict.get_or [] (Dict.get s.timeline_events thread_id)
