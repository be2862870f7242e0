-- ===== src/Gateway/Registry/Tests.antt =====
-- The registry at concrete inputs.
use agent_console.Prelude.{Str, str, ◌==◌, ◌≡◌, refl, ◌&&◌, none, some, [], ◌∷◌, arith, str}
use agent_console.Prelude.Lists.{count}
use agent_console.Prelude.Sort.{IsSorted, sort_by}
use agent_console.Prelude.Dict
use agent_console.Domain.Machine.{
  Machine, MachineStatus, MachineRuntimeStatus, AgentInstance, AgentInstanceStatus,
}
use agent_console.Domain.Timeline.{TimelineEvent, EventType, ApprovalRequiredPayload}
use agent_console.Gateway.Registry.{
  Store, new_store, get_machine, upsert, mark_offline, upsert_pending_approval, request_key,
  pending_approvals_for_thread, timeline_events_for_thread,
}
use agent_console.Gateway.Registry.Machines.{
  get_machine-upsert, get_machine-mark_offline, IsConsistent, update, offline, run_updates,
  run_updates-IsConsistent,
}
use agent_console.Gateway.Registry.Approvals.{pending_approvals_for_thread_complete}
use agent_console.Gateway.Registry.History.{append_all, timeline-append_all}

abbrev m1 : Str
m1 = str "m1"

abbrev agent : AgentInstance
agent = record {
  agent_id = str "agent-01";
  agent_type = str "codex";
  display_name = str "Codex";
  status = AgentInstanceStatus.running;
}

abbrev machine : Machine
machine = record {
  id = m1;
  name = str "laptop";
  status = MachineStatus.online;
  runtime_status = MachineRuntimeStatus.running;
  agents = agent ∷ [];
}

abbrev nameless : Machine
nameless = record {
  id = m1;
  name = [];
  status = MachineStatus.reconnecting;
  runtime_status = MachineRuntimeStatus.unknown;
  agents = [];
}

abbrev with_machine : Store
with_machine = upsert machine new_store

machine_there : get_machine with_machine m1 ≡ some machine
unfolding get_machine upsert new_store Dict.get Dict.put
machine_there = refl

get_machine-upsert_example :
    get_machine (upsert nameless with_machine) m1
    ≡ some (record machine { status = MachineStatus.reconnecting })
unfolding ◌==◌
get_machine-upsert_example =
    get_machine-upsert nameless machine with_machine m1 (λ e. cc) machine_there

get_machine-mark_offline_example :
    get_machine (mark_offline m1 with_machine) m1
    ≡ some (record machine {
      status = MachineStatus.offline;
      runtime_status = MachineRuntimeStatus.unknown;
      agents = record agent { status = AgentInstanceStatus.stopped } ∷ [];
    })
unfolding get_machine upsert new_store Dict.get Dict.put ◌==◌
get_machine-mark_offline_example = get_machine-mark_offline m1 with_machine m1 (λ e. cc)

new_store-IsConsistent : IsConsistent new_store
unfolding get_machine new_store Dict.get
new_store-IsConsistent = record { at_key = λ k m e. cc }

run_updates-IsConsistent_example :
    IsConsistent (run_updates (update machine ∷ offline m1 ∷ update nameless ∷ []) new_store)
run_updates-IsConsistent_example =
    run_updates-IsConsistent (update machine ∷ offline m1 ∷ update nameless ∷ []) new_store
      new_store-IsConsistent

abbrev approval : Str → Str → ApprovalRequiredPayload
approval id thread = record {
  request_id = id;
  thread_id = thread;
  turn_id = [];
  item_id = [];
  kind = str "command";
  reason = [];
  command = [];
  questions = [];
}

abbrev waiting : Store
waiting =
    upsert_pending_approval m1 (approval (str "r1") (str "t1"))
      (upsert_pending_approval m1 (approval (str "r2") (str "t1")) new_store)

waiting_sorted :
    pending_approvals_for_thread waiting (str "t1")
    ≡ approval (str "r1") (str "t1") ∷ approval (str "r2") (str "t1") ∷ []
unfolding pending_approvals_for_thread upsert_pending_approval new_store sort_by Dict.put ◌==◌
waiting_sorted = refl

pending_approvals_for_thread_complete_example :
    IsSorted request_key (pending_approvals_for_thread waiting (str "t1"))
    × (count (λ p. p.request_id == str "r1") (pending_approvals_for_thread waiting (str "t1"))
        ≡ count
            (λ a. (a.payload.request_id == str "r1") && (a.payload.thread_id == str "t1"))
            (Dict.values waiting.pending_approvals))
pending_approvals_for_thread_complete_example =
    pending_approvals_for_thread_complete waiting (str "t1") (λ p. p.request_id == str "r1")
      (λ e. cc)

abbrev event : Str → TimelineEvent
event id = record {
  schema_version = [];
  event_id = id;
  sequence = 1;
  timestamp = [];
  machine_id = m1;
  agent_id = [];
  thread_id = str "t1";
  turn_id = [];
  item_id = [];
  event_type = EventType.system_event;
  item_type = [];
  role = [];
  phase = [];
  status = [];
  content = none;
  tool = none;
  approval = none;
  error = none;
  raw = none;
}

abbrev short_store : Store
short_store = record new_store { timeline_limit = 2 }

timeline-append_all_example :
    timeline_events_for_thread
      (append_all (event (str "a") ∷ event [] ∷ event (str "b") ∷ event (str "c") ∷ []) short_store)
      (str "t1")
    ≡ event (str "b") ∷ event (str "c") ∷ []
unfolding timeline_events_for_thread new_store Dict.get ◌==◌
timeline-append_all_example =
    timeline-append_all (event (str "a") ∷ event [] ∷ event (str "b") ∷ event (str "c") ∷ [])
      short_store (str "t1") (λ e. cc) (omega arith)
