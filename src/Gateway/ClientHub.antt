-- ===== src/Gateway/ClientHub.antt =====
-- gateway/internal/websocket/client_hub.go: the state of the hub, and the functions that change the
-- snapshot of a machine and pass it on to the runtime index. Each function runs under the hub's
-- lock up to the call of the index, which follows after the lock; here it is one step, as where no
-- other call of the hub comes between, and two calls do not reach the index in the other order. A store that
-- the hub was not given (nil) is `none`.
pub mod Activity
pub mod Resources
pub mod Broadcast
pub mod Connections
pub mod Mirror
pub mod Cleanup
pub mod Commands
pub mod Envelopes
pub mod Events
pub mod Invariants
pub mod Sessions
mod Tests
use agent_console.Prelude.{
  ℕ, Str, ◌==◌, is_empty, Bool, true, false, not, ◌&&◌, ◌||◌, Option, none, some, List, [], ◌∷◌,
  ◌++◌, map, if◌then◌else◌,
}
use agent_console.Prelude.Text.Trim.{trim_space}
use agent_console.Prelude.Lists.{keep}
use agent_console.Prelude.Dict
use agent_console.Prelude.Dict.{Dict}
use agent_console.Prelude.Time.{TimeText}
use agent_console.Domain.Json.{Fields}
use agent_console.Domain.Machine.{Machine}
use agent_console.Domain.Thread.{Thread, ThreadStatus}
use agent_console.Domain.Environment.{
  EnvironmentResource, EnvironmentKind, EnvironmentResourceStatus, kind_eq,
}
use agent_console.Gateway.ConsoleHub.{ConsoleHub}
use agent_console.Gateway.Registry
use agent_console.Gateway.RuntimeIndex
use agent_console.Gateway.Routing.{Router}
use Resources.{or_str, same_resource, merge_environment_resource, upsert_resource}
use Activity.{latest_activity_timestamp, normalize_activity_timestamp}

pub record MachineSnapshotState : Type 0 where
  pub threads : List Thread
  pub environment : List EnvironmentResource

-- What a pending command can be answered with: the client's answer, its refusal with a reason, or the
-- loss of the machine.
pub data CommandResult : Type 0 where
  completed : Str → Str → CommandResult
  rejected : Str → Str → CommandResult
  disconnected : Str → CommandResult

-- A waiter's channel is a number; it buffers one result.
pub record PendingCommandWaiter : Type 0 where
  pub machine_id : Str
  pub channel : ℕ

-- A connection is a number. `delivered` holds the results that were sent on the channels,
-- the latest last.
pub record ClientHub : Type 0 where
  pub clients : Dict ℕ
  pub console_hub : Option ConsoleHub
  pub registry : Option Registry.Store
  pub runtime_index : Option RuntimeIndex.Store
  pub router : Option Router
  pub snapshot_by_machine : Dict MachineSnapshotState
  pub active_turns : Dict Str
  pub approval_requests : Dict Str
  pub pending_commands : Dict PendingCommandWaiter
  pub next_request_id : ℕ
  pub delivered : List (ℕ × CommandResult)

abbrev pub new_client_hub_with_stores :
    Option Registry.Store → Option RuntimeIndex.Store → Option Router → ClientHub
new_client_hub_with_stores registry runtime_index router = record {
  clients = [];
  console_hub = none;
  registry = registry;
  runtime_index = runtime_index;
  router = router;
  snapshot_by_machine = [];
  active_turns = [];
  approval_requests = [];
  pending_commands = [];
  next_request_id = 0;
  delivered = [];
}

-- if store != nil { store.f() }
abbrev pub on_some {ℓ} : {A : Type ℓ} → (A → A) → Option A → Option A
on_some f none = none
on_some f (some a) = some (f a)

abbrev no_snapshot : MachineSnapshotState
no_snapshot = record { threads = []; environment = [] }

-- h.snapshotByMachine[machineID], the zero value where the machine is missing
abbrev pub snapshot_of : ClientHub → Str → MachineSnapshotState
snapshot_of h machine_id = Dict.get_or no_snapshot (Dict.get h.snapshot_by_machine machine_id)

-- The first thread with the id is changed, and the loop breaks.
abbrev change_thread : Str → (Thread → Thread) → List Thread → List Thread
change_thread id f [] = []
change_thread id f (t ∷ ts) = if t.thread_id == id then f t ∷ ts else t ∷ change_thread id f ts

-- The loop that fills byID in mergeThreadActivities.
index_by_id : List Thread → Dict Thread → Dict Thread
index_by_id [] d = d
index_by_id (t ∷ ts) d =
    index_by_id ts (if is_empty (trim_space t.thread_id) then d else Dict.put d t.thread_id t)

-- SetConsoleHub
pub set_console_hub : Option ConsoleHub → ClientHub → ClientHub
set_console_hub console_hub h = record h { console_hub = console_hub }

module _ (time : TimeText) where
  -- The end of each of these functions: the new snapshot is stored, and handed to the index.
  pub store_snapshot : Str → MachineSnapshotState → ClientHub → ClientHub
  store_snapshot machine_id state h = record h {
    snapshot_by_machine = Dict.put h.snapshot_by_machine machine_id state;
    runtime_index =
        on_some (RuntimeIndex.replace_snapshot time machine_id state.threads state.environment)
          h.runtime_index;
  }

  abbrev touch : Str → Thread → Thread
  touch activity t = record t {
    last_activity_at = latest_activity_timestamp time t.last_activity_at activity;
  }

  abbrev pub merge_activity : Option Thread → Thread → Thread
  merge_activity none t = t
  merge_activity (some existing) t = record t {
    last_activity_at = latest_activity_timestamp time existing.last_activity_at t.last_activity_at;
  }

  unfoldable pub merge_thread_activities : List Thread → List Thread → List Thread
  unfolding index_by_id
  merge_thread_activities previous incoming =
      let by_id = index_by_id previous [] in
      map (λ t. merge_activity (Dict.get by_id t.thread_id) t) incoming

  pub replace_machine_snapshot :
      Str → List Thread → List EnvironmentResource → Bool → Bool → ClientHub → ClientHub
  unfolding merge_thread_activities
  replace_machine_snapshot machine_id threads environment replace_threads replace_environment h =
      let state = snapshot_of h machine_id in
      store_snapshot machine_id
        (record {
          threads =
              if replace_threads
              then merge_thread_activities state.threads threads
              else state.threads;
          environment = if replace_environment then environment else state.environment;
        })
        h

  -- The loop over the threads: the first one with the id is replaced; without one, the thread is
  -- appended.
  upsert_thread : Thread → List Thread → List Thread
  upsert_thread thread [] = thread ∷ []
  upsert_thread thread (t ∷ ts) =
      if t.thread_id == thread.thread_id
      then merge_activity (some t) thread ∷ ts
      else t ∷ upsert_thread thread ts

  pub upsert_thread_snapshot : Str → Thread → ClientHub → ClientHub
  unfolding upsert_thread
  upsert_thread_snapshot machine_id thread h =
      let owned = record thread { machine_id = or_str thread.machine_id machine_id } in
      let state = snapshot_of h machine_id in
      let updated = record state { threads = upsert_thread owned state.threads } in
      if is_empty machine_id
      then h
      else if is_empty thread.thread_id
      then h
      else store_snapshot machine_id updated h

  -- `now` is the clock, formatted, for an event whose time stamp does not parse.
  abbrev activity_or : Str → Str → Str
  activity_or now timestamp = or_str (normalize_activity_timestamp time timestamp) now

  pub set_active_turn : Str → Str → Str → Str → Str → ClientHub → ClientHub
  set_active_turn now machine_id thread_id turn_id timestamp h =
      let activity = activity_or now timestamp in
      let state = snapshot_of h machine_id in
      let activate = λ (t : Thread). record (touch activity t) { status = ThreadStatus.active } in
      let updated = record state { threads = change_thread thread_id activate state.threads } in
      if is_empty machine_id || is_empty thread_id || is_empty turn_id
      then h
      else store_snapshot machine_id updated
          (record h { active_turns = Dict.put h.active_turns thread_id turn_id })

  -- A turn that ended is forgotten if it is the active one, or if the event names none.
  end_turn : Str → Str → Option Str → Dict Str → Dict Str
  end_turn thread_id turn_id none turns = turns
  end_turn thread_id turn_id (some current) turns =
      if is_empty turn_id || current == turn_id then Dict.remove turns thread_id else turns

  pub clear_active_turn : Str → Str → Str → Str → Str → ClientHub → ClientHub
  unfolding end_turn
  clear_active_turn now machine_id thread_id turn_id timestamp h =
      let activity = activity_or now timestamp in
      let state = snapshot_of h machine_id in
      let idle = λ (t : Thread). record (touch activity t) { status = ThreadStatus.idle } in
      let updated = record state { threads = change_thread thread_id idle state.threads } in
      if is_empty machine_id || is_empty thread_id
      then h
      else store_snapshot machine_id updated (record h {
        active_turns =
            end_turn thread_id turn_id (Dict.get h.active_turns thread_id) h.active_turns;
      })

  pub remove_thread_snapshot : Str → Str → ClientHub → ClientHub
  remove_thread_snapshot machine_id thread_id h =
      let state = snapshot_of h machine_id in
      let others = keep (λ t. not (t.thread_id == thread_id)) state.threads in
      if is_empty machine_id || is_empty thread_id
      then h
      else store_snapshot machine_id (record state { threads = others })
          (record h { active_turns = Dict.remove h.active_turns thread_id })

  pub remove_environment_resource : Str → EnvironmentKind → Str → ClientHub → ClientHub
  remove_environment_resource machine_id kind resource_id h =
      let state = snapshot_of h machine_id in
      let others =
        keep (λ r. not (kind_eq r.kind kind && r.resource_id == resource_id)) state.environment in
      if is_empty machine_id || kind_eq kind EnvironmentKind.unset || is_empty resource_id
      then h
      else store_snapshot machine_id (record state { environment = others }) h

  -- The hub after the update; the resource as it is stored, and whether it replaced another, are
  -- `none` where the update is refused.
  pub upsert_environment_resource :
      Str → EnvironmentResource → ClientHub → ClientHub × Option (EnvironmentResource × Bool)
  unfolding upsert_resource same_resource merge_environment_resource
  upsert_environment_resource machine_id resource h =
      let owned = record resource { machine_id = or_str resource.machine_id machine_id } in
      let state = snapshot_of h machine_id in
      let (environment, stored, replaced) = upsert_resource owned state.environment in
      if is_empty machine_id
        || is_empty resource.resource_id
        || kind_eq resource.kind EnvironmentKind.unset
      then (h, none)
      else (
        store_snapshot machine_id (record state { environment = environment }) h,
        some (stored, replaced),
      )
