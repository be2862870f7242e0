-- ===== src/Gateway/ClientHub/Connections.antt =====
-- client_hub.go: the connections of the machines. handleSystemEnvelope, isCurrentOwner,
-- disconnectClient and cleanupMachineLocked, with what they call, and SendCommand with the
-- answers to it. A function here runs to its end, although the
-- code lets go of the hub's lock within some: cleanupMachineLocked's callers before they tell the
-- waiters, and SendCommand between the lookup of the client and the insertion of the waiter.
use agent_console.Prelude.{
  ℕ, ◌+◌, ◌%◌, ◌^◌, Str, str, ◌==◌, is_empty, Bool, true, false, not, ◌&&◌, Option, none, some,
  List, [], ◌∷◌, ◌++◌, map, nat_eq, if◌then◌else◌, ◌||◌, ◌⊎◌, inl, inr,
}
use agent_console.Prelude.Text.Trim.{trim_space}
use agent_console.Prelude.Text.Decimal.{decimal}
use agent_console.Prelude.Dict
use agent_console.Prelude.Dict.{Dict}
use agent_console.Prelude.Time.{TimeText}
use agent_console.Domain.Machine.{Machine, MachineStatus, MachineRuntimeStatus}
use agent_console.Domain.Thread.{Thread, ThreadStatus}
use agent_console.Gateway.Registry
use agent_console.Gateway.RuntimeIndex
use agent_console.Gateway.Routing
use agent_console.Gateway.ClientHub.{
  ClientHub, MachineSnapshotState, CommandResult, disconnected, PendingCommandWaiter, on_some,
}
use agent_console.Gateway.ClientHub.Broadcast.{named, broadcast_machine_updated}

-- The conn of h.clients[machineID] is this one.
abbrev pub owns : ClientHub → ℕ → Str → Bool
owns h conn machine_id = elim (Dict.get h.clients machine_id) [
  | none ↦ false
  | some current ↦ nat_eq current conn
]

-- The connection of the handler is never nil.
unfoldable pub is_current_owner : ClientHub → ℕ → Str → Bool
is_current_owner h conn machine_id = if is_empty machine_id then false else owns h conn machine_id

unfoldable pub mark_thread_unknown : Thread → Thread
mark_thread_unknown t = record t { status = ThreadStatus.unknown }

unfoldable pub mark_threads_unknown : List Thread → List Thread
unfolding mark_thread_unknown
mark_threads_unknown items = map mark_thread_unknown items

abbrev pub unknown_state : MachineSnapshotState → MachineSnapshotState
unknown_state state = record state { threads = mark_threads_unknown state.threads }

-- The waiters of the machine, and the commands that are left.
unfoldable pub machine_waiters : Str → Dict PendingCommandWaiter → List PendingCommandWaiter
machine_waiters machine_id [] = []
machine_waiters machine_id ((id, waiter) ∷ rest) =
    let others = machine_waiters machine_id rest in
    if waiter.machine_id == machine_id then waiter ∷ others else others

unfoldable pub drop_waiters : Str → Dict PendingCommandWaiter → Dict PendingCommandWaiter
drop_waiters machine_id = Dict.retain (λ waiter. not (waiter.machine_id == machine_id))

-- A channel takes one result: of the results that are sent on it without blocking, the first.
unfoldable pub has_result : ℕ → List (ℕ × CommandResult) → Bool
has_result channel [] = false
has_result channel ((c, r) ∷ rest) = nat_eq c channel || has_result channel rest

unfoldable pub offer : ℕ → CommandResult → List (ℕ × CommandResult) → List (ℕ × CommandResult)
offer channel result sent =
    if has_result channel sent then sent else sent ++ ((channel, result) ∷ [])

unfoldable pub fail_pending_waiters : List PendingCommandWaiter → ClientHub → ClientHub
fail_pending_waiters [] h = h
fail_pending_waiters (waiter ∷ rest) h =
    fail_pending_waiters rest
      (record h { delivered = offer waiter.channel (disconnected waiter.machine_id) h.delivered })

machine_from_registry : ClientHub → Str → Option Machine
machine_from_registry h machine_id = elim h.registry [
  | none ↦ none
  | some r ↦ Registry.get_machine r machine_id
]

unfoldable pub machine_for_event : ClientHub → Str → MachineStatus → Machine
unfolding machine_from_registry
machine_for_event h machine_id fallback_status = elim (machine_from_registry h machine_id) [
  | some machine ↦ named machine
  | none ↦ record {
    id = machine_id;
    name = machine_id;
    status = fallback_status;
    runtime_status = MachineRuntimeStatus.unset;
    agents = [];
  }
]

module _ (time : TimeText) where
  -- h.snapshotByMachine, and the index, which takes the snapshot where there is one.
  unfoldable pub forget_threads : Str → Option MachineSnapshotState → ClientHub → ClientHub
  forget_threads machine_id none h = record h {
    runtime_index = on_some (RuntimeIndex.mark_machine_unknown machine_id) h.runtime_index;
  }
  forget_threads machine_id (some state) h =
      let unknown = unknown_state state in
      record h {
        snapshot_by_machine = Dict.put h.snapshot_by_machine machine_id unknown;
        runtime_index =
            on_some
              (RuntimeIndex.replace_snapshot time machine_id unknown.threads unknown.environment)
              h.runtime_index;
      }

  -- cleanupMachineLocked with markOffline set, as both callers do: the hub after it, and the
  -- waiters that it took out.
  unfoldable pub cleanup_machine : Str → ClientHub → ClientHub × List PendingCommandWaiter
  unfolding forget_threads
  cleanup_machine machine_id h =
      let h' = forget_threads machine_id (Dict.get h.snapshot_by_machine machine_id) h in
      if is_empty machine_id then (h, []) else (
        record h' {
          pending_commands = drop_waiters machine_id h.pending_commands;
          registry = on_some (Registry.mark_offline machine_id) h.registry;
          router = on_some (Routing.clear_machine machine_id) h.router;
        },
        machine_waiters machine_id h.pending_commands,
      )

  -- The client is deleted, and its machine cleaned up.
  unfoldable pub drop_client : Str → ClientHub → ClientHub × List PendingCommandWaiter
  drop_client machine_id h =
      cleanup_machine machine_id (record h { clients = Dict.remove h.clients machine_id })

  -- `now` is the clock, formatted.
  unfoldable pub disconnect_client : Str → ℕ → Str → ClientHub → ClientHub
  disconnect_client now conn machine_id h =
      let (h', waiters) = if owns h conn machine_id then drop_client machine_id h else (h, []) in
      let h'' = fail_pending_waiters waiters h' in
      if is_empty machine_id
      then h
      else broadcast_machine_updated now (machine_for_event h'' machine_id MachineStatus.offline)
          now h''

  -- The part of client.register before the new entry: the connection gives up the machine that it
  -- had registered, if it is another one and the connection still owns it. The waiters fail once
  -- the entry is made, and the machine that was given up is announced then.
  abbrev pub gives_up : ClientHub → ℕ → Str → Str → Bool
  gives_up h conn registered machine_id =
      not (is_empty registered) && not (registered == machine_id) && owns h conn registered

  unfoldable pub announce_gone : Bool → Str → Str → Str → ClientHub → ClientHub
  announce_gone false now registered timestamp h = h
  announce_gone true now registered timestamp h =
      broadcast_machine_updated now (machine_for_event h registered MachineStatus.offline) timestamp
        h

  abbrev pub registered_machine : Str → Str → Machine
  registered_machine machine_id name = record {
    id = machine_id;
    name = if is_empty (trim_space name) then machine_id else trim_space name;
    status = MachineStatus.online;
    runtime_status = MachineRuntimeStatus.unknown;
    agents = [];
  }

  abbrev or_machine : Machine → Option Machine → Machine
  or_machine machine none = machine
  or_machine machine (some stored) = stored

  -- client.register. `registered` is the handler's registeredMachineID, returned with the hub;
  -- `name` is the name of the payload, empty if the payload is missing or does not decode.
  unfoldable pub register_client : Str → ℕ → Str → Str → Str → Str → ClientHub → ClientHub × Str
  unfolding announce_gone machine_from_registry
  register_client now conn registered machine_id name timestamp h =
      let gone = gives_up h conn registered machine_id in
      let (h1, waiters) = if gone then drop_client registered h else (h, []) in
      let h2 = record h1 { clients = Dict.put h1.clients machine_id conn } in
      let h3 = announce_gone gone now registered timestamp (fail_pending_waiters waiters h2) in
      let machine = registered_machine machine_id name in
      let h4 = record h3 { registry = on_some (Registry.upsert machine) h3.registry } in
      let stored = or_machine machine (machine_from_registry h4 machine_id) in
      if is_empty machine_id
      then (h, registered)
      else (broadcast_machine_updated now stored timestamp h4, machine_id)

-- fmt.Sprintf("req-%d", n)
unfoldable pub request_id : ℕ → Str
request_id n = str "req-" ++ decimal n

pub data SendFailure : Type 0 where
  marshal_failed not_connected encode_failed : SendFailure

-- SendCommand up to the write to the connection. `marshals` and `encodes` say whether json.Marshal
-- and transport.Encode take the payload. The channel that is made for request n is number n.
unfoldable pub begin_command : Str → Bool → Bool → ClientHub → ClientHub × (SendFailure ⊎ Str)
begin_command machine_id marshals encodes h =
    let n = (h.next_request_id + 1) % 2 ^ 64 in
    let h' = record h { next_request_id = n } in
    let waiter : PendingCommandWaiter = record { machine_id = machine_id; channel = n } in
    if not marshals
    then (h', inl marshal_failed)
    else if not (Dict.has h.clients machine_id)
    then (h', inl not_connected)
    else if not encodes
    then (h', inl encode_failed)
    else (
      record h' { pending_commands = Dict.put h.pending_commands (request_id n) waiter },
      inr (request_id n),
    )

-- The write failed, or the context is done.
unfoldable pub cancel_command : Str → ClientHub → ClientHub
cancel_command id h = record h { pending_commands = Dict.remove h.pending_commands id }

unfoldable pub offer_to :
    Option PendingCommandWaiter
    → CommandResult
    → List (ℕ × CommandResult)
    → List (ℕ × CommandResult)
offer_to none result sent = sent
offer_to (some waiter) result sent = offer waiter.channel result sent

unfoldable pub resolve_pending_command : Str → CommandResult → ClientHub → ClientHub
unfolding offer_to
resolve_pending_command id result h = record h {
  pending_commands = Dict.remove h.pending_commands id;
  delivered = offer_to (Dict.get h.pending_commands id) result h.delivered;
}
