-- ===== src/Gateway/ClientHub/Sessions.antt =====
-- client_hub.go: Handler, the loop that serves one connection, and what the API does with the hub. Each step
-- runs to its end before the next one starts: the steps of the connections and of the API come in any
-- order, but handlers that overlap within a step, between two of its locks, are not modelled.
pub mod Soundness
pub mod Owners
pub mod Runs
pub mod Answers
pub mod Reconnect
mod Tests
use agent_console.Prelude.{ℕ, ◌+◌, Str, Bool, none, some, List, [], ◌∷◌, nat_eq, if◌then◌else◌}
use agent_console.Prelude.Time.{TimeText}
use agent_console.Domain.Protocol.{Envelope, ThreadUpdatedPayload}
use agent_console.Gateway.ClientHub.{ClientHub}
use agent_console.Gateway.ClientHub.Broadcast.{broadcast_thread_updated}
use agent_console.Gateway.ClientHub.Connections.{
  disconnect_client, register_client, begin_command, cancel_command,
}
use agent_console.Gateway.ClientHub.Envelopes.{SnapshotPayload, handle_snapshot_envelope}
use agent_console.Gateway.ClientHub.Events.{handle_event_envelope, finish_approval}

-- What a connection reads: client.register with the machine, the name and the time stamp, an event, a
-- snapshot, or a message that the loop ignores.
pub data Message : Type 0 where
  register : Str → Str → Str → Message
  event : Envelope → Message
  snapshot : Str → Str → SnapshotPayload → Message
  ignored : Message

-- The hub, and the registeredMachineID of each connection's handler.
pub record Served : Type 0 where
  pub hub : ClientHub
  pub registered : ℕ → Str

abbrev pub set_registered : ℕ → Str → (ℕ → Str) → ℕ → Str
set_registered conn machine_id registered c = if nat_eq c conn then machine_id else registered c

pub data Step : Type 0 where
  receive : Str → ℕ → Message → Step
  close : Str → ℕ → Step
  begin : Str → Bool → Bool → Step
  cancel : Str → Step
  finish : Str → Step
  emit : Str → ThreadUpdatedPayload → Str → Step

module _ (time : TimeText) where
  -- The switch on the category, and on the name of a system message.
  unfoldable pub receive_message : Str → ℕ → Message → Served → Served
  receive_message now conn (register machine_id name timestamp) w =
      let (h, machine) =
        register_client time now conn (w.registered conn) machine_id name timestamp w.hub in
      record { hub = h; registered = set_registered conn machine w.registered }
  receive_message now conn (event e) w = record w {
    hub = handle_event_envelope time now conn e w.hub;
  }
  receive_message now conn (snapshot machine_id timestamp payload) w = record w {
    hub = handle_snapshot_envelope time now conn machine_id timestamp payload w.hub;
  }
  receive_message now conn ignored w = w

  -- The deferred call, after which the handler's variable is gone.
  unfoldable pub close_connection : Str → ℕ → Served → Served
  close_connection now conn w = record {
    hub = disconnect_client time now conn (w.registered conn) w.hub;
    registered = set_registered conn [] w.registered;
  }

  unfoldable pub step : Step → Served → Served
  unfolding receive_message close_connection
  step (receive now conn message) w = receive_message now conn message w
  step (close now conn) w = close_connection now conn w
  step (begin machine_id marshals encodes) w = record w {
    hub = (begin_command machine_id marshals encodes w.hub).0;
  }
  step (cancel id) w = record w { hub = cancel_command id w.hub }
  step (finish id) w = record w { hub = finish_approval id w.hub }
  step (emit now payload timestamp) w = record w {
    hub = broadcast_thread_updated now payload timestamp w.hub;
  }

  abbrev pub run : List Step → Served → Served
  run [] w = w
  run (s ∷ steps) w = run steps (step s w)

-- How many numbers the steps draw from the hub's counter.
abbrev pub draws : Step → ℕ
draws (begin machine_id marshals encodes) = 1
draws _ = 0

abbrev pub total_draws : List Step → ℕ
total_draws [] = 0
total_draws (s ∷ steps) = draws s + total_draws steps
