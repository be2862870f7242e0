-- ===== src/Gateway/ConsoleHub.antt =====
-- gateway/internal/websocket/console_hub.go: the consoles that are connected, and what is broadcast to them.
-- Each console has a buffer of messages and a loop that writes them to its socket. A console is a
-- number; `sent` is what its socket took, the latest last. The consoles do not touch each other, so
-- that a broadcast is one step.
pub mod Delivery
pub mod Bounds
mod Tests
use agent_console.Prelude.{
  ℕ, ◌+◌, Str, ◌==◌, is_empty, Bool, true, false, not, ◌&&◌, Option, none, some, List, [], ◌∷◌,
  ◌++◌, map, length, ltb, nat_eq, if◌then◌else◌,
}
use agent_console.Domain.Thread.{Thread}
use agent_console.Domain.Protocol.{
  Envelope, Payload, CompletedResult, CommandCompletedPayload, ThreadUpdatedPayload, is_valid,
}

-- `registered` says whether the hub's map has the console, `closed` whether its done channel and its
-- socket are closed, and `looping` whether its write loop still runs.
pub record ConsoleConn : Type 0 where
  pub id : ℕ
  pub thread_id : Str
  pub outbound : List Envelope
  pub sent : List Envelope
  pub registered : Bool
  pub closed : Bool
  pub looping : Bool

pub record ConsoleHub : Type 0 where
  pub conns : List ConsoleConn
  pub next_id : ℕ

unfoldable pub new_console_hub : ConsoleHub
new_console_hub = record { conns = []; next_id = 0 }

abbrev pub console_outbound_buffer_size : ℕ
console_outbound_buffer_size = 32

abbrev pub thread_id_of : Option Thread → Str
thread_id_of none = []
thread_id_of (some t) = t.thread_id

abbrev pub or_empty : Option Str → Str
or_empty none = []
or_empty (some s) = s

-- The part of envelopeThreadID for command.completed.
completed_thread_id : CompletedResult → Str
completed_thread_id (CompletedResult.turn_begun result) = or_empty result
completed_thread_id (CompletedResult.thread_created result) = thread_id_of result
completed_thread_id _ = []

-- The part of envelopeThreadID for thread.updated.
updated_thread_id : ThreadUpdatedPayload → Str
updated_thread_id p =
    if is_empty (thread_id_of p.thread) then p.thread_id else thread_id_of p.thread

payload_thread_id : Payload → Str
payload_thread_id (Payload.approval_required (some p)) = p.thread_id
payload_thread_id (Payload.approval_resolved (some p)) = p.thread_id
payload_thread_id (Payload.turn_delta (some thread_id)) = thread_id
payload_thread_id (Payload.turn_started (some p)) = p.thread_id
payload_thread_id (Payload.turn_completed (some p)) = p.thread_id
payload_thread_id (Payload.turn_failed (some p)) = p.thread_id
payload_thread_id (Payload.timeline_event (some event)) = event.thread_id
payload_thread_id (Payload.command_completed (some p)) = completed_thread_id p.decoded
payload_thread_id (Payload.command_rejected (some p)) = p.thread_id
payload_thread_id (Payload.thread_updated (some p)) = updated_thread_id p
payload_thread_id _ = []

unfoldable pub envelope_thread_id : Envelope → Str
unfolding payload_thread_id completed_thread_id updated_thread_id
envelope_thread_id e = payload_thread_id e.payload

unfoldable pub should_deliver_envelope : Str → Envelope → Bool
should_deliver_envelope thread_id e =
    if is_empty thread_id
    then true
    else not (is_empty (envelope_thread_id e)) && envelope_thread_id e == thread_id

-- removeClient. What it closes, it closes once.
unfoldable pub remove_client : ConsoleConn → ConsoleConn
remove_client c = record c { registered = false; closed = true }

-- One round of the loop of Broadcast, for a console that the map has.
unfoldable pub offer_envelope : Envelope → ConsoleConn → ConsoleConn
unfolding remove_client
offer_envelope e c =
    if not (should_deliver_envelope c.thread_id e)
    then c
    else if ltb (length c.outbound) console_outbound_buffer_size
    then record c { outbound = c.outbound ++ (e ∷ []) }
    else remove_client c

unfoldable pub deliver : Envelope → ConsoleConn → ConsoleConn
unfolding offer_envelope
deliver e c = if c.registered then offer_envelope e c else c

-- An envelope that cannot be encoded goes to no console.
unfoldable pub broadcast : Envelope → ConsoleHub → ConsoleHub
unfolding deliver
broadcast e h = if is_valid e then record h { conns = map (deliver e) h.conns } else h

-- The handler accepts a console, up to its read loop.
unfoldable pub connect : Str → ConsoleHub → ConsoleHub
connect thread_id h = record h {
  conns =
      h.conns
      ++ (record {
        id = h.next_id;
        thread_id = thread_id;
        outbound = [];
        sent = [];
        registered = true;
        closed = false;
        looping = true;
      }
          ∷ []);
  next_id = h.next_id + 1;
}

-- The loop takes a message from the buffer and writes it, in one step: a message that is taken and not yet
-- written is still in the buffer here. `written` says whether the socket takes it.
unfoldable pub write_next : Bool → List Envelope → ConsoleConn → ConsoleConn
unfolding remove_client
write_next written [] c = c
write_next true (e ∷ rest) c = record c { outbound = rest; sent = c.sent ++ (e ∷ []) }
write_next false (e ∷ rest) c = record (remove_client c) { outbound = rest; looping = false }

unfoldable pub write_conn : Bool → ConsoleConn → ConsoleConn
unfolding write_next
write_conn written c = if c.looping then write_next written c.outbound c else c

-- The loop sees that the done channel is closed.
unfoldable pub stop_conn : ConsoleConn → ConsoleConn
stop_conn c = if c.closed then record c { looping = false } else c

-- A step of the console with this number.
abbrev pub on_conn : ℕ → (ConsoleConn → ConsoleConn) → ConsoleHub → ConsoleHub
on_conn id f h = record h { conns = map (λ c. if nat_eq c.id id then f c else c) h.conns }

unfoldable pub write_step : ℕ → Bool → ConsoleHub → ConsoleHub
unfolding write_conn
write_step id written h = on_conn id (write_conn written) h

unfoldable pub stop_step : ℕ → ConsoleHub → ConsoleHub
unfolding stop_conn
stop_step id h = on_conn id stop_conn h

-- The handler's read loop ends.
unfoldable pub drop_console : ℕ → ConsoleHub → ConsoleHub
unfolding remove_client
drop_console id h = on_conn id remove_client h
