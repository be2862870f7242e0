-- ===== src/Gateway/ClientHub/Cleanup.antt =====
-- What the loss of a connection does to the hub.
use agent_console.Prelude.{
  ℕ, Str, ◌==◌, eq_iff, is_empty, true, false, not, Option, none, some, List, [], ◌∷◌, ◌≡◌, ◌≢◌,
  refl, arith, ap, ◌∙◌, ◌++◌, ◌&&◌, ◌||◌, Bool, nat_eq, map, if◌then◌else◌, Bool-cases, inl, inr,
}
use agent_console.Prelude.Dict
use agent_console.Prelude.Dict.{Dict}
use agent_console.Prelude.Time.{TimeText}
use agent_console.Domain.Machine.{MachineStatus}
use agent_console.Domain.Thread.{Thread, ThreadStatus}
use agent_console.Gateway.Registry
use agent_console.Gateway.Routing
use agent_console.Gateway.Routing.{Router, resolve_thread}
use agent_console.Gateway.Routing.Resolve.{unless_of, resolve_thread-clear_machine}
use agent_console.Gateway.ClientHub.{
  ClientHub, MachineSnapshotState, CommandResult, disconnected, PendingCommandWaiter, on_some,
}
use agent_console.Gateway.ClientHub.Broadcast.{
  broadcast_machine_updated, broadcast_northbound_event, publish,
}
use agent_console.Gateway.ClientHub.Connections.{
  has_result, owns, unknown_state, mark_threads_unknown, mark_thread_unknown, machine_waiters,
  drop_waiters, offer, fail_pending_waiters, machine_for_event, forget_threads, cleanup_machine,
  drop_client, disconnect_client,
}

-- The results on the channels, once the waiters have been told of the loss.
abbrev pub offer_all :
    List PendingCommandWaiter → List (ℕ × CommandResult) → List (ℕ × CommandResult)
offer_all [] sent = sent
offer_all (w ∷ ws) sent = offer_all ws (offer w.channel (disconnected w.machine_id) sent)

-- Failing the waiters changes what is delivered, and nothing else.
pub fail_pending_waiters-eq :
    (ws : List PendingCommandWaiter) (h : ClientHub)
    → fail_pending_waiters ws h ≡ record h { delivered = offer_all ws h.delivered }
unfolding fail_pending_waiters
fail_pending_waiters-eq [] h = refl
fail_pending_waiters-eq (w ∷ ws) h =
    fail_pending_waiters-eq ws
      (record h { delivered = offer w.channel (disconnected w.machine_id) h.delivered })

abbrev pub waits_for_other : Str → Option PendingCommandWaiter → Option PendingCommandWaiter
waits_for_other machine_id none = none
waits_for_other machine_id (some w) = if w.machine_id == machine_id then none else some w

abbrev pub map_state :
    (MachineSnapshotState → MachineSnapshotState)
    → Option MachineSnapshotState
    → Option MachineSnapshotState
map_state f none = none
map_state f (some s) = some (f s)

-- What a receiver of the channel takes: the first result that was sent on it.
abbrev pub received : ℕ → List (ℕ × CommandResult) → Option CommandResult
received c [] = none
received c ((d, r) ∷ sent) = let rest = received c sent in if nat_eq d c then some r else rest

-- What was there before, or else the result.
abbrev pub or_result : Option CommandResult → CommandResult → Option CommandResult
or_result none r = some r
or_result (some old) r = some old

-- The state of a machine whose threads are all unknown.
abbrev pub threads_unknown : MachineSnapshotState → MachineSnapshotState
threads_unknown s = record s {
  threads = map {A = Thread} (λ t. record t { status = ThreadStatus.unknown }) s.threads;
}

abbrev is_some : Option CommandResult → Bool
is_some none = false
is_some (some r) = true

has_result-received :
    (c : ℕ) (sent : List (ℕ × CommandResult)) → has_result c sent ≡ is_some (received c sent)
unfolding has_result
has_result-received c [] = refl
has_result-received c ((d, r) ∷ sent) = ground (arith, has_result-received c sent)

received-append :
    (c d : ℕ) (r : CommandResult) (sent : List (ℕ × CommandResult))
    → received c (sent ++ ((d, r) ∷ []))
      ≡ (if nat_eq d c then or_result (received c sent) r else received c sent)
received-append c d r [] = refl
received-append c d r ((e, q) ∷ sent) = ground (arith, received-append c d r sent)

received-offer :
    (c d : ℕ) (r : CommandResult) (sent : List (ℕ × CommandResult))
    → received c (offer d r sent)
      ≡ (if nat_eq d c then or_result (received c sent) r else received c sent)
unfolding offer
received-offer c d r sent =
    ground
      (arith, received-append c d r sent, has_result-received d sent, has_result-received c sent)

-- A command for the machine waits on the channel.
abbrev pub waits_on : Str → ℕ → Dict PendingCommandWaiter → Bool
waits_on m c [] = false
waits_on m c ((id, w) ∷ rest) = ((w.machine_id == m) && nat_eq w.channel c) || waits_on m c rest

or_result_again :
    (o : Option CommandResult) (r : CommandResult) → or_result (or_result o r) r ≡ or_result o r
or_result_again none r = refl
or_result_again (some q) r = refl

received-offer_all :
    (m : Str) (c : ℕ) (d : Dict PendingCommandWaiter) (sent : List (ℕ × CommandResult))
    → received c (offer_all (machine_waiters m d) sent)
      ≡ (if waits_on m c d then or_result (received c sent) (disconnected m) else received c sent)
unfolding machine_waiters
received-offer_all m c [] sent = refl
received-offer_all m c ((id, w) ∷ rest) sent = elim (Bool-cases (w.machine_id == m)) [
  | inl e ↦
      let same : w.machine_id ≡ m = (eq_iff w.machine_id m).0 e in
      let sent' = offer w.channel (disconnected w.machine_id) sent in
      rw (e, received-offer_all m c rest sent')
        (ground (
          arith,
          received-offer c w.channel (disconnected w.machine_id) sent,
          or_result_again (received c sent) (disconnected m),
          ap disconnected same,
        ))
  | inr e ↦ rw e (received-offer_all m c rest sent)
]

get-drop_waiters :
    (m : Str) (d : Dict PendingCommandWaiter) (id : Str)
    → Dict.get (drop_waiters m d) id ≡ waits_for_other m (Dict.get d id)
unfolding drop_waiters
get-drop_waiters m d id =
    ground (arith, Dict.get-retain (λ (w : PendingCommandWaiter). not (w.machine_id == m)) d id)

drop_waiters-IsKeyed :
    (m : Str) (d : Dict PendingCommandWaiter) → Dict.IsKeyed d → Dict.IsKeyed (drop_waiters m d)
unfolding drop_waiters
drop_waiters-IsKeyed m d =
    Dict.retain-IsKeyed (λ (w : PendingCommandWaiter). not (w.machine_id == m)) d

-- What a machine's loss leaves of the hub.
pub record IsGone (m : Str) (h g : ClientHub) : Type 0 where
  pub clients : (k : Str) → Dict.get g.clients k ≡ (if m == k then none else Dict.get h.clients k)
  pub waiters :
      (id : Str)
      → Dict.get g.pending_commands id ≡ waits_for_other m (Dict.get h.pending_commands id)
  pub told :
      (c : ℕ)
      → received c g.delivered ≡ (
          if waits_on m c h.pending_commands
          then or_result (received c h.delivered) (disconnected m)
          else received c h.delivered)
  pub results : g.delivered ≡ offer_all (machine_waiters m h.pending_commands) h.delivered
  pub snapshots :
      (k : Str)
      → Dict.get g.snapshot_by_machine k ≡ (
          if m == k
          then map_state threads_unknown (Dict.get h.snapshot_by_machine k)
          else Dict.get h.snapshot_by_machine k)
  pub registry : g.registry ≡ on_some (Registry.mark_offline m) h.registry
  pub router : g.router ≡ on_some (Routing.clear_machine m) h.router
  pub keyed : Dict.IsKeyed h.pending_commands → Dict.IsKeyed g.pending_commands
  pub counter : g.next_request_id ≡ h.next_request_id
  pub turns : g.active_turns ≡ h.active_turns
  pub approvals : g.approval_requests ≡ h.approval_requests

snapshots-forget_threads :
    (time : TimeText) (m : Str) (o : Option MachineSnapshotState) (h : ClientHub) (k : Str)
    → Dict.get h.snapshot_by_machine m ≡ o
    → Dict.get (forget_threads time m o h).snapshot_by_machine k ≡ (
        if m == k
        then map_state threads_unknown (Dict.get h.snapshot_by_machine k)
        else Dict.get h.snapshot_by_machine k)
unfolding forget_threads mark_threads_unknown mark_thread_unknown
snapshots-forget_threads time m none h k e = ground (arith, eq_iff m k)
snapshots-forget_threads time m (some state) h k e =
    ground (arith, eq_iff m k, Dict.get-put h.snapshot_by_machine m (unknown_state state) k)

-- The fields that the snapshot of the machine has no part in.
forget_threads-frame :
    (time : TimeText) (m : Str) (o : Option MachineSnapshotState) (h : ClientHub)
    → ((forget_threads time m o h).clients ≡ h.clients)
      × ((forget_threads time m o h).delivered ≡ h.delivered)
      × ((forget_threads time m o h).active_turns ≡ h.active_turns)
      × ((forget_threads time m o h).approval_requests ≡ h.approval_requests)
      × ((forget_threads time m o h).next_request_id ≡ h.next_request_id)
unfolding forget_threads
forget_threads-frame time m none h = (refl, refl, refl, refl, refl)
forget_threads-frame time m (some state) h = (refl, refl, refl, refl, refl)

-- What follows the deletion of the client keeps all but the deliveries and the broadcasts.
broadcast-IsGone :
    (m : Str) (h g : ClientHub) (machine : _) (now : Str)
    → IsGone m h g
    → IsGone m h (broadcast_machine_updated now machine now g)
unfolding broadcast_machine_updated broadcast_northbound_event publish
broadcast-IsGone m h g machine now gone = elim (Bool-cases (is_empty machine.id)) [
  | inl e ↦ rw e gone
  | inr e ↦ rw e (record {
    clients = gone.clients;
    waiters = gone.waiters;
    told = gone.told;
    results = gone.results;
    snapshots = gone.snapshots;
    registry = gone.registry;
    router = gone.router;
    keyed = gone.keyed;
    counter = gone.counter;
    turns = gone.turns;
    approvals = gone.approvals;
  })
]

-- The client is dropped, and the waiters have failed.
pub drop_client-IsGone :
    (time : TimeText) (m : Str) (h : ClientHub)
    → m ≢ []
    → IsGone m h (fail_pending_waiters (drop_client time m h).1 (drop_client time m h).0)
unfolding drop_client cleanup_machine
drop_client-IsGone time [] h hm = elim (hm refl) [ ]
drop_client-IsGone time (c ∷ m') h hm =
    let m = c ∷ m' in
    let h1 = record h { clients = Dict.remove h.clients m } in
    let o = Dict.get h.snapshot_by_machine m in
    let frame = forget_threads-frame time m o h1 in
    rw (fail_pending_waiters-eq) (record {
      clients = λ k. rw frame.0 (Dict.get-remove h.clients m k);
      waiters = get-drop_waiters m h.pending_commands;
      told = λ k. rw frame.1 (received-offer_all m k h.pending_commands h.delivered);
      results = rw frame.1 refl;
      snapshots = λ k. snapshots-forget_threads time m o h1 k refl;
      registry = refl;
      router = refl;
      keyed = drop_waiters-IsKeyed m h.pending_commands;
      counter = frame.4;
      turns = frame.2;
      approvals = frame.3;
    })

-- The connection that owns a machine goes, the machine's id being given. Afterwards the machine has
-- no client; every command that waited for it is out of the table, and the receiver of a channel on which
-- one waited takes the loss, unless a result was sent there before; what the other channels give
-- is as before, and the other commands wait on; the
-- snapshot of the machine has its threads unknown, and the other snapshots are as before; the
-- registry has marked the machine offline and the router has cleared it. The active turns and the
-- approval requests stay.
pub disconnect_client-IsGone :
    (time : TimeText) (now : Str) (conn : ℕ) (m : Str) (h : ClientHub)
    → m ≢ []
    → owns h conn m ≡ true
    → IsGone m h (disconnect_client time now conn m h)
unfolding disconnect_client
disconnect_client-IsGone time now conn [] h hm ho = elim (hm refl) [ ]
disconnect_client-IsGone time now conn (c ∷ m') h hm ho =
    let m = c ∷ m' in
    let g = fail_pending_waiters (drop_client time m h).1 (drop_client time m h).0 in
    rw ho (
      broadcast-IsGone m h g (machine_for_event g m MachineStatus.offline) now
        (drop_client-IsGone time m h hm))

-- A connection that does not own the machine, its id being given, changes nothing of the hub when
-- it goes: the hub only broadcasts the machine once more.
pub disconnect_client_stale :
    (time : TimeText) (now : Str) (conn : ℕ) (m : Str) (h : ClientHub)
    → m ≢ []
    → owns h conn m ≡ false
    → disconnect_client time now conn m h
      ≡ broadcast_machine_updated now (machine_for_event h m MachineStatus.offline) now h
unfolding disconnect_client fail_pending_waiters
disconnect_client_stale time now conn [] h hm ho = elim (hm refl) [ ]
disconnect_client_stale time now conn (c ∷ m') h hm ho = rw ho refl

-- Once the owner of a machine has gone, no thread resolves to the machine, and a thread of another
-- machine resolves as before. The machine's id is given.
pub resolve_thread-disconnect_client :
    (time : TimeText) (now : Str) (conn : ℕ) (m : Str) (h : ClientHub) (r : Router)
    → m ≢ []
    → owns h conn m ≡ true
    → h.router ≡ some r
    → (r' : Router) × ((disconnect_client time now conn m h).router ≡ some r')
      × ((id : Str) → resolve_thread r' id ≡ unless_of m (resolve_thread r id))
resolve_thread-disconnect_client time now conn m h r hm ho hr =
    let gone = disconnect_client-IsGone time now conn m h hm ho in
    (
      Routing.clear_machine m r,
      gone.router ∙ ap (on_some (Routing.clear_machine m)) hr,
      λ id. ground (arith, resolve_thread-clear_machine m r id),
    )
