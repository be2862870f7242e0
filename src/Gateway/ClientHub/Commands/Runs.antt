-- ===== src/Gateway/ClientHub/Commands/Runs.antt =====
-- Sequences of the operations that a waiting command meets.
use agent_console.Prelude.{
  ℕ, ◌+◌, ◌^◌, ◌≤◌, ◌<◌, Str, ◌==◌, eq_iff, is_empty, Bool, true, Option, none, some, List, [], ◌∷◌,
  ◌++◌, ◌≡◌, ◌≢◌, refl, sym, ap, ◌∙◌, arith, nat_eq→eq, All, Bool-cases, inl, inr,
}
use agent_console.Prelude.Dict
use agent_console.Prelude.Dict.{Dict}
use agent_console.Prelude.Time.{TimeText}
use agent_console.Domain.Machine.{Machine, MachineStatus}
use agent_console.Gateway.ClientHub.{ClientHub, CommandResult, disconnected, PendingCommandWaiter}
use agent_console.Gateway.ClientHub.Cleanup.{
  IsGone, offer_all, waits_for_other, disconnect_client-IsGone, disconnect_client_stale,
}
use agent_console.Gateway.ClientHub.Broadcast.{
  broadcast_machine_updated, broadcast_northbound_event, publish,
}
use agent_console.Gateway.ClientHub.Connections.{
  machine_waiters, disconnect_client, owns, machine_for_event, has_result, offer, offer_to,
  request_id, begin_command, cancel_command, resolve_pending_command,
}
use agent_console.Gateway.ClientHub.Commands.{
  IsSettled, counter-next, has_result-offer, begin_command-IsSettled, cancel_command-IsSettled,
  resolve_pending_command-IsSettled,
}

has_result-offer_all_other :
    (c : ℕ) (ws : List PendingCommandWaiter) (sent : List (ℕ × CommandResult))
    → All (λ w. w.channel ≢ c) ws
    → has_result c (offer_all ws sent) ≡ has_result c sent
has_result-offer_all_other c [] sent h = refl
has_result-offer_all_other c (w ∷ ws) sent h = ground (
  arith,
  has_result-offer_all_other c ws (offer w.channel (disconnected w.machine_id) sent) h.1,
  has_result-offer c w.channel (disconnected w.machine_id) sent,
  nat_eq→eq w.channel c,
  h.0,
)

-- The waiters of a machine are values of the table, and the machine's.
machine_waiters-All :
    (P : PendingCommandWaiter → Type 0) (m : Str) (d : Dict PendingCommandWaiter)
    → All P (Dict.values d)
    → All (λ w. P w × (w.machine_id ≡ m)) (machine_waiters m d)
unfolding machine_waiters
machine_waiters-All P m [] h = tt
machine_waiters-All P m ((id, w) ∷ d) h = elim (Bool-cases (w.machine_id == m)) [
  | inl e ↦ rw e ((h.0, ground (arith, eq_iff w.machine_id m)), machine_waiters-All P m d h.1)
  | inr e ↦ rw e (machine_waiters-All P m d h.1)
]

abbrev IsListed : ClientHub → PendingCommandWaiter → Type 0
IsListed h w =
    (Dict.get h.pending_commands (request_id w.channel) ≡ some w) × (w.channel ≤ h.next_request_id)

waiters-IsListed : (h : ClientHub) → IsSettled h → All (IsListed h) (Dict.values h.pending_commands)
waiters-IsListed h s =
    Dict.values-All (IsListed h) h.pending_commands s.keyed
      (λ k w e. (rw⁻¹ (s.waiting k w e).0 e, (s.waiting k w e).1))

map_All :
    {P Q : PendingCommandWaiter → Type 0} (f : (w : PendingCommandWaiter) → P w → Q w)
    (ws : List PendingCommandWaiter)
    → All P ws
    → All Q ws
map_All f [] h = tt
map_All f (w ∷ ws) h = (f w h.0, map_All f ws h.1)

still_waiting :
    (m : Str) (o : Option PendingCommandWaiter) (w : PendingCommandWaiter)
    → waits_for_other m o ≡ some w
    → (o ≡ some w) × (w.machine_id ≢ m)
still_waiting m none w e = ground arith
still_waiting m (some v) w e = ground (arith, eq_iff v.machine_id m)

-- A channel that belongs to none of the machine's commands takes nothing.
untouched :
    (m : Str) (h g : ClientHub) (c : ℕ)
    → IsGone m h g
    → IsSettled h
    → ((v : PendingCommandWaiter) → IsListed h v × (v.machine_id ≡ m) → v.channel ≢ c)
    → has_result c g.delivered ≡ has_result c h.delivered
untouched m h g c gone s apart =
    let ws = machine_waiters m h.pending_commands in
    rw (gone.results) (
      has_result-offer_all_other c ws h.delivered (
        map_All apart ws
          (machine_waiters-All (IsListed h) m h.pending_commands (waiters-IsListed h s))))

same_channel :
    (h : ClientHub) (v w : PendingCommandWaiter)
    → IsListed h v
    → IsListed h w
    → v.channel ≡ w.channel
    → v.machine_id ≡ w.machine_id
same_channel h v w hv hw e = ground (arith, ap request_id e)

pub gone-IsSettled : (m : Str) (h g : ClientHub) → IsGone m h g → IsSettled h → IsSettled g
gone-IsSettled m h g gone s = record {
  keyed = gone.keyed s.keyed;
  waiting = λ id w e.
      let (old, other) =
        still_waiting m (Dict.get h.pending_commands id) w (sym (gone.waiters id) ∙ e) in
      let (named, le, empty) = s.waiting id w old in
      (
        named,
        rw (gone.counter) le,
        untouched m h g w.channel gone s
              (λ v hv ec. other (sym (same_channel h v w hv.0 (rw⁻¹ named old, le) ec) ∙ hv.1))
            ∙ empty,
      );
  sent = λ c lt.
      let lt' : h.next_request_id < c = rw⁻¹ (gone.counter) lt in
      untouched m h g c gone s (λ v hv ec. ground (arith, hv.0.1)) ∙ s.sent c lt';
}

broadcast-IsSettled :
    (machine : Machine) (now : Str) (h : ClientHub)
    → IsSettled h
    → IsSettled (broadcast_machine_updated now machine now h)
unfolding broadcast_machine_updated broadcast_northbound_event publish
broadcast-IsSettled machine now h s = elim (Bool-cases (is_empty machine.id)) [
  | inl e ↦ rw e s
  | inr e ↦ rw e (record { keyed = s.keyed; waiting = s.waiting; sent = s.sent })
]

pub empty_machine : (m : Str) → is_empty m ≡ true → m ≡ []
empty_machine m e = ground arith

pub disconnect_client_nobody :
    (time : TimeText) (now : Str) (conn : ℕ) (h : ClientHub)
    → disconnect_client time now conn [] h ≡ h
unfolding disconnect_client
disconnect_client_nobody time now conn h = refl

-- What holds of the hub, survives the loss of the machine and survives a broadcast holds after a
-- disconnection.
disconnect_client-elim :
    (P : ClientHub → Type 0) (time : TimeText) (now : Str) (conn : ℕ) (m : Str) (h : ClientHub)
    → P h
    → ((g : ClientHub) → IsGone m h g → P g)
    → ((machine : Machine) → P h → P (broadcast_machine_updated now machine now h))
    → P (disconnect_client time now conn m h)
disconnect_client-elim P time now conn m h p lose announce = elim (Bool-cases (is_empty m)) [
  | inl e ↦ rw (empty_machine m e, disconnect_client_nobody) p
  | inr e ↦ elim (Bool-cases (owns h conn m)) [
    | inl o ↦
        lose (disconnect_client time now conn m h)
          (disconnect_client-IsGone time now conn m h (ground arith) o)
    | inr o ↦
        rw (disconnect_client_stale time now conn m h (ground arith) o)
          (announce (machine_for_event h m MachineStatus.offline) p)
  ]
]

disconnect_client-IsSettled :
    (time : TimeText) (now : Str) (conn : ℕ) (m : Str) (h : ClientHub)
    → IsSettled h
    → IsSettled (disconnect_client time now conn m h)
disconnect_client-IsSettled time now conn m h s =
    disconnect_client-elim IsSettled time now conn m h s (λ g gone. gone-IsSettled m h g gone s)
      (λ machine. broadcast-IsSettled machine now h)

counter-broadcast :
    (machine : Machine) (now : Str) (h : ClientHub)
    → (broadcast_machine_updated now machine now h).next_request_id ≡ h.next_request_id
unfolding broadcast_machine_updated broadcast_northbound_event publish
counter-broadcast machine now h = ground arith

counter-disconnect_client :
    (time : TimeText) (now : Str) (conn : ℕ) (m : Str) (h : ClientHub)
    → (disconnect_client time now conn m h).next_request_id ≡ h.next_request_id
counter-disconnect_client time now conn m h =
    disconnect_client-elim (λ g. g.next_request_id ≡ h.next_request_id) time now conn m h refl
      (λ g gone. gone.counter) (λ machine e. counter-broadcast machine now h)

pub answer_once :
    (id : Str) (h : ClientHub) (w : PendingCommandWaiter) (r late : CommandResult)
    → IsSettled h
    → Dict.get h.pending_commands id ≡ some w
    → ((resolve_pending_command id r h).delivered ≡ h.delivered ++ ((w.channel, r) ∷ []))
      × (resolve_pending_command id late (resolve_pending_command id r h)
          ≡ resolve_pending_command id r h)
unfolding resolve_pending_command offer_to offer
answer_once id h w r late s e =
    let gone : Dict.get (Dict.remove h.pending_commands id) id ≡ none =
      ground (arith, Dict.get-remove h.pending_commands id id, eq_iff id id) in
    let once : Dict.remove (Dict.remove h.pending_commands id) id
        ≡ Dict.remove h.pending_commands id =
      Dict.remove_missing (Dict.remove h.pending_commands id) id gone in
    (rw (e, (s.waiting id w e).2) refl, rw (gone, once) refl)

-- The operations that a command's waiter meets.
pub data CommandOp : Type 0 where
  begin : Str → Bool → Bool → CommandOp
  cancel : Str → CommandOp
  resolve : Str → CommandResult → CommandOp
  disconnect : Str → ℕ → Str → CommandOp

-- How many numbers the operations draw from the counter.
abbrev pub draws : CommandOp → ℕ
draws (begin m marshals encodes) = 1
draws _ = 0

abbrev pub total_draws : List CommandOp → ℕ
total_draws [] = 0
total_draws (op ∷ ops) = draws op + total_draws ops

pub counter-begin_command :
    (m : Str) (marshals encodes : Bool) (h : ClientHub)
    → h.next_request_id + 1 < 2 ^ 64
    → (begin_command m marshals encodes h).0.next_request_id ≡ h.next_request_id + 1
unfolding begin_command
counter-begin_command m marshals encodes h hn =
    rw (counter-next h.next_request_id hn) (ground arith)

module _ (time : TimeText) where
  abbrev pub apply : CommandOp → ClientHub → ClientHub
  apply (begin m marshals encodes) h = (begin_command m marshals encodes h).0
  apply (cancel id) h = cancel_command id h
  apply (resolve id r) h = resolve_pending_command id r h
  apply (disconnect now conn m) h = disconnect_client time now conn m h

  abbrev pub run_ops : List CommandOp → ClientHub → ClientHub
  run_ops [] h = h
  run_ops (op ∷ ops) h = run_ops ops (apply op h)

  counter-apply :
      (op : CommandOp) (h : ClientHub)
      → h.next_request_id + draws op < 2 ^ 64
      → (apply op h).next_request_id ≡ h.next_request_id + draws op
  unfolding cancel_command resolve_pending_command
  counter-apply (begin m marshals encodes) h hn = counter-begin_command m marshals encodes h hn
  counter-apply (cancel id) h hn = omega arith
  counter-apply (resolve id r) h hn = omega arith
  counter-apply (disconnect now conn m) h hn =
      omega (arith, counter-disconnect_client time now conn m h)

  apply-IsSettled :
      (op : CommandOp) (h : ClientHub)
      → h.next_request_id + draws op < 2 ^ 64
      → IsSettled h
      → IsSettled (apply op h)
  apply-IsSettled (begin m marshals encodes) h hn s =
      begin_command-IsSettled m marshals encodes h hn s
  apply-IsSettled (cancel id) h hn s = cancel_command-IsSettled id h s
  apply-IsSettled (resolve id r) h hn s = resolve_pending_command-IsSettled id r h s
  apply-IsSettled (disconnect now conn m) h hn s = disconnect_client-IsSettled time now conn m h s

  -- Commands that begin, are cancelled and are answered, and connections that go, in any order, keep
  -- the table of the commands settled, as long as the counter does not pass 2 ^ 64 - 1.
  pub run_ops-IsSettled :
      (ops : List CommandOp) (h : ClientHub)
      → h.next_request_id + total_draws ops < 2 ^ 64
      → IsSettled h
      → IsSettled (run_ops ops h)
  run_ops-IsSettled [] h hn s = s
  run_ops-IsSettled (op ∷ ops) h hn s =
      run_ops-IsSettled ops (apply op h) (omega (arith, counter-apply op h))
        (apply-IsSettled op h (omega arith) s)

  -- From a hub whose table of commands is settled, and after any sequence of commands that begin, are
  -- cancelled or are answered and of connections that go, the counter staying below 2 ^ 64: the
  -- answer to a command that waits is sent on the command's channel, behind what was sent before,
  -- and not dropped. The command waits no longer, so that a second answer changes nothing.
  pub resolve_pending_command-run_ops :
      (ops : List CommandOp) (h : ClientHub) (id : Str) (w : PendingCommandWaiter)
      (r late : CommandResult)
      → h.next_request_id + total_draws ops < 2 ^ 64
      → IsSettled h
      → Dict.get (run_ops ops h).pending_commands id ≡ some w
      → let answered = resolve_pending_command id r (run_ops ops h) in
        (answered.delivered ≡ (run_ops ops h).delivered ++ ((w.channel, r) ∷ []))
        × (resolve_pending_command id late answered ≡ answered)
  resolve_pending_command-run_ops ops h id w r late hn s e =
      answer_once id (run_ops ops h) w r late (run_ops-IsSettled ops h hn s) e
