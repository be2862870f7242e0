-- ===== src/Gateway/ClientHub/Commands.antt =====
-- The commands that wait for an answer: each command has a channel of its own, and its answer is
-- never dropped.
pub mod Runs
use agent_console.Prelude.{
  ℕ, ◌+◌, ◌%◌, ◌^◌, ◌≤◌, ◌<◌, Str, ◌==◌, eq_iff, is_empty, Bool, true, false, not, ◌||◌, Option,
  none, some, List, [], ◌∷◌, ◌++◌, ◌≡◌, ◌≢◌, refl, sym, ap, ◌∙◌, arith, nat_eq, nat_eq→eq,
  if◌then◌else◌, All, if_both, ◌⊎◌, Bool-cases, Option-cases, inl, inr,
}
use agent_console.Prelude.Dict
use agent_console.Prelude.Dict.{Dict}
use agent_console.Prelude.Time.{TimeText}
use agent_console.Domain.Machine.{MachineStatus}
use agent_console.Gateway.ClientHub.{ClientHub, CommandResult, disconnected, PendingCommandWaiter}
use agent_console.Gateway.ClientHub.Cleanup.{
  IsGone, offer_all, waits_for_other, disconnect_client-IsGone, disconnect_client_stale,
}
use agent_console.Gateway.ClientHub.Connections.{
  SendFailure, machine_waiters, disconnect_client, owns, has_result, offer, offer_to, request_id,
  begin_command, cancel_command, resolve_pending_command,
}

has_result-append :
    (c k : ℕ) (r : CommandResult) (sent : List (ℕ × CommandResult))
    → has_result c (sent ++ ((k, r) ∷ [])) ≡ (has_result c sent || nat_eq k c)
unfolding has_result
has_result-append c k r [] = ground arith
has_result-append c k r ((j, q) ∷ sent) = ground (arith, has_result-append c k r sent)

-- After an offer on channel k, channel k has a result, and the other channels are as before.
has_result-offer :
    (c k : ℕ) (r : CommandResult) (sent : List (ℕ × CommandResult))
    → has_result c (offer k r sent) ≡ (has_result c sent || nat_eq k c)
unfolding offer
has_result-offer c k r sent = elim (Bool-cases (has_result k sent)) [
  | inl e ↦ rw e (ground (arith, nat_eq→eq k c))
  | inr e ↦ rw e (has_result-append c k r sent)
]

-- Every command that waits has the channel of its own number, which is not ahead of the counter and
-- holds no result yet; no channel ahead of the counter does.
pub record IsSettled (h : ClientHub) : Type 0 where
  pub keyed : Dict.IsKeyed h.pending_commands
  pub waiting :
      (id : Str) (w : PendingCommandWaiter)
      → Dict.get h.pending_commands id ≡ some w
      → (id ≡ request_id w.channel)
        × (w.channel ≤ h.next_request_id)
        × (has_result w.channel h.delivered ≡ false)
  pub sent : (c : ℕ) → h.next_request_id < c → has_result c h.delivered ≡ false

abbrev waiter_of : Str → ℕ → PendingCommandWaiter
waiter_of machine_id n = record { machine_id = machine_id; channel = n }

counter-next : (n : ℕ) → n + 1 < 2 ^ 64 → (n + 1) % 2 ^ 64 ≡ n + 1
counter-next n h = omega arith

-- The counter moves on; a command may start to wait with the new number.
counted-IsSettled :
    (h : ClientHub) → IsSettled h → IsSettled (record h { next_request_id = h.next_request_id + 1 })
counted-IsSettled h s = record {
  keyed = s.keyed;
  waiting = λ id w e. ground (arith, s.waiting id w);
  sent = λ c lt. s.sent c (omega arith);
}

started-IsSettled :
    (m : Str) (h : ClientHub)
    → IsSettled h
    → IsSettled (record h {
      next_request_id = h.next_request_id + 1;
      pending_commands =
          Dict.put h.pending_commands
            (request_id (h.next_request_id + 1))
            (waiter_of m (h.next_request_id + 1));
    })
started-IsSettled m h s =
    let n = h.next_request_id + 1 in
    record {
      keyed = Dict.put-IsKeyed h.pending_commands (request_id n) (waiter_of m n) s.keyed;
      waiting = λ id w e. ground (
        arith,
        Dict.get-put h.pending_commands (request_id n) (waiter_of m n) id,
        eq_iff (request_id n) id,
        s.waiting id w,
        s.sent n,
      );
      sent = λ c lt. s.sent c (omega arith);
    }

pub begin_command-IsSettled :
    (m : Str) (marshals encodes : Bool) (h : ClientHub)
    → h.next_request_id + 1 < 2 ^ 64
    → IsSettled h
    → IsSettled (begin_command m marshals encodes h).0
unfolding begin_command
begin_command-IsSettled m false encodes h hn s =
    rw (counter-next h.next_request_id hn) (counted-IsSettled h s)
begin_command-IsSettled m true false h hn s = rw (counter-next h.next_request_id hn) (
    if_both {A = ClientHub × (SendFailure ⊎ Str)} (λ x. IsSettled x.0) (not (Dict.has h.clients m))
      (counted-IsSettled h s) (counted-IsSettled h s))
begin_command-IsSettled m true true h hn s = rw (counter-next h.next_request_id hn) (
    if_both {A = ClientHub × (SendFailure ⊎ Str)} (λ x. IsSettled x.0) (not (Dict.has h.clients m))
      (counted-IsSettled h s) (started-IsSettled m h s))

pub cancel_command-IsSettled :
    (id : Str) (h : ClientHub) → IsSettled h → IsSettled (cancel_command id h)
unfolding cancel_command
cancel_command-IsSettled id h s = record {
  keyed = Dict.remove-IsKeyed h.pending_commands id s.keyed;
  waiting = λ k w e. ground (arith, Dict.get-remove h.pending_commands id k, s.waiting k w);
  sent = s.sent;
}

pub resolve_pending_command-IsSettled :
    (id : Str) (r : CommandResult) (h : ClientHub)
    → IsSettled h
    → IsSettled (resolve_pending_command id r h)
unfolding resolve_pending_command offer_to cancel_command
resolve_pending_command-IsSettled id r h s = elim (Option-cases (Dict.get h.pending_commands id)) [
  | inl e ↦ rw e (cancel_command-IsSettled id h s)
  | inr (v, e) ↦ rw e (record {
    keyed = Dict.remove-IsKeyed h.pending_commands id s.keyed;
    waiting = λ k w ek. ground (
      arith,
      Dict.get-remove h.pending_commands id k,
      s.waiting k w,
      s.waiting id v,
      has_result-offer w.channel v.channel r h.delivered,
      nat_eq→eq v.channel w.channel,
      eq_iff id k,
    );
    sent = λ c lt. ground (
      arith,
      s.waiting id v e,
      s.sent c lt,
      has_result-offer c v.channel r h.delivered,
      nat_eq→eq v.channel c,
    );
  })
]
