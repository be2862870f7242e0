-- ===== src/Gateway/ClientHub/Sessions/Owners.antt =====
-- Which connection serves which machine.
use agent_console.Prelude.{
  ℕ, Str, ◌==◌, eq_iff, is_empty, true, false, ◌&&◌, Option, none, some, [], ◌≡◌, ◌≢◌, refl, sym,
  ap, ◌∙◌, arith, Bool-cases, inl, inr, nat_eq, nat_eq→eq, nat_eq_refl, if◌then◌else◌,
}
use agent_console.Prelude.Dict
use agent_console.Prelude.Dict.{Dict}
use agent_console.Prelude.Time.{TimeText}
use agent_console.Gateway.Registry
use agent_console.Gateway.Registry.Approvals.{upsert-pending_approvals}
use agent_console.Gateway.ClientHub.{ClientHub, store_snapshot}
use agent_console.Gateway.ClientHub.Cleanup.{
  IsGone, drop_client-IsGone, fail_pending_waiters-eq, disconnect_client-IsGone,
  disconnect_client_stale,
}
use agent_console.Gateway.ClientHub.Connections.{
  resolve_pending_command, fail_pending_waiters, drop_client, owns, gives_up, register_client,
  registered_machine, disconnect_client, machine_for_event,
}
use agent_console.Gateway.ClientHub.Events.{add_approval, remove_approval}
use agent_console.Gateway.ClientHub.Invariants.{
  IsPassive, IsStable, machine_announced, gone_announced,
}
use agent_console.Gateway.ClientHub.Commands.Runs.{empty_machine, disconnect_client_nobody}
use agent_console.Gateway.ClientHub.Sessions.{set_registered}
use agent_console.Domain.Machine.{MachineStatus}

-- The table of the connections answers as the function does.
pub record HasClients (lookup : Str → Option ℕ) (h : ClientHub) : Type 0 where
  pub answers : (k : Str) → Dict.get h.clients k ≡ lookup k

pub HasClients-IsPassive :
    (time : TimeText) (lookup : Str → Option ℕ) → IsPassive time (HasClients lookup)
unfolding store_snapshot
HasClients-IsPassive time lookup = record {
  stored = λ m state turns h p. record { answers = p.answers };
  told = λ console h p. record { answers = p.answers };
  routed = λ router h p. record { answers = p.answers };
  registered = λ f h same p. record { answers = p.answers };
}

pub HasClients-IsStable :
    (time : TimeText) (lookup : Str → Option ℕ) → IsStable time (HasClients lookup)
unfolding add_approval remove_approval resolve_pending_command
HasClients-IsStable time lookup = record {
  passive = HasClients-IsPassive time lookup;
  added = λ m payload h e p. record { answers = p.answers };
  removed = λ id h e p. record { answers = p.answers };
  answered = λ id result h p. record { answers = p.answers };
}

-- Every machine that is served has an id, and is the one that its connection registered.
pub record IsOwned (registered : ℕ → Str) (h : ClientHub) : Type 0 where
  pub owner :
      (m : Str) (conn : ℕ) → Dict.get h.clients m ≡ some conn → (registered conn ≡ m) × (m ≢ [])

pub same-IsOwned :
    (registered : ℕ → Str) (h g : ClientHub)
    → HasClients (Dict.get h.clients) g
    → IsOwned registered h
    → IsOwned registered g
same-IsOwned registered h g same o = record {
  owner = λ m conn e. o.owner m conn (sym (same.answers m) ∙ e);
}

get-drop_client :
    (time : TimeText) (m : Str) (h : ClientHub) (k : Str)
    → m ≢ []
    → Dict.get (drop_client time m h).0.clients k ≡ (if m == k then none else Dict.get h.clients k)
get-drop_client time m h k hm =
    let dropped = drop_client time m h in
    sym (ap (λ (g : ClientHub). Dict.get g.clients k) (fail_pending_waiters-eq dropped.1 dropped.0))
    ∙ (drop_client-IsGone time m h hm).clients k

abbrev pub after_register : TimeText → ClientHub → ℕ → Str → Str → Str → Option ℕ
after_register time h conn old m k =
    if m == k
    then some conn
    else if gives_up time h conn old m && old == k
    then none
    else Dict.get h.clients k

get-given_up :
    (time : TimeText) (conn : ℕ) (old m : Str) (h : ClientHub) (k : Str)
    → let dropped = if gives_up time h conn old m then drop_client time old h else (h, []) in
      Dict.get dropped.0.clients k
      ≡ (if gives_up time h conn old m && old == k then none else Dict.get h.clients k)
get-given_up time conn old m h k = elim (Bool-cases (gives_up time h conn old m)) [
  | inl e ↦ rw e (get-drop_client time old h k (ground arith))
  | inr e ↦ rw e refl
]

entered :
    (ws : _) (m : Str) (conn : ℕ) (g : ClientHub) (lookup : Str → Option ℕ)
    → ((k : Str) → Dict.get g.clients k ≡ lookup k)
    → HasClients
        (λ k. if m == k then some conn else lookup k)
        (fail_pending_waiters ws (record g { clients = Dict.put g.clients m conn }))
entered ws m conn g lookup same = record {
  answers = λ k.
      rw (fail_pending_waiters-eq ws (record g { clients = Dict.put g.clients m conn }))
        (ground (arith, Dict.get-put g.clients m conn k, same k));
}

pub clients-register :
    (time : TimeText) (now : Str) (conn : ℕ) (old m name timestamp : Str) (h : ClientHub)
    → is_empty m ≡ false
    → HasClients
        (after_register time h conn old m)
        (register_client time now conn old m name timestamp h).0
unfolding register_client
clients-register time now conn old m name timestamp h hm =
    let P = HasClients (after_register time h conn old m) in
    let passive = HasClients-IsPassive time (after_register time h conn old m) in
    rw hm (
      machine_announced time P passive now _ timestamp _ (
        passive.registered (Registry.upsert (registered_machine time m name)) _
          (upsert-pending_approvals (registered_machine time m name))
          (gone_announced time P passive _ now old timestamp _
            (entered _ m conn _ _ (get-given_up time conn old m h)))))

after_register-IsOwned :
    (time : TimeText) (conn : ℕ) (m : Str) (registered : ℕ → Str) (h g : ClientHub)
    → is_empty m ≡ false
    → HasClients (after_register time h conn (registered conn) m) g
    → IsOwned registered h
    → IsOwned (set_registered conn m registered) g
after_register-IsOwned time conn m registered h g hm now o = record {
  owner = λ k c e. ground (
    arith,
    now.answers k,
    e,
    eq_iff m k,
    eq_iff (registered conn) k,
    eq_iff (registered conn) m,
    o.owner k c,
    nat_eq→eq c conn,
    nat_eq_refl conn,
  );
}

register_nobody :
    (time : TimeText) (now : Str) (conn : ℕ) (old m name timestamp : Str) (h : ClientHub)
    → is_empty m ≡ true
    → register_client time now conn old m name timestamp h ≡ (h, old)
unfolding register_client
register_nobody time now conn old m name timestamp h e = rw e refl

register_machine :
    (time : TimeText) (now : Str) (conn : ℕ) (old m name timestamp : Str) (h : ClientHub)
    → is_empty m ≡ false
    → (register_client time now conn old m name timestamp h).1 ≡ m
unfolding register_client
register_machine time now conn old m name timestamp h e = rw e refl

pub register-IsOwned :
    (time : TimeText) (now : Str) (conn : ℕ) (m name timestamp : Str) (registered : ℕ → Str)
    (h : ClientHub)
    → IsOwned registered h
    → let (g, machine) = register_client time now conn (registered conn) m name timestamp h in
      IsOwned (set_registered conn machine registered) g
register-IsOwned time now conn m name timestamp registered h o = elim (Bool-cases (is_empty m)) [
  | inl e ↦
      rw (register_nobody time now conn (registered conn) m name timestamp h e)
        (record { owner = λ k c ek. ground (arith, o.owner k c ek, nat_eq→eq c conn) })
  | inr e ↦ rw (register_machine time now conn (registered conn) m name timestamp h e) (
      after_register-IsOwned time conn m registered h _ e
        (clients-register time now conn (registered conn) m name timestamp h e) o)
]

-- The connection whose variable is cleared serves no machine.
cleared-IsOwned :
    (conn : ℕ) (registered : ℕ → Str) (g : ClientHub)
    → IsOwned registered g
    → Dict.get g.clients (registered conn) ≢ some conn
    → IsOwned (set_registered conn [] registered) g
cleared-IsOwned conn registered g o apart = record {
  owner = λ k c ek.
      let (er, hk) = o.owner k c ek in
      (
        elim (Bool-cases (nat_eq c conn)) [
          | inl e ↦
              elim (apart (
                rw (ap registered (sym (nat_eq→eq c conn e)) ∙ er)
                  (ek ∙ ap some (nat_eq→eq c conn e)))) [ ]
          | inr e ↦ rw e er
        ],
        hk,
      );
}

lost-IsOwned :
    (conn : ℕ) (m : Str) (registered : ℕ → Str) (h g : ClientHub)
    → IsGone m h g
    → IsOwned registered h
    → IsOwned registered g
lost-IsOwned conn m registered h g gone o = record {
  owner = λ k c ek. o.owner k c (ground (arith, gone.clients k, ek));
}

pub disconnect-IsOwned :
    (time : TimeText) (now : Str) (conn : ℕ) (registered : ℕ → Str) (h : ClientHub)
    → IsOwned registered h
    → IsOwned
        (set_registered conn [] registered)
        (disconnect_client time now conn (registered conn) h)
disconnect-IsOwned time now conn registered h o =
    let m = registered conn in
    elim (Bool-cases (is_empty m)) [
      | inl e ↦
          rw (empty_machine m e, disconnect_client_nobody)
            (cleared-IsOwned conn registered h o (λ q. (o.owner m conn q).1 (empty_machine m e)))
      | inr e ↦ elim (Bool-cases (owns h conn m)) [
        | inl e' ↦
            let gone = disconnect_client-IsGone time now conn m h (ground arith) e' in
            cleared-IsOwned conn registered _ (lost-IsOwned conn m registered h _ gone o)
              (λ q. ground (arith, gone.clients m, eq_iff m m, q))
        | inr e' ↦
            let told =
              machine_announced time (HasClients (Dict.get h.clients))
                (HasClients-IsPassive time (Dict.get h.clients)) now
                (machine_for_event h m MachineStatus.offline) now h
                (record { answers = λ k. refl }) in
            rw (disconnect_client_stale time now conn m h (ground arith) e') (
              cleared-IsOwned conn registered _ (same-IsOwned registered h _ told o)
                (λ q. ground (arith, told.answers m, q, nat_eq_refl conn, e')))
      ]
    ]
