-- ===== src/Gateway/ClientHub/Sessions/Reconnect.antt =====
-- A machine that registers on a new connection while its old one is still open.
use agent_console.Prelude.{
  ℕ, Str, is_empty, false, some, ◌≡◌, ◌≢◌, refl, ap, ◌∙◌, arith, Bool-cases, inl, inr, nat_eq,
  nat_eq→eq,
}
use agent_console.Prelude.Text.{eq_refl}
use agent_console.Prelude.Dict
use agent_console.Prelude.Time.{TimeText}
use agent_console.Domain.Machine.{Machine, MachineStatus}
use agent_console.Gateway.ClientHub.{ClientHub}
use agent_console.Gateway.ClientHub.Broadcast.{
  broadcast_machine_updated, broadcast_northbound_event, publish,
}
use agent_console.Gateway.ClientHub.Cleanup.{disconnect_client_stale}
use agent_console.Gateway.ClientHub.Connections.{
  owns, register_client, disconnect_client, machine_for_event,
}
use agent_console.Gateway.ClientHub.Sessions.Owners.{clients-register}

-- A broadcast changes what the consoles are to be sent, and nothing else.
broadcast-frame :
    (now : Str) (machine : Machine) (timestamp : Str) (h : ClientHub)
    → record (broadcast_machine_updated now machine timestamp h) { console_hub = h.console_hub } ≡ h
unfolding broadcast_machine_updated broadcast_northbound_event publish
broadcast-frame now machine timestamp h = elim (Bool-cases (is_empty machine.id)) [
  | inl e ↦ rw e refl
  | inr e ↦ rw e refl
]

served_by_other :
    (h : ClientHub) (conn old : ℕ) (m : Str)
    → Dict.get h.clients m ≡ some conn
    → nat_eq conn old ≡ false
    → owns h old m ≡ false
served_by_other h conn old m e ne = ground arith

registered-client :
    (time : TimeText) (now : Str) (conn : ℕ) (previous m name timestamp : Str) (h : ClientHub)
    → is_empty m ≡ false
    → Dict.get (register_client time now conn previous m name timestamp h).0.clients m ≡ some conn
registered-client time now conn previous m name timestamp h hm =
    ground
      (arith, (clients-register time now conn previous m name timestamp h hm).answers m, eq_refl m)

-- A machine with an id registers on a connection, and the next that happens is that another one, which
-- had registered it, is lost. Then the new connection serves the machine on, and all else of the hub is as it was
-- after the registration, but for what the consoles are sent: no command is given up, no snapshot
-- is marked, and the registry, the index and the router are not told.
pub disconnect_client-register :
    (time : TimeText) (now later : Str) (conn old : ℕ) (previous m name timestamp : Str)
    (h : ClientHub)
    → is_empty m ≡ false
    → conn ≢ old
    → let g = (register_client time now conn previous m name timestamp h).0 in
      let lost = disconnect_client time later old m g in
      (Dict.get lost.clients m ≡ some conn) × (record lost { console_hub = g.console_hub } ≡ g)
disconnect_client-register time now later conn old previous m name timestamp h hm ne =
    let g = (register_client time now conn previous m name timestamp h).0 in
    let there = registered-client time now conn previous m name timestamp h hm in
    let other : nat_eq conn old ≡ false = ground (arith, nat_eq→eq conn old, ne) in
    let foreign : owns g old m ≡ false = served_by_other g conn old m there other in
    let frame = broadcast-frame later (machine_for_event g m MachineStatus.offline) later g in
    rw (disconnect_client_stale time later old m g (ground arith) foreign)
      (ap (λ (k : ClientHub). Dict.get k.clients m) frame ∙ there, frame)
