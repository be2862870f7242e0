-- ===== src/Gateway/ClientHub/Invariants.antt =====
-- What every operation of the hub keeps, if each of the changes that the operations are made of keeps it.
use agent_console.Prelude.{
  ℕ, Str, is_empty, Bool, true, false, Option, none, some, [], ◌∷◌, ◌≡◌, ◌≢◌, refl, arith,
  Bool-cases, if_both, inl, inr, if◌then◌else◌,
}
use agent_console.Prelude.Dict.{Dict}
use agent_console.Prelude.Time.{TimeText}
use agent_console.Domain.Machine.{Machine}
use agent_console.Domain.Timeline.{EventType, TimelineEvent, Approval, ApprovalRequiredPayload}
use agent_console.Domain.Thread.{Thread}
use agent_console.Domain.Protocol.{
  Envelope, Payload, CompletedResult, ThreadUpdatedPayload, ResourceChangedPayload,
}
use agent_console.Gateway.ConsoleHub.{ConsoleHub}
use agent_console.Gateway.Registry
use agent_console.Gateway.Registry.Approvals.{upsert-pending_approvals, append-pending_approvals}
use agent_console.Gateway.Routing.{Router}
use agent_console.Gateway.ClientHub.{
  ClientHub, MachineSnapshotState, CommandResult, on_some, store_snapshot, replace_machine_snapshot,
  upsert_thread_snapshot, set_active_turn, clear_active_turn, remove_thread_snapshot,
  remove_environment_resource, upsert_environment_resource,
}
use agent_console.Gateway.ClientHub.Broadcast.{
  publish, broadcast_northbound_event, broadcast_machine_updated, broadcast_thread_updated,
  broadcast_resource_changed,
}
use agent_console.Gateway.ClientHub.Connections.{
  is_current_owner, resolve_pending_command, fail_pending_waiters, drop_client, owns,
  disconnect_client, register_client, announce_gone, gives_up, registered_machine,
}
use agent_console.Gateway.ClientHub.Cleanup.{fail_pending_waiters-eq, offer_all}
use agent_console.Gateway.ClientHub.Envelopes.{
  SnapshotPayload, machine_snapshot, thread_snapshot, environment_snapshot, other_snapshot,
  apply_snapshot, handle_snapshot_envelope,
}
use agent_console.Gateway.ClientHub.Events.{
  add_approval, remove_approval, approval_ids, timeline_approval_to_protocol, with_approval,
  apply_event_approval, apply_timeline_payload, apply_timeline_event, apply_turn_event,
  apply_turn_payload, apply_turn_lifecycle_event, track_thread, apply_completed_command,
  answer_event, apply_event, handle_event_envelope, normalize_approval_envelope,
  normalize_timeline_envelope,
}

-- The changes that touch neither the commands nor the approvals nor the connections.
pub record IsPassive (time : TimeText) (P : ClientHub → Type 0) : Type 0 where
  pub stored :
      (m : Str) (state : MachineSnapshotState) (turns : Dict Str) (h : ClientHub)
      → P h
      → P (store_snapshot time m state (record h { active_turns = turns }))
  pub told :
      (console : Option ConsoleHub) (h : ClientHub) → P h → P (record h { console_hub = console })
  pub routed : (router : Option Router) (h : ClientHub) → P h → P (record h { router = router })
  pub registered :
      (f : Registry.Store → Registry.Store) (h : ClientHub)
      → ((s : Registry.Store) → (f s).pending_approvals ≡ s.pending_approvals)
      → P h
      → P (record h { registry = on_some f h.registry })

-- With the approvals and the answers to commands.
pub record IsStable (time : TimeText) (P : ClientHub → Type 0) : Type 0 where
  pub passive : IsPassive time P
  pub added :
      (m : Str) (payload : ApprovalRequiredPayload) (h : ClientHub)
      → is_empty payload.request_id ≡ false
      → P h
      → P (add_approval m payload.request_id payload h)
  pub removed : (id : Str) (h : ClientHub) → is_empty id ≡ false → P h → P (remove_approval id h)
  pub answered :
      (id : Str) (result : CommandResult) (h : ClientHub)
      → P h
      → P (resolve_pending_command id result h)

-- With the connections too: a new table of them, and what is done to the hub when a machine is lost.
pub record IsRobust (time : TimeText) (P : ClientHub → Type 0) : Type 0 where
  pub stable : IsStable time P
  pub connected : (clients : Dict ℕ) (h : ClientHub) → P h → P (record h { clients = clients })
  pub lost :
      (m : Str) (h : ClientHub)
      → m ≢ []
      → P h
      → P (fail_pending_waiters (drop_client time m h).1 (drop_client time m h).0)

-- A test and the change under it.
guarded :
    (P : ClientHub → Type 0) (b : Bool) {yes no : ClientHub}
    → P yes
    → (b ≡ false → P no)
    → P (if b then yes else no)
guarded P true at_yes at_no = at_yes
guarded P false at_yes at_no = at_no refl

module _ (time : TimeText) (P : ClientHub → Type 0) (passive : IsPassive time P) where
  published : (e : Envelope) (h : ClientHub) → P h → P (publish e h)
  unfolding publish
  published e h p = passive.told _ h p

  pub machine_announced :
      (now : Str) (machine : Machine) (timestamp : Str) (h : ClientHub)
      → P h
      → P (broadcast_machine_updated now machine timestamp h)
  unfolding broadcast_machine_updated broadcast_northbound_event
  machine_announced now machine timestamp h p = if_both P (is_empty machine.id) p (published _ h p)

  pub gone_announced :
      (b : Bool) (now registered timestamp : Str) (h : ClientHub)
      → P h
      → P (announce_gone time b now registered timestamp h)
  unfolding announce_gone
  gone_announced false now registered timestamp h p = p
  gone_announced true now registered timestamp h p = machine_announced now _ timestamp h p

  pub thread_announced :
      (now : Str) (payload : ThreadUpdatedPayload) (timestamp : Str) (h : ClientHub)
      → P h
      → P (broadcast_thread_updated now payload timestamp h)
  unfolding broadcast_thread_updated broadcast_northbound_event
  thread_announced now payload timestamp h p = if_both P _ p (published _ h p)

  pub resource_announced :
      (now : Str) (payload : ResourceChangedPayload) (timestamp : Str) (h : ClientHub)
      → P h
      → P (broadcast_resource_changed now payload timestamp h)
  unfolding broadcast_resource_changed broadcast_northbound_event
  resource_announced now payload timestamp h p = if_both P _ p (published _ h p)

  snapshot_kept :
      (now m timestamp : Str) (payload : SnapshotPayload) (h : ClientHub)
      → P h
      → P (apply_snapshot time now m timestamp payload h)
  unfolding apply_snapshot replace_machine_snapshot
  snapshot_kept now m timestamp (machine_snapshot (some machine)) h p =
      machine_announced now _ timestamp _ (passive.registered _ h (upsert-pending_approvals _) p)
  snapshot_kept now m timestamp (thread_snapshot (some items)) h p =
      thread_announced now _ timestamp _
        (passive.routed _ _ (passive.stored m _ h.active_turns h p))
  snapshot_kept now m timestamp (environment_snapshot (some items)) h p =
      resource_announced now _ timestamp _ (passive.stored m _ h.active_turns h p)
  snapshot_kept now m timestamp (machine_snapshot none) h p = p
  snapshot_kept now m timestamp (thread_snapshot none) h p = p
  snapshot_kept now m timestamp (environment_snapshot none) h p = p
  snapshot_kept now m timestamp other_snapshot h p = p

  pub handle_snapshot_kept :
      (now : Str) (conn : ℕ) (m timestamp : Str) (payload : SnapshotPayload) (h : ClientHub)
      → P h
      → P (handle_snapshot_envelope time now conn m timestamp payload h)
  unfolding handle_snapshot_envelope
  handle_snapshot_kept now conn m timestamp payload h p =
      if_both P (is_current_owner h conn m) (snapshot_kept now m timestamp payload h p) p

  turn_kept :
      (now : Str) (e : Envelope) (type : EventType) (thread turn : Str) (h : ClientHub)
      → P h
      → P (apply_turn_event time now e type thread turn h)
  unfolding apply_turn_event set_active_turn clear_active_turn
  turn_kept now e EventType.turn_started thread turn h p = if_both P _ p (passive.stored _ _ _ h p)
  turn_kept now e EventType.turn_completed thread turn h p =
      if_both P _ p (passive.stored _ _ _ h p)
  turn_kept now e EventType.turn_failed thread turn h p = if_both P _ p (passive.stored _ _ _ h p)
  turn_kept now e EventType.unset thread turn h p = p
  turn_kept now e EventType.item_started thread turn h p = p
  turn_kept now e EventType.item_delta thread turn h p = p
  turn_kept now e EventType.item_completed thread turn h p = p
  turn_kept now e EventType.item_failed thread turn h p = p
  turn_kept now e EventType.approval_requested thread turn h p = p
  turn_kept now e EventType.approval_resolved thread turn h p = p
  turn_kept now e EventType.system_event thread turn h p = p
  turn_kept now e (EventType.other name) thread turn h p = p

  lifecycle_kept :
      (now : Str) (e : Envelope) (payload : Payload) (h : ClientHub)
      → P h
      → P (apply_turn_payload time now e payload h)
  unfolding apply_turn_payload
  lifecycle_kept now e (Payload.turn_started (some t)) h p =
      turn_kept now e EventType.turn_started t.thread_id t.turn_id h p
  lifecycle_kept now e (Payload.turn_completed (some t)) h p =
      turn_kept now e EventType.turn_completed t.thread_id t.turn_id h p
  lifecycle_kept now e (Payload.turn_failed (some t)) h p =
      turn_kept now e EventType.turn_failed t.thread_id t.turn_id h p
  lifecycle_kept now e (Payload.timeline_event (some event)) h p =
      turn_kept now e event.event_type event.thread_id event.turn_id h p
  lifecycle_kept now e _ h p = p

  tracked :
      (now m timestamp : Str) (t : Thread) (h : ClientHub)
      → P h
      → P (track_thread time now m timestamp t h)
  unfolding track_thread upsert_thread_snapshot
  tracked now m timestamp t h p =
      thread_announced now _ timestamp _
        (passive.routed _ _ (if_both P _ p (if_both P _ p (passive.stored m _ h.active_turns h p))))

  pub completed_kept :
      (now m timestamp : Str) (result : CompletedResult) (h : ClientHub)
      → P h
      → P (apply_completed_command time now m timestamp result h)
  unfolding apply_completed_command remove_thread_snapshot upsert_environment_resource
      remove_environment_resource
  completed_kept now m timestamp (CompletedResult.thread_created (some t)) h p =
      if_both P _ p (tracked now m timestamp _ h p)
  completed_kept now m timestamp (CompletedResult.thread_resumed (some t)) h p =
      if_both P _ p (tracked now m timestamp _ h p)
  completed_kept now m timestamp (CompletedResult.thread_archived (some id)) h p =
      if_both P _ p (thread_announced now _ timestamp _ (if_both P _ p (passive.stored m _ _ h p)))
  completed_kept now m timestamp (CompletedResult.skill_set_enabled (some r)) h p = if_both P _ p (
      resource_announced now _ timestamp _
        (if_both {A = ClientHub × _} (λ x. P x.0) _ p (passive.stored m _ h.active_turns h p)))
  completed_kept now m timestamp (CompletedResult.plugin_uninstalled (some id)) h p =
      if_both P _ p (
        resource_announced now _ timestamp _
          (if_both P _ p (passive.stored m _ h.active_turns h p)))
  completed_kept now m timestamp _ h p = p

module _ (time : TimeText) (P : ClientHub → Type 0) (stable : IsStable time P) where
  -- The approval of an event, which the payload made of the event names.
  approval_kept :
      (m : Str) (event : TimelineEvent) (o : Option Approval) (type : EventType) (h : ClientHub)
      → event.approval ≡ o
      → P h
      → P (apply_event_approval m event o type h)
  unfolding apply_event_approval timeline_approval_to_protocol with_approval
  approval_kept m event none type h eo p = p
  approval_kept m event (some a) EventType.approval_requested h eo p =
      guarded P (is_empty a.request_id) p
        (λ e. rw eo (stable.added m (with_approval (approval_ids event) (some a)) h e p))
  approval_kept m event (some a) EventType.approval_resolved h eo p =
      guarded P (is_empty a.request_id) p (λ e. stable.removed a.request_id h e p)
  approval_kept m event (some a) EventType.unset h eo p = p
  approval_kept m event (some a) EventType.turn_started h eo p = p
  approval_kept m event (some a) EventType.turn_completed h eo p = p
  approval_kept m event (some a) EventType.turn_failed h eo p = p
  approval_kept m event (some a) EventType.item_started h eo p = p
  approval_kept m event (some a) EventType.item_delta h eo p = p
  approval_kept m event (some a) EventType.item_completed h eo p = p
  approval_kept m event (some a) EventType.item_failed h eo p = p
  approval_kept m event (some a) EventType.system_event h eo p = p
  approval_kept m event (some a) (EventType.other name) h eo p = p

  timeline_kept :
      (m : Str) (payload : Payload) (h : ClientHub) → P h → P (apply_timeline_payload m payload h)
  unfolding apply_timeline_payload
  timeline_kept m (Payload.timeline_event (some event)) h p =
      approval_kept m event event.approval event.event_type _ refl
        (stable.passive.registered _ h (append-pending_approvals event) p)
  timeline_kept m _ h p = p

  answer_kept :
      (now : Str) (e : Envelope) (payload : Payload) (h : ClientHub)
      → P h
      → P (answer_event time now e payload h)
  unfolding answer_event
  answer_kept now e (Payload.command_completed (some c)) h p =
      stable.answered e.request_id _ _
        (completed_kept time P stable.passive now e.machine_id e.timestamp c.decoded h p)
  answer_kept now e (Payload.command_rejected (some c)) h p = stable.answered e.request_id _ h p
  answer_kept now e (Payload.approval_required (some a)) h p =
      guarded P (is_empty a.request_id) p
        (λ ea. if_both P (is_empty e.machine_id) p (stable.added e.machine_id a h ea p))
  answer_kept now e (Payload.approval_resolved (some a)) h p =
      guarded P (is_empty a.request_id) p (λ ea. stable.removed a.request_id h ea p)
  answer_kept now e _ h p = p

  event_kept : (now : Str) (e : Envelope) (h : ClientHub) → P h → P (apply_event time now e h)
  unfolding apply_event apply_turn_lifecycle_event apply_timeline_event
  event_kept now e h p =
      let told : P _ = published time P stable.passive e _ (
        timeline_kept e.machine_id e.payload _
          (lifecycle_kept time P stable.passive now e e.payload h p)) in
      if_both P (is_empty e.request_id) told (answer_kept now e e.payload _ told)

  pub handle_event_kept :
      (now : Str) (conn : ℕ) (e : Envelope) (h : ClientHub)
      → P h
      → P (handle_event_envelope time now conn e h)
  unfolding handle_event_envelope
  handle_event_kept now conn e h p =
      if_both P (is_current_owner h conn e.machine_id)
        (event_kept now (normalize_timeline_envelope (normalize_approval_envelope e)) h p) p

module _ (time : TimeText) (P : ClientHub → Type 0) (robust : IsRobust time P) where
  pub disconnect_kept :
      (now : Str) (conn : ℕ) (m : Str) (h : ClientHub)
      → P h
      → P (disconnect_client time now conn m h)
  unfolding disconnect_client fail_pending_waiters
  disconnect_kept now conn [] h p = p
  disconnect_kept now conn (c ∷ m') h p =
      let m = c ∷ m' in
      let passive = robust.stable.passive in
      elim (Bool-cases (owns h conn m)) [
        | inl e ↦
            rw e (machine_announced time P passive now _ now _ (robust.lost m h (ground arith) p))
        | inr e ↦ rw e (machine_announced time P passive now _ now h p)
      ]

  -- The entry is made before the waiters fail.
  entered :
      (ws : _) (clients : Dict ℕ) (g : ClientHub)
      → P (fail_pending_waiters ws g)
      → P (fail_pending_waiters ws (record g { clients = clients }))
  entered ws clients g p =
      let p' : P (record g { delivered = offer_all ws g.delivered }) =
        rw⁻¹ (fail_pending_waiters-eq ws g) p in
      rw (fail_pending_waiters-eq ws (record g { clients = clients }))
        (robust.connected clients (record g { delivered = offer_all ws g.delivered }) p')

  given_up :
      (conn : ℕ) (registered m : Str) (h : ClientHub)
      → P h
      → let dropped =
          if gives_up time h conn registered m then drop_client time registered h else (h, []) in
        P (fail_pending_waiters dropped.1 dropped.0)
  unfolding fail_pending_waiters
  given_up conn registered m h p = elim (Bool-cases (gives_up time h conn registered m)) [
    | inl e ↦ rw e (robust.lost registered h (ground arith) p)
    | inr e ↦ rw e p
  ]

  pub register_kept :
      (now : Str) (conn : ℕ) (registered m name timestamp : Str) (h : ClientHub)
      → P h
      → P (register_client time now conn registered m name timestamp h).0
  unfolding register_client
  register_kept now conn registered m name timestamp h p =
      if_both {A = ClientHub × Str} (λ x. P x.0) (is_empty m) p
        (machine_announced time P robust.stable.passive now _ timestamp _ (
          robust.stable.passive.registered (Registry.upsert (registered_machine time m name)) _
            (upsert-pending_approvals (registered_machine time m name))
            (gone_announced time P robust.stable.passive _ now registered timestamp _
              (entered _ _ _ (given_up conn registered m h p)))))
