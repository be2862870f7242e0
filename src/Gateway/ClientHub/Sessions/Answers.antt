-- ===== src/Gateway/ClientHub/Sessions/Answers.antt =====
-- The answers of the clients: to a command that waits, and the approvals that they ask for.
use agent_console.Prelude.{
  Option-cases, inl, inr, ℕ, Str, str, eq_iff, is_empty, true, false, Option, none, some, [], ◌∷◌,
  ◌≡◌, ◌≢◌, refl, arith,
}
use agent_console.Prelude.Dict
use agent_console.Prelude.Text.Trim.{trim_space}
use agent_console.Prelude.Time.{TimeText}
use agent_console.Domain.Timeline.{ApprovalRequiredPayload}
use agent_console.Domain.Protocol.{Envelope, Category, Payload, CommandCompletedPayload}
use agent_console.Gateway.Registry
use agent_console.Gateway.Registry.Approvals.{pending_approval_updates}
use agent_console.Gateway.ClientHub.{ClientHub}
use agent_console.Gateway.ClientHub.Broadcast.{publish}
use agent_console.Gateway.ClientHub.Connections.{is_current_owner, request_id}
use agent_console.Gateway.ClientHub.Events.{
  answer_event, apply_event, apply_turn_lifecycle_event, apply_turn_payload, apply_timeline_event,
  apply_timeline_payload, handle_event_envelope, normalize_approval_envelope,
  normalize_approval_payload, normalize_timeline_envelope, normalize_timeline_payload, approval_id,
  with_approval_id, add_approval, resolve_approval_machine, finish_approval, clear_approval_request,
}
use agent_console.Gateway.ClientHub.Sessions.Soundness.{given_id}

-- Neither the commands that wait nor what was sent to them has changed.
record HasCommands (h g : ClientHub) : Type 0 where
  pending : g.pending_commands ≡ h.pending_commands
  delivered : g.delivered ≡ h.delivered

abbrev pub completed_event : Str → Str → Str → CommandCompletedPayload → Envelope
completed_event machine_id id timestamp payload = record {
  version = str "v1";
  category = Category.event;
  request_id = id;
  machine_id = machine_id;
  timestamp = timestamp;
  payload = Payload.command_completed (some payload);
}

abbrev pub approval_event : Str → Str → Str → ApprovalRequiredPayload → Envelope
approval_event machine_id id timestamp payload = record {
  version = str "v1";
  category = Category.event;
  request_id = id;
  machine_id = machine_id;
  timestamp = timestamp;
  payload = Payload.approval_required (some payload);
}

-- The registry's entry of the approval, if there is a registry.
unfoldable pub stored_approval : Option Registry.Store → Str → Option ApprovalRequiredPayload
stored_approval none id = none
stored_approval (some r) id = Registry.pending_approval r id

owner_given :
    (h : ClientHub) (conn : ℕ) (m : Str) → is_current_owner h conn m ≡ true → is_empty m ≡ false
unfolding is_current_owner
owner_given h conn [] e = ground arith
owner_given h conn (c ∷ m) e = refl

handle-approval_event :
    (time : TimeText) (now : Str) (conn : ℕ) (m given timestamp : Str) (p : ApprovalRequiredPayload)
    (h : ClientHub)
    → let e = approval_event m given timestamp p in
      let id = approval_id e p.request_id in
      let public_payload = record p { request_id = id } in
      is_current_owner h conn m ≡ true
      → is_empty id ≡ false
      → handle_event_envelope time now conn e h
        ≡ add_approval m id public_payload
            (publish (approval_event m id timestamp public_payload) h)
unfolding handle_event_envelope apply_event answer_event apply_turn_lifecycle_event
    apply_turn_payload apply_timeline_event apply_timeline_payload normalize_approval_envelope
    normalize_approval_payload normalize_timeline_envelope normalize_timeline_payload
    with_approval_id
handle-approval_event time now conn m given timestamp p h ho hid =
    rw (ho, hid, hid, owner_given h conn m ho) refl

-- What the registry holds of a question that was put to it: nothing where there is no registry.
abbrev pub where_registry :
    Option Registry.Store → ApprovalRequiredPayload → Option ApprovalRequiredPayload
where_registry none p = none
where_registry (some r) p = some p

pub handle_event-approval :
    (time : TimeText) (now : Str) (conn : ℕ) (m given timestamp : Str) (p : ApprovalRequiredPayload)
    (h : ClientHub)
    → let e = approval_event m given timestamp p in
      let id = approval_id e p.request_id in
      is_current_owner h conn m ≡ true
      → is_empty (trim_space id) ≡ false
      → let asked = handle_event_envelope time now conn e h in
        let finished = finish_approval id asked in
        (resolve_approval_machine asked id ≡ some m)
        × (stored_approval asked.registry id
            ≡ where_registry h.registry (record p { request_id = id }))
        × (resolve_approval_machine finished id ≡ none)
        × (stored_approval finished.registry id ≡ none)
unfolding resolve_approval_machine add_approval publish finish_approval clear_approval_request
    stored_approval
handle_event-approval time now conn m given timestamp p h ho hid =
    let id = approval_id (approval_event m given timestamp p) p.request_id in
    let public_payload = record p { request_id = id } in
    let ne : id ≢ [] = ground (arith, given_id id hid) in
    elim (Option-cases h.registry) [
      | inl hr ↦
          rw
            (
              handle-approval_event time now conn m given timestamp p h ho (given_id id hid),
              hid,
              hr,
            )
            (
              ground (arith, Dict.get-put h.approval_requests id m id, eq_iff id id),
              refl,
              ground
                  (arith, Dict.get-remove (Dict.put h.approval_requests id m) id id, eq_iff id id),
              refl,
            )
      | inr (r, hr) ↦
          let asked = Registry.upsert_pending_approval m public_payload r in
          rw
            (
              handle-approval_event time now conn m given timestamp p h ho (given_id id hid),
              hid,
              hr,
            )
            (
              ground (arith, Dict.get-put h.approval_requests id m id, eq_iff id id),
              ground (
                arith,
                (pending_approval_updates m public_payload r id id ne ne).0,
                eq_iff id id,
              ),
              ground
                  (arith, Dict.get-remove (Dict.put h.approval_requests id m) id id, eq_iff id id),
              ground (
                arith,
                (pending_approval_updates m public_payload asked id id ne ne).1,
                eq_iff id id,
              ),
            )
    ]
