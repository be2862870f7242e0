-- ===== src/Gateway/ClientHub/Events.antt =====
-- client_hub.go: handleEventEnvelope, with the normalisation of the approvals' ids, the turns, the
-- timeline and the commands that a client completed. `now` is the clock, formatted. An
-- event is handled to its end, although the code takes the hub's lock anew for the owner, for each
-- of its tables, and the registry's own lock for the approvals.
use agent_console.Prelude.{
  ℕ, Str, str, is_empty, Bool, true, false, Option, none, some, [], map, if◌then◌else◌,
}
use agent_console.Prelude.Dict
use agent_console.Prelude.Text.Trim.{trim_space}
use agent_console.Prelude.Time.{TimeText}
use agent_console.Domain.Thread.{Thread}
use agent_console.Domain.Environment.{EnvironmentResource, EnvironmentKind}
use agent_console.Domain.Timeline.{
  EventType, TimelineEvent, Approval, ApprovalQuestion, ApprovalQuestionPayload,
  ApprovalRequiredPayload,
}
use agent_console.Domain.Protocol.{
  Envelope, Payload, CompletedResult, SkillSetEnabledResult, ResourceChangedPayload,
}
use agent_console.Gateway.ApprovalId.{normalize_approval_request_id}
use agent_console.Gateway.Registry
use agent_console.Gateway.Routing
use agent_console.Gateway.ClientHub.{
  ClientHub, completed, rejected, on_some, upsert_thread_snapshot, remove_thread_snapshot,
  set_active_turn, clear_active_turn, upsert_environment_resource, remove_environment_resource,
}
use agent_console.Gateway.ClientHub.Resources.{or_str, environment_skill_status}
use agent_console.Gateway.ClientHub.Activity.{latest_activity_timestamp}
use agent_console.Gateway.ClientHub.Broadcast.{
  publish, broadcast_thread_updated, broadcast_resource_changed,
}
use agent_console.Gateway.ClientHub.Connections.{is_current_owner, resolve_pending_command}

-- The id of an approval: the payload's, or else the envelope's.
unfoldable pub approval_id : Envelope → Str → Str
approval_id e payload_id =
    if is_empty payload_id
    then normalize_approval_request_id e.machine_id e.request_id
    else normalize_approval_request_id e.machine_id payload_id

-- The envelope with the id in both places; without an id it is left alone.
unfoldable pub with_approval_id : Envelope → Str → (Str → Payload) → Envelope
with_approval_id e id payload =
    if is_empty id then e else record e { request_id = id; payload = payload id }

unfoldable pub normalize_approval_payload : Envelope → Payload → Envelope
unfolding approval_id with_approval_id
normalize_approval_payload e (Payload.approval_required (some p)) =
    with_approval_id e (approval_id e p.request_id)
      (λ id. Payload.approval_required (some (record p { request_id = id })))
normalize_approval_payload e (Payload.approval_resolved (some p)) =
    with_approval_id e (approval_id e p.request_id)
      (λ id. Payload.approval_resolved (some (record p { request_id = id })))
normalize_approval_payload e _ = e

unfoldable pub normalize_approval_envelope : Envelope → Envelope
unfolding normalize_approval_payload
normalize_approval_envelope e = normalize_approval_payload e e.payload

-- The event with its approval's id; and the envelope's id, which it gives where there is none.
unfoldable pub normalize_event_approval : Envelope → TimelineEvent → Option Approval → Envelope
normalize_event_approval e event none = record e { payload = Payload.timeline_event (some event) }
normalize_event_approval e event (some a) =
    let id = normalize_approval_request_id e.machine_id a.request_id in
    let public_event = record event { approval = some (record a { request_id = id }) } in
    if is_empty a.request_id
    then record e { payload = Payload.timeline_event (some event) }
    else record e {
      request_id = or_str e.request_id id;
      payload = Payload.timeline_event (some public_event);
    }

unfoldable pub normalize_timeline_payload : Envelope → Payload → Envelope
unfolding normalize_event_approval
normalize_timeline_payload e (Payload.timeline_event (some event)) =
    normalize_event_approval e (record event { machine_id = or_str event.machine_id e.machine_id })
      event.approval
normalize_timeline_payload e _ = e

unfoldable pub normalize_timeline_envelope : Envelope → Envelope
unfolding normalize_timeline_payload
normalize_timeline_envelope e = normalize_timeline_payload e e.payload

-- The loop over the questions.
protocol_question : ApprovalQuestion → ApprovalQuestionPayload
protocol_question q = record { id = q.id; header = []; text = q.label; options = q.options }

unfoldable pub with_approval : ApprovalRequiredPayload → Option Approval → ApprovalRequiredPayload
unfolding protocol_question
with_approval p none = p
with_approval p (some a) = record p {
  request_id = a.request_id;
  kind = a.kind;
  reason = a.reason;
  command = a.title;
  questions = map protocol_question a.questions;
}

abbrev pub approval_ids : TimelineEvent → ApprovalRequiredPayload
approval_ids event = record {
  request_id = [];
  thread_id = event.thread_id;
  turn_id = event.turn_id;
  item_id = event.item_id;
  kind = [];
  reason = [];
  command = [];
  questions = [];
}

unfoldable pub timeline_approval_to_protocol : TimelineEvent → ApprovalRequiredPayload
unfolding with_approval
timeline_approval_to_protocol event = with_approval (approval_ids event) event.approval

-- h.approvalRequests[requestID] = machineID, and the registry's entry
unfoldable pub add_approval : Str → Str → ApprovalRequiredPayload → ClientHub → ClientHub
add_approval machine_id request_id payload h = record h {
  approval_requests = Dict.put h.approval_requests request_id machine_id;
  registry = on_some (Registry.upsert_pending_approval machine_id payload) h.registry;
}

unfoldable pub remove_approval : Str → ClientHub → ClientHub
remove_approval request_id h = record h {
  approval_requests = Dict.remove h.approval_requests request_id;
  registry = on_some (Registry.remove_pending_approval request_id) h.registry;
}

-- The switch at the end of applyTimelineEvent, for an approval that has an id.
unfoldable pub apply_event_approval :
    Str → TimelineEvent → Option Approval → EventType → ClientHub → ClientHub
unfolding add_approval remove_approval
apply_event_approval machine_id event none event_type h = h
apply_event_approval machine_id event (some a) EventType.approval_requested h =
    if is_empty a.request_id
    then h
    else add_approval machine_id a.request_id (timeline_approval_to_protocol event) h
apply_event_approval machine_id event (some a) EventType.approval_resolved h =
    if is_empty a.request_id then h else remove_approval a.request_id h
apply_event_approval machine_id event (some a) _ h = h

unfoldable pub apply_timeline_payload : Str → Payload → ClientHub → ClientHub
unfolding apply_event_approval
apply_timeline_payload machine_id (Payload.timeline_event (some event)) h =
    apply_event_approval machine_id event event.approval event.event_type
      (record h { registry = on_some (Registry.append_timeline_event event) h.registry })
apply_timeline_payload machine_id _ h = h

unfoldable pub apply_timeline_event : Envelope → ClientHub → ClientHub
unfolding apply_timeline_payload
apply_timeline_event e h = apply_timeline_payload e.machine_id e.payload h

module _ (time : TimeText) where
  -- The inner switch of applyTurnLifecycleEvent.
  unfoldable pub apply_turn_event : Str → Envelope → EventType → Str → Str → ClientHub → ClientHub
  apply_turn_event now e EventType.turn_started thread_id turn_id h =
      set_active_turn time now e.machine_id thread_id turn_id e.timestamp h
  apply_turn_event now e EventType.turn_completed thread_id turn_id h =
      clear_active_turn time now e.machine_id thread_id turn_id e.timestamp h
  apply_turn_event now e EventType.turn_failed thread_id turn_id h =
      clear_active_turn time now e.machine_id thread_id turn_id e.timestamp h
  apply_turn_event now e _ thread_id turn_id h = h

  unfoldable pub apply_turn_payload : Str → Envelope → Payload → ClientHub → ClientHub
  unfolding apply_turn_event
  apply_turn_payload now e (Payload.turn_started (some p)) h =
      apply_turn_event now e EventType.turn_started p.thread_id p.turn_id h
  apply_turn_payload now e (Payload.turn_completed (some p)) h =
      apply_turn_event now e EventType.turn_completed p.thread_id p.turn_id h
  apply_turn_payload now e (Payload.turn_failed (some p)) h =
      apply_turn_event now e EventType.turn_failed p.thread_id p.turn_id h
  apply_turn_payload now e (Payload.timeline_event (some event)) h =
      apply_turn_event now e event.event_type event.thread_id event.turn_id h
  apply_turn_payload now e _ h = h

  unfoldable pub apply_turn_lifecycle_event : Str → Envelope → ClientHub → ClientHub
  unfolding apply_turn_payload
  apply_turn_lifecycle_event now e h = apply_turn_payload now e e.payload h

  -- What thread.create and thread.resume do with the thread of their result.
  unfoldable pub track_thread : Str → Str → Str → Thread → ClientHub → ClientHub
  track_thread now machine_id timestamp thread h =
      let h' = upsert_thread_snapshot time machine_id thread h in
      broadcast_thread_updated now
        (record {
          machine_id = thread.machine_id;
          agent_id = thread.agent_id;
          thread_id = thread.thread_id;
          thread = some thread;
        })
        timestamp
        (record h' {
          router =
              on_some (Routing.track_thread thread.thread_id thread.machine_id thread.agent_id)
                h'.router;
        })

  abbrev pub owned_by : Str → Thread → Thread
  owned_by machine_id t = record t { machine_id = or_str t.machine_id machine_id }

  abbrev skill_update : Str → Str → SkillSetEnabledResult → EnvironmentResource
  skill_update machine_id timestamp result = record {
    resource_id = result.skill_id;
    machine_id = machine_id;
    agent_id = [];
    kind = EnvironmentKind.skill;
    display_name = [];
    status = environment_skill_status result.enabled;
    restart_required = false;
    last_observed_at = timestamp;
    details = none;
  }

  -- What is broadcast of a skill: the resource itself where it was there before.
  abbrev skill_changed : Str → Str → Option (EnvironmentResource × Bool) → ResourceChangedPayload
  skill_changed machine_id skill_id none = record {
    machine_id = machine_id;
    agent_id = [];
    kind = EnvironmentKind.skill;
    resource_id = skill_id;
    resource = none;
    action = str "updated";
  }
  skill_changed machine_id skill_id (some (resource, false)) = record {
    machine_id = machine_id;
    agent_id = resource.agent_id;
    kind = EnvironmentKind.skill;
    resource_id = skill_id;
    resource = none;
    action = str "updated";
  }
  skill_changed machine_id skill_id (some (resource, true)) = record {
    machine_id = machine_id;
    agent_id = resource.agent_id;
    kind = resource.kind;
    resource_id = resource.resource_id;
    resource = some resource;
    action = str "updated";
  }

  unfoldable pub apply_completed_command : Str → Str → Str → CompletedResult → ClientHub → ClientHub
  unfolding track_thread
  apply_completed_command now machine_id timestamp (CompletedResult.thread_created (some t)) h =
      let owned = owned_by machine_id t in
      let touched = record owned {
        last_activity_at = latest_activity_timestamp time owned.last_activity_at timestamp;
      } in
      if is_empty t.thread_id then h else track_thread now machine_id timestamp touched h
  apply_completed_command now machine_id timestamp (CompletedResult.thread_resumed (some t)) h =
      if is_empty t.thread_id
      then h
      else track_thread now machine_id timestamp (owned_by machine_id t) h
  apply_completed_command now machine_id timestamp (CompletedResult.thread_archived (some id)) h =
      if is_empty id
      then h
      else broadcast_thread_updated now
          (record { machine_id = machine_id; agent_id = []; thread_id = id; thread = none })
          timestamp (remove_thread_snapshot time machine_id id h)
  apply_completed_command now machine_id timestamp (CompletedResult.skill_set_enabled (some r)) h =
      let (h', stored) =
        upsert_environment_resource time machine_id (skill_update machine_id timestamp r) h in
      if is_empty r.skill_id
      then h
      else broadcast_resource_changed now (skill_changed machine_id r.skill_id stored) timestamp h'
  apply_completed_command now machine_id timestamp (CompletedResult.plugin_uninstalled (some id))
        h =
      if is_empty id
      then h
      else broadcast_resource_changed now
          (record {
            machine_id = machine_id;
            agent_id = [];
            kind = EnvironmentKind.plugin;
            resource_id = id;
            resource = none;
            action = str "removed";
          })
          timestamp (remove_environment_resource time machine_id EnvironmentKind.plugin id h)
  apply_completed_command now machine_id timestamp _ h = h

  -- The switch at the end of handleEventEnvelope.
  unfoldable pub answer_event : Str → Envelope → Payload → ClientHub → ClientHub
  unfolding apply_completed_command add_approval remove_approval
  answer_event now e (Payload.command_completed (some p)) h =
      resolve_pending_command e.request_id (completed p.command_name p.result)
        (apply_completed_command now e.machine_id e.timestamp p.decoded h)
  answer_event now e (Payload.command_rejected (some p)) h =
      resolve_pending_command e.request_id (rejected p.command_name p.reason) h
  answer_event now e (Payload.approval_required (some p)) h =
      if is_empty p.request_id
      then h
      else if is_empty e.machine_id
      then h
      else add_approval e.machine_id p.request_id p h
  answer_event now e (Payload.approval_resolved (some p)) h =
      if is_empty p.request_id then h else remove_approval p.request_id h
  answer_event now e _ h = h

  -- What follows the check of the owner and the normalisation.
  unfoldable pub apply_event : Str → Envelope → ClientHub → ClientHub
  unfolding answer_event apply_turn_lifecycle_event apply_timeline_event
  apply_event now e h =
      let h' = publish e (apply_timeline_event e (apply_turn_lifecycle_event now e h)) in
      if is_empty e.request_id then h' else answer_event now e e.payload h'

  unfoldable pub handle_event_envelope : Str → ℕ → Envelope → ClientHub → ClientHub
  unfolding apply_event normalize_approval_envelope normalize_timeline_envelope
  handle_event_envelope now conn e h =
      if is_current_owner h conn e.machine_id
      then apply_event now (normalize_timeline_envelope (normalize_approval_envelope e)) h
      else h

-- ResolveApprovalMachine
unfoldable pub resolve_approval_machine : ClientHub → Str → Option Str
resolve_approval_machine h request_id = Dict.get h.approval_requests request_id

-- ClearApprovalRequest
unfoldable pub clear_approval_request : Str → ClientHub → ClientHub
clear_approval_request request_id h =
    if is_empty (trim_space request_id)
    then h
    else record h { approval_requests = Dict.remove h.approval_requests request_id }

-- ActiveTurnID
pub active_turn_id : ClientHub → Str → Option Str
active_turn_id h thread_id =
    if is_empty (trim_space thread_id) then none else Dict.get h.active_turns thread_id

-- What the gateway's API does once an approval is answered: the request leaves the registry, and the hub.
-- It refuses a blank id at once.
unfoldable pub finish_approval : Str → ClientHub → ClientHub
unfolding clear_approval_request
finish_approval request_id h =
    if is_empty (trim_space request_id)
    then h
    else clear_approval_request request_id
        (record h { registry = on_some (Registry.remove_pending_approval request_id) h.registry })
