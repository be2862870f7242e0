-- ===== src/Domain/Protocol.antt =====
-- common/protocol/messages.go: the envelope and the payloads that the gateway reads or writes, with
-- Encode of common/transport/jsoncodec.go. An envelope's name is the constructor of its payload. A payload
-- is `none` where its JSON does not decode; JSON that a payload was encoded to decodes to the payload.
use agent_console.Prelude.{Str, is_empty, Bool, true, false, Option, ◌&&◌, if◌then◌else◌}
use agent_console.Prelude.Text.Trim.{trim_space}
use agent_console.Domain.Machine.{Machine}
use agent_console.Domain.Thread.{Thread}
use agent_console.Domain.Environment.{EnvironmentResource, EnvironmentKind}
use agent_console.Domain.Timeline.{TimelineEvent, ApprovalRequiredPayload}

pub data Category : Type 0 where
  system command event snapshot : Category
  other : Str → Category

pub record ThreadUpdatedPayload : Type 0 where
  pub machine_id : Str
  pub agent_id : Str
  pub thread_id : Str
  pub thread : Option Thread

pub record ResourceChangedPayload : Type 0 where
  pub machine_id : Str
  pub agent_id : Str
  pub kind : EnvironmentKind
  pub resource_id : Str
  pub resource : Option EnvironmentResource
  pub action : Str

pub record ApprovalResolvedPayload : Type 0 where
  pub request_id : Str
  pub thread_id : Str
  pub turn_id : Str
  pub decision : Str

-- ApprovalRespondCommandPayload; the answers are passed on as they are.
pub record ApprovalRespondPayload : Type 0 where
  pub request_id : Str
  pub thread_id : Str
  pub turn_id : Str
  pub decision : Str

-- The fields that the gateway reads of TurnStartedPayload, and of the turn of a TurnCompletedPayload.
pub record TurnIds : Type 0 where
  pub thread_id : Str
  pub turn_id : Str

pub record SkillSetEnabledResult : Type 0 where
  pub skill_id : Str
  pub enabled : Bool

-- The result of a command, by the name of the command. The first two hold the thread of a
-- ThreadCreateCommandResult or a ThreadResumeCommandResult.
pub data CompletedResult : Type 0 where
  thread_created thread_resumed : Option Thread → CompletedResult
  thread_archived : Option Str → CompletedResult
  skill_set_enabled : Option SkillSetEnabledResult → CompletedResult
  plugin_uninstalled : Option Str → CompletedResult
  turn_begun : Option Str → CompletedResult
  other_result : CompletedResult

-- `result` is the raw JSON, and `decoded` what it decodes to.
pub record CommandCompletedPayload : Type 0 where
  pub command_name : Str
  pub result : Str
  pub decoded : CompletedResult

pub record CommandRejectedPayload : Type 0 where
  pub command_name : Str
  pub reason : Str
  pub thread_id : Str

pub data Payload : Type 0 where
  approval_required : Option ApprovalRequiredPayload → Payload
  approval_resolved : Option ApprovalResolvedPayload → Payload
  turn_delta : Option Str → Payload
  turn_started turn_completed turn_failed : Option TurnIds → Payload
  timeline_event : Option TimelineEvent → Payload
  command_completed : Option CommandCompletedPayload → Payload
  command_rejected : Option CommandRejectedPayload → Payload
  machine_updated : Option Machine → Payload
  thread_updated : Option ThreadUpdatedPayload → Payload
  resource_changed : Option ResourceChangedPayload → Payload
  other_payload : Str → Str → Payload

pub record Envelope : Type 0 where
  pub version : Str
  pub category : Category
  pub request_id : Str
  pub machine_id : Str
  pub timestamp : Str
  pub payload : Payload

abbrev pub is_command : Category → Bool
is_command Category.command = true
is_command _ = false

-- Whether Validate lets the envelope pass, without which it cannot be encoded.
unfoldable pub is_valid : Envelope → Bool
is_valid e = if is_command e.category && is_empty (trim_space e.request_id) then false else true
