-- ===== src/Domain/Timeline.antt =====
-- common/domain/agent_timeline.go: the events, with the approval payloads of
-- common/protocol/messages.go that are made of them.
use agent_console.Prelude.{ℕ, Str, Option, List}

pub data EventType : Type 0 where
  unset turn_started turn_completed turn_failed item_started item_delta item_completed item_failed
        approval_requested approval_resolved system_event :
      EventType
  other : Str → EventType

pub record Content : Type 0 where
  pub content_type : Str
  pub delta : Str
  pub text : Str
  pub snapshot : Str
  pub append_mode : Str

pub record Tool : Type 0 where
  pub kind : Str
  pub name : Str
  pub input : Str
  pub output : Str

pub record ApprovalQuestion : Type 0 where
  pub id : Str
  pub label : Str
  pub options : List Str

pub record Approval : Type 0 where
  pub request_id : Str
  pub kind : Str
  pub title : Str
  pub reason : Str
  pub questions : List ApprovalQuestion
  pub decision : Str

pub record TimelineError : Type 0 where
  pub message : Str
  pub code : Str

pub record Raw : Type 0 where
  pub provider : Str
  pub method : Str
  pub payload : Str

-- `sequence` is an int, as its bit pattern below 2 ^ 64.
pub record TimelineEvent : Type 0 where
  pub schema_version : Str
  pub event_id : Str
  pub sequence : ℕ
  pub timestamp : Str
  pub machine_id : Str
  pub agent_id : Str
  pub thread_id : Str
  pub turn_id : Str
  pub item_id : Str
  pub event_type : EventType
  pub item_type : Str
  pub role : Str
  pub phase : Str
  pub status : Str
  pub content : Option Content
  pub tool : Option Tool
  pub approval : Option Approval
  pub error : Option TimelineError
  pub raw : Option Raw

-- protocol.ApprovalQuestionPayload, protocol.ApprovalRequiredPayload
pub record ApprovalQuestionPayload : Type 0 where
  pub id : Str
  pub header : Str
  pub text : Str
  pub options : List Str

pub record ApprovalRequiredPayload : Type 0 where
  pub request_id : Str
  pub thread_id : Str
  pub turn_id : Str
  pub item_id : Str
  pub kind : Str
  pub reason : Str
  pub command : Str
  pub questions : List ApprovalQuestionPayload
