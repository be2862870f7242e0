-- ===== src/Domain/Turn.antt =====
-- common/domain/thread.go (the turns) and common/domain/thread_runtime.go.
use agent_console.Prelude.{Str, Bool, Option, List}

pub data TurnStatus : Type 0 where
  unset completed interrupted failed : TurnStatus
  other : Str → TurnStatus

pub record Turn : Type 0 where
  pub turn_id : Str
  pub thread_id : Str
  pub status : TurnStatus

pub record ThreadRuntimePreferences : Type 0 where
  pub model : Str
  pub approval_policy : Str
  pub sandbox_mode : Str

-- A nil pointer is none.
pub record ThreadRuntimePreferencePatch : Type 0 where
  pub model : Option Str
  pub approval_policy : Option Str
  pub sandbox_mode : Option Str

pub record ThreadRuntimeModelOption : Type 0 where
  pub id : Str
  pub display_name : Str
  pub is_default : Bool

pub record ThreadRuntimeOptions : Type 0 where
  pub models : List ThreadRuntimeModelOption
  pub approval_policies : List Str
  pub sandbox_modes : List Str

pub record ThreadRuntimeSettings : Type 0 where
  pub thread_id : Str
  pub preferences : ThreadRuntimePreferences
  pub options : ThreadRuntimeOptions
