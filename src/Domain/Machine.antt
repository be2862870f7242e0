-- ===== src/Domain/Machine.antt =====
-- common/domain/machine.go and agent_instance.go.
use mathlib.Core.List.{List}
use agent_console.Prelude.{Str}

pub data MachineStatus : Type 0 where
  unset online offline reconnecting : MachineStatus
  other : Str → MachineStatus

pub data MachineRuntimeStatus : Type 0 where
  unset unknown running stopped : MachineRuntimeStatus
  other : Str → MachineRuntimeStatus

pub data AgentInstanceStatus : Type 0 where
  unset running stopped error : AgentInstanceStatus
  other : Str → AgentInstanceStatus

pub record AgentInstance : Type 0 where
  pub agent_id : Str
  pub agent_type : Str
  pub display_name : Str
  pub status : AgentInstanceStatus

pub record Machine : Type 0 where
  pub id : Str
  pub name : Str
  pub status : MachineStatus
  pub runtime_status : MachineRuntimeStatus
  pub agents : List AgentInstance
