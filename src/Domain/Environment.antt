-- ===== src/Domain/Environment.antt =====
-- common/domain/environment.go.
use mathlib.Core.Bool.{Bool, true, false}
use mathlib.Core.Option.{Option}
use agent_console.Prelude.{Str, ◌==◌}
use agent_console.Domain.Json.{Fields}

pub data EnvironmentKind : Type 0 where
  unset skill mcp plugin : EnvironmentKind
  other : Str → EnvironmentKind

-- a == b, on kinds
abbrev pub kind_eq : EnvironmentKind → EnvironmentKind → Bool
kind_eq EnvironmentKind.unset EnvironmentKind.unset = true
kind_eq EnvironmentKind.skill EnvironmentKind.skill = true
kind_eq EnvironmentKind.mcp EnvironmentKind.mcp = true
kind_eq EnvironmentKind.plugin EnvironmentKind.plugin = true
kind_eq (EnvironmentKind.other a) (EnvironmentKind.other b) = a == b
kind_eq _ _ = false

pub data EnvironmentResourceStatus : Type 0 where
  unset unknown enabled disabled auth_required error : EnvironmentResourceStatus
  other : Str → EnvironmentResourceStatus

-- `details` is none for a nil map.
pub record EnvironmentResource : Type 0 where
  pub resource_id : Str
  pub machine_id : Str
  pub agent_id : Str
  pub kind : EnvironmentKind
  pub display_name : Str
  pub status : EnvironmentResourceStatus
  pub restart_required : Bool
  pub last_observed_at : Str
  pub details : Option Fields
