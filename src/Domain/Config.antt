-- ===== src/Domain/Config.antt =====
-- common/domain/config.go and console_preferences.go.
use mathlib.Core.Option.{Option}
use agent_console.Prelude.{ℕ, Str}
use agent_console.Prelude.Dict.{Dict}

pub data AgentConfigFormat : Type 0 where
  unset toml : AgentConfigFormat
  other : Str → AgentConfigFormat

pub record AgentDescriptor : Type 0 where
  pub agent_type : Str
  pub display_name : Str

-- `version` is an int64, as its bit pattern below 2 ^ 64.
pub record AgentConfigDocument : Type 0 where
  pub agent_type : Str
  pub format : AgentConfigFormat
  pub content : Str
  pub updated_at : Str
  pub updated_by : Str
  pub version : ℕ

pub record ConsolePreferences : Type 0 where
  pub profile : Str
  pub safety_policy : Str
  pub last_thread_id : Str
  pub thread_titles : Option (Dict Str)
