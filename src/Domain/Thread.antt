-- ===== src/Domain/Thread.antt =====
-- common/domain/thread.go (the records) and metrics.go.
use mathlib.Core.List.{List}
use agent_console.Prelude.{ℕ, Str, Bool, true, false}

pub data ThreadStatus : Type 0 where
  unset not_loaded idle active unknown system_error : ThreadStatus
  other : Str → ThreadStatus

-- status == ThreadStatusActive
abbrev pub is_active : ThreadStatus → Bool
is_active ThreadStatus.active = true
is_active _ = false

pub record ThreadMessage : Type 0 where
  pub id : Str
  pub turn_id : Str
  pub kind : Str
  pub text : Str
  pub phase : Str
  pub content_type : Str
  pub progress_text : Str

pub record Thread : Type 0 where
  pub thread_id : Str
  pub machine_id : Str
  pub agent_id : Str
  pub status : ThreadStatus
  pub title : Str
  pub last_activity_at : Str
  pub messages : List ThreadMessage

pub record ThreadRoute : Type 0 where
  pub machine_id : Str
  pub agent_id : Str

pub record OverviewMetrics : Type 0 where
  pub online_machines : ℕ
  pub active_threads : ℕ
  pub pending_approvals : ℕ
  pub running_agents : ℕ
  pub environment_items : ℕ
