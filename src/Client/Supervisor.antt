-- ===== src/Client/Supervisor.antt =====
-- client/internal/agent/manager/supervisor.go and client/internal/agent/registry/registry.go: the
-- agents that are installed on a machine, and those that run. Each method runs whole under opMu, so
-- it is one step on the state. What it does to processes and files is done by a `World`.
pub mod FreshId
pub mod Running
pub mod Operations
pub mod Lifecycle
pub mod Rollback
mod Tests
use agent_console.Prelude.{
  ℕ, zero, suc, ◌+◌, Str, str, ◌==◌, is_empty, Bool, true, false, Option, none, some, List, [], ◌∷◌,
  ◌++◌, map, length, if◌then◌else◌,
}
use agent_console.Prelude.Result.{Result, ok, err}
use agent_console.Prelude.Text.Trim.{trim_space}
use agent_console.Prelude.Text.Decimal.{decimal2}
use agent_console.Prelude.Sort.{sort_by}
use agent_console.Prelude.Lists.{keep}
use agent_console.Prelude.Dict
use agent_console.Prelude.Dict.{Dict}
use agent_console.Domain.Machine.{AgentInstance, AgentInstanceStatus}
use agent_console.Client.AgentId.{AgentIdError, validate_agent_id}

pub record ManagedAgentRecord : Type 0 where
  pub agent_id : Str
  pub agent_type : Str
  pub display_name : Str

-- What lies outside the supervisor: the factories' Start, which returns a runtime and its cleanup,
-- or an error; the cleanups, which may fail; the writing of a record's file and the removal of an
-- agent's directory, which may fail; and the Unicode tables. A runtime and a cleanup are numbers
-- that stand for the objects; a factory may return a nil cleanup.
pub record World : Type 1 where
  pub State : Type 0
  pub start : State → ℕ → ManagedAgentRecord → State × Option (ℕ × Option ℕ)
  pub cleanup : State → ℕ → State × Bool
  pub write_record : State → ManagedAgentRecord → State × Bool
  pub remove_all : State → Str → State × Bool
  pub unicode_letter_or_digit : ℕ → Bool

pub data SupervisorError : Type 0 where
  display_name_required agent_id_required not_installed type_not_supported start_failed
        cleanup_failed write_failed remove_failed no_agent_id :
      SupervisorError
  invalid_agent_id : AgentIdError → SupervisorError

-- fmt.Sprintf("agent-%02d", idx)
pub candidate : ℕ → Str
candidate idx = str "agent-" ++ decimal2 idx

-- The loop of nextAgentIDLocked, which has no bound: `none` is where `fuel` rounds are not enough.
search_id : ℕ → ℕ → Dict ManagedAgentRecord → Option Str
search_id zero idx records = none
search_id (suc fuel) idx records =
    let rest = search_id fuel (idx + 1) records in
    if Dict.has records (candidate idx) then rest else some (candidate idx)

pub next_agent_id : Dict ManagedAgentRecord → Option Str
unfolding search_id candidate
next_agent_id records = search_id (suc (length records)) 1 records

abbrev record_key : ManagedAgentRecord → Str
record_key r = r.agent_id

pub sorted_records : Dict ManagedAgentRecord → List ManagedAgentRecord
sorted_records records = sort_by record_key (Dict.values records)

module _ (world : World) where
  pub record Supervisor : Type 0 where
    pub runtimes : Dict ℕ
    pub factories : Dict ℕ
    pub records : Dict ManagedAgentRecord
    pub cleanups : Dict (Option ℕ)
    pub status : Dict AgentInstanceStatus
    pub state : world.State

  -- startAgent: an agent that runs is left alone; what Start returns decides the rest.
  started :
      ManagedAgentRecord
      → Supervisor
      → world.State × Option (ℕ × Option ℕ)
      → Supervisor × Option SupervisorError
  started r s (w, none) = (
    record s { status = Dict.put s.status r.agent_id AgentInstanceStatus.error; state = w },
    some start_failed,
  )
  started r s (w, some (runtime, cleanup)) = (
    record s {
      runtimes = Dict.put s.runtimes r.agent_id runtime;
      cleanups = Dict.put s.cleanups r.agent_id cleanup;
      status = Dict.put s.status r.agent_id AgentInstanceStatus.running;
      state = w;
    },
    none,
  )

  start_by : Option ℕ → ManagedAgentRecord → Supervisor → Supervisor × Option SupervisorError
  unfolding started
  start_by none r s = (s, some type_not_supported)
  start_by (some factory) r s = started r s (world.start s.state factory r)

  pub start_agent : ManagedAgentRecord → Supervisor → Supervisor × Option SupervisorError
  unfolding start_by
  start_agent r s =
      if Dict.has s.cleanups r.agent_id
      then (s, none)
      else start_by (Dict.get s.factories r.agent_type) r s

  abbrev cleanup_error : Bool → Option SupervisorError
  cleanup_error true = none
  cleanup_error false = some cleanup_failed

  -- The call of the cleanup at the end of stopAgent, if there is one.
  call_cleanup : Option (Option ℕ) → Supervisor → Supervisor × Option SupervisorError
  call_cleanup none s = (s, none)
  call_cleanup (some none) s = (s, none)
  call_cleanup (some (some c)) s =
      let (w, done) = world.cleanup s.state c in (record s { state = w }, cleanup_error done)

  pub stop_agent : Str → Supervisor → Supervisor × Option SupervisorError
  unfolding call_cleanup
  stop_agent id s = call_cleanup (Dict.get s.cleanups id) (record s {
    cleanups = Dict.remove s.cleanups id;
    runtimes = Dict.remove s.runtimes id;
    status = Dict.put s.status id AgentInstanceStatus.stopped;
  })

  -- The rollback of StartAll: the last one started is stopped first, and errors are dropped.
  stop_started : List Str → Supervisor → Supervisor
  stop_started [] s = s
  stop_started (id ∷ ids) s = stop_started ids (stop_agent id s).0

  -- One round of the loop of StartAll: a start that fails ends it by the rollback.
  after_start :
      List Str
      → Supervisor × Option SupervisorError
      → Supervisor × Option SupervisorError
      → Supervisor × Option SupervisorError
  after_start begun (s, none) rest = rest
  after_start begun (s, some e) rest = (stop_started begun s, some e)

  start_each : List ManagedAgentRecord → List Str → Supervisor → Supervisor × Option SupervisorError
  start_each [] begun s = (s, none)
  start_each (r ∷ rs) begun s =
      after_start begun (start_agent r s) (start_each rs (r.agent_id ∷ begun) (start_agent r s).0)

  pub start_all : Supervisor → Supervisor × Option SupervisorError
  unfolding start_each after_start stop_started
  start_all s = start_each (sorted_records s.records) [] s

  -- One round of the loop of StopAll: a stop that fails ends it.
  after_stop :
      Supervisor × Option SupervisorError
      → Supervisor × Option SupervisorError
      → Supervisor × Option SupervisorError
  after_stop (s, none) rest = rest
  after_stop (s, some e) rest = (s, some e)

  stop_each : List Str → Supervisor → Supervisor × Option SupervisorError
  stop_each [] s = (s, none)
  stop_each (id ∷ ids) s = after_stop (stop_agent id s) (stop_each ids (stop_agent id s).0)

  abbrev self_key : Str → Str
  self_key id = id

  pub stop_all : Supervisor → Supervisor × Option SupervisorError
  unfolding stop_each after_stop
  stop_all s = stop_each (sort_by self_key (Dict.keys s.cleanups)) s

  -- codex.ValidateAgentID
  abbrev validate : Str → Option AgentIdError
  validate id = validate_agent_id world.unicode_letter_or_digit id

  abbrev lookup_record : Supervisor → Str → Option ManagedAgentRecord
  lookup_record s id = Dict.get s.records (trim_space id)

  pub agent_instance : ManagedAgentRecord → Supervisor → AgentInstance
  agent_instance r s = record {
    agent_id = r.agent_id;
    agent_type = r.agent_type;
    display_name = r.display_name;
    status = elim (Dict.get s.status r.agent_id) [
      | none ↦ AgentInstanceStatus.stopped
      | some x ↦ elim x [ AgentInstanceStatus.unset ↦ AgentInstanceStatus.stopped | y ↦ y ]
    ];
  }

  -- What follows a test of an id, unless the id is refused.
  pub when_valid :
      Option AgentIdError
      → Supervisor
      → Supervisor × Option SupervisorError
      → Supervisor × Option SupervisorError
  when_valid (some e) s rest = (s, some (invalid_agent_id e))
  when_valid none s rest = rest

  -- saveRecord: the id is checked before anything is written.
  pub save_record : ManagedAgentRecord → Supervisor → Supervisor × Option SupervisorError
  save_record r s =
      let (w, done) = world.write_record s.state r in
      when_valid (validate r.agent_id) s
        (record s { state = w }, if done then none else some write_failed)

  -- The removal of an agent's directory, whose layout wants a valid id.
  pub remove_directory : Str → Supervisor → Supervisor × Option SupervisorError
  remove_directory id s =
      let (w, done) = world.remove_all s.state id in
      when_valid (validate id) s (record s { state = w }, if done then none else some remove_failed)

  abbrev forget : Str → Supervisor → Supervisor
  forget id s = record s { records = Dict.remove s.records id; status = Dict.remove s.status id }

  abbrev add_record : ManagedAgentRecord → Supervisor → Supervisor
  add_record r s = record s { records = Dict.put s.records r.agent_id r }

  -- InstallAgent after the record is stored: a start that fails takes the record away again.
  finish_install :
      ManagedAgentRecord
      → Supervisor × Option SupervisorError
      → Supervisor × Result SupervisorError AgentInstance
  finish_install r (s, none) = (s, ok (agent_instance r s))
  finish_install r (s, some e) = ((remove_directory r.agent_id (forget r.agent_id s)).0, err e)

  install_record :
      ManagedAgentRecord
      → Supervisor × Option SupervisorError
      → Supervisor × Result SupervisorError AgentInstance
  install_record r (s, some e) = (s, err e)
  install_record r (s, none) = finish_install r (start_agent r (add_record r s))

  install_as :
      Option Str → Str → Str → Supervisor → Supervisor × Result SupervisorError AgentInstance
  install_as none agent_type display_name s = (s, err no_agent_id)
  install_as (some id) agent_type display_name s =
      let r : ManagedAgentRecord = record {
        agent_id = id;
        agent_type = agent_type;
        display_name = display_name;
      } in
      install_record r (save_record r s)

  pub install_agent : Str → Str → Supervisor → Supervisor × Result SupervisorError AgentInstance
  unfolding install_as install_record finish_install save_record remove_directory when_valid
  install_agent agent_type display_name s =
      if is_empty (trim_space display_name)
      then (s, err display_name_required)
      else install_as (next_agent_id s.records) agent_type display_name s

  delete_stopped : Str → Supervisor × Option SupervisorError → Supervisor × Option SupervisorError
  delete_stopped id (s, some e) = (s, some e)
  delete_stopped id (s, none) = remove_directory id (forget id s)

  pub delete_agent : Str → Supervisor → Supervisor × Option SupervisorError
  unfolding delete_stopped remove_directory when_valid
  delete_agent agent_id s =
      let id = trim_space agent_id in
      when_valid (validate id) s (delete_stopped id (stop_agent id s))

  restart_stopped :
      ManagedAgentRecord → Supervisor × Option SupervisorError → Supervisor × Option SupervisorError
  restart_stopped r (s, some e) = (s, some e)
  restart_stopped r (s, none) = start_agent r s

  restart_record :
      Str → Option ManagedAgentRecord → Supervisor → Supervisor × Option SupervisorError
  restart_record id none s = (s, some not_installed)
  restart_record id (some r) s =
      if Dict.has s.cleanups id then restart_stopped r (stop_agent id s) else start_agent r s

  pub restart_agent : Str → Supervisor → Supervisor × Option SupervisorError
  unfolding restart_record restart_stopped when_valid
  restart_agent agent_id s =
      let id = trim_space agent_id in
      when_valid (validate id) s (restart_record id (lookup_record s id) s)

  pub agent_instances : Supervisor → List AgentInstance
  agent_instances s = map (λ r. agent_instance r s) (sorted_records s.records)

  -- The one id, if there is one record.
  only_key : Dict ManagedAgentRecord → Result SupervisorError Str
  only_key ((id, r) ∷ []) = ok id
  only_key _ = err agent_id_required

  pub resolve_agent_id : Str → Supervisor → Result SupervisorError Str
  unfolding only_key
  resolve_agent_id agent_id s =
      let trimmed = trim_space agent_id in
      if is_empty trimmed then only_key s.records else elim (validate trimmed) [
        | some e ↦ err (invalid_agent_id e)
        | none ↦ elim (lookup_record s trimmed) [ none ↦ err not_installed | some r ↦ ok trimmed ]
      ]
