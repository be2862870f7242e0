-- ===== src/Client/Supervisor/Operations.antt =====
-- Every operation of the supervisor keeps its tables in step.
use agent_console.Prelude.{
  Str, eq_iff, true, false, Option, none, some, List, [], ◌∷◌, ◌≡◌, sym, arith, All,
}
use agent_console.Prelude.Dict
use agent_console.Prelude.Dict.{Dict, IsKeyed}
use agent_console.Client.AgentId.{AgentIdError}
use agent_console.Client.Supervisor.{
  World, ManagedAgentRecord, SupervisorError, Supervisor, start_agent, stop_agent, stop_started,
  start_each, start_all, stop_each, stop_all, save_record, remove_directory, forget, add_record,
  after_start, after_stop, when_valid, sorted_records, record_key, validate,
}
use agent_console.Prelude.Sort.{All-sort_by}
use agent_console.Client.Supervisor.Running.{
  IsConsistent, start_agent-IsConsistent, stop_agent-IsConsistent, records-start_agent,
}

module _ {world : World} where
  abbrev IsKnown : Supervisor world → ManagedAgentRecord → Type 0
  IsKnown s r = Dict.has s.records r.agent_id ≡ true

  All-IsKnown_same :
      (s t : Supervisor world) (rs : List ManagedAgentRecord)
      → s.records ≡ t.records
      → All (IsKnown s) rs
      → All (IsKnown t) rs
  All-IsKnown_same s t [] e h = tt
  All-IsKnown_same s t (r ∷ rs) e h = (let p = h.0 in rw e at p, All-IsKnown_same s t rs e h.1)

  stop_started-IsConsistent :
      (ids : List Str) (s : Supervisor world)
      → IsConsistent s
      → IsConsistent (stop_started world ids s)
  unfolding stop_started
  stop_started-IsConsistent [] s c = c
  stop_started-IsConsistent (id ∷ ids) s c =
      stop_started-IsConsistent ids (stop_agent world id s).0 (stop_agent-IsConsistent id s c)

  after_start-IsConsistent :
      (begun : List Str) (a rest : Supervisor world × Option SupervisorError)
      → IsConsistent a.0
      → IsConsistent rest.0
      → IsConsistent (after_start world begun a rest).0
  unfolding after_start
  after_start-IsConsistent begun (s, none) rest c d = d
  after_start-IsConsistent begun (s, some e) rest c d = stop_started-IsConsistent begun s c

  after_stop-IsConsistent :
      (a rest : Supervisor world × Option SupervisorError)
      → IsConsistent a.0
      → IsConsistent rest.0
      → IsConsistent (after_stop world a rest).0
  unfolding after_stop
  after_stop-IsConsistent (s, none) rest c d = d
  after_stop-IsConsistent (s, some e) rest c d = c

  pub when_valid-IsConsistent :
      (o : Option AgentIdError) (s : Supervisor world)
      (rest : Supervisor world × Option SupervisorError)
      → IsConsistent s
      → IsConsistent rest.0
      → IsConsistent (when_valid world o s rest).0
  unfolding when_valid
  when_valid-IsConsistent none s rest c d = d
  when_valid-IsConsistent (some e) s rest c d = c

  at_state-IsConsistent :
      (s : Supervisor world) (w : world.State)
      → IsConsistent s
      → IsConsistent (record s { state = w })
  at_state-IsConsistent s w c = record {
    registered = c.registered;
    status_running = c.status_running;
    recorded = c.recorded;
    own_id = c.own_id;
    keyed = c.keyed;
  }

  start_each-IsConsistent :
      (rs : List ManagedAgentRecord) (begun : List Str) (s : Supervisor world)
      → All (IsKnown s) rs
      → IsConsistent s
      → IsConsistent (start_each world rs begun s).0
  unfolding start_each
  start_each-IsConsistent [] begun s k c = c
  start_each-IsConsistent (r ∷ rs) begun s k c =
      let s' = (start_agent world r s).0 in
      let c' = start_agent-IsConsistent r s k.0 c in
      let k' = All-IsKnown_same s s' rs (sym (records-start_agent r s)) k.1 in
      after_start-IsConsistent begun (start_agent world r s) _ c'
        (start_each-IsConsistent rs (r.agent_id ∷ begun) s' k' c')

  sorted_records-IsKnown :
      (s : Supervisor world) → IsConsistent s → All (IsKnown s) (sorted_records s.records)
  unfolding sorted_records
  sorted_records-IsKnown s c =
      All-sort_by record_key (IsKnown s) (Dict.values s.records)
        (Dict.values-All (IsKnown s) s.records c.keyed (λ id r e. ground (arith, c.own_id id r e)))

  pub start_all-IsConsistent :
      (s : Supervisor world) → IsConsistent s → IsConsistent (start_all world s).0
  unfolding start_all
  start_all-IsConsistent s c =
      start_each-IsConsistent (sorted_records s.records) [] s (sorted_records-IsKnown s c) c

  stop_each-IsConsistent :
      (ids : List Str) (s : Supervisor world)
      → IsConsistent s
      → IsConsistent (stop_each world ids s).0
  unfolding stop_each
  stop_each-IsConsistent [] s c = c
  stop_each-IsConsistent (id ∷ ids) s c =
      let s' = (stop_agent world id s).0 in
      let c' = stop_agent-IsConsistent id s c in
      after_stop-IsConsistent (stop_agent world id s) _ c' (stop_each-IsConsistent ids s' c')

  pub stop_all-IsConsistent :
      (s : Supervisor world) → IsConsistent s → IsConsistent (stop_all world s).0
  unfolding stop_all
  stop_all-IsConsistent s c = stop_each-IsConsistent _ s c

  pub save_record-IsConsistent :
      (r : ManagedAgentRecord) (s : Supervisor world)
      → IsConsistent s
      → IsConsistent (save_record world r s).0
  unfolding save_record
  save_record-IsConsistent r s c =
      when_valid-IsConsistent (validate world r.agent_id) s _ c
        (at_state-IsConsistent s (world.write_record s.state r).0 c)

  pub remove_directory-IsConsistent :
      (id : Str) (s : Supervisor world)
      → IsConsistent s
      → IsConsistent (remove_directory world id s).0
  unfolding remove_directory
  remove_directory-IsConsistent id s c =
      when_valid-IsConsistent (validate world id) s _ c
        (at_state-IsConsistent s (world.remove_all s.state id).0 c)

  -- Forgetting an agent that does not run.
  pub forget-IsConsistent :
      (id : Str) (s : Supervisor world)
      → Dict.has s.cleanups id ≡ false
      → IsConsistent s
      → IsConsistent (forget world id s)
  forget-IsConsistent id s free c = record {
    registered = c.registered;
    status_running =
        λ j. ground (arith, Dict.get-remove s.status id j, c.status_running j, eq_iff id j);
    recorded = λ j h. ground (arith, Dict.get-remove s.records id j, c.recorded j, eq_iff id j);
    own_id = λ j r e. ground (arith, Dict.get-remove s.records id j, c.own_id j r);
    keyed = Dict.remove-IsKeyed s.records id c.keyed;
  }

  pub add_record-IsConsistent :
      (r : ManagedAgentRecord) (s : Supervisor world)
      → IsConsistent s
      → IsConsistent (add_record world r s)
  add_record-IsConsistent r s c = record {
    registered = c.registered;
    status_running = c.status_running;
    recorded = λ j h. ground (arith, Dict.get-put s.records r.agent_id r j, c.recorded j);
    own_id = λ j q e.
        ground (arith, Dict.get-put s.records r.agent_id r j, c.own_id j q, eq_iff r.agent_id j);
    keyed = Dict.put-IsKeyed s.records r.agent_id r c.keyed;
  }
