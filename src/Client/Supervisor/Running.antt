-- ===== src/Client/Supervisor/Running.antt =====
-- What the supervisor, the registry and the status table say of an agent stays in step.
use agent_console.Prelude.{
  ℕ, Str, eq_iff, Bool, true, false, Option, none, some, ◌≡◌, refl, arith, Bool-cases, inl, inr,
}
use agent_console.Prelude.Dict
use agent_console.Prelude.Dict.{Dict, IsKeyed}
use agent_console.Domain.Machine.{AgentInstanceStatus}
use agent_console.Client.Supervisor.{
  World, ManagedAgentRecord, Supervisor, started, start_by, start_agent, call_cleanup, stop_agent,
}

abbrev pub is_running : Option AgentInstanceStatus → Bool
is_running (some AgentInstanceStatus.running) = true
is_running _ = false

module _ {world : World} where
  -- An agent has a cleanup exactly if a runtime is registered for it, and exactly if its status is
  -- `running`; then it also has a record. A record is stored under its own id, which no other
  -- record has.
  pub record IsConsistent (s : Supervisor world) : Type 0 where
    pub registered : (id : Str) → Dict.has s.cleanups id ≡ Dict.has s.runtimes id
    pub status_running : (id : Str) → Dict.has s.cleanups id ≡ is_running (Dict.get s.status id)
    pub recorded : (id : Str) → Dict.has s.cleanups id ≡ true → Dict.has s.records id ≡ true
    pub own_id :
        (id : Str) (r : ManagedAgentRecord) → Dict.get s.records id ≡ some r → r.agent_id ≡ id
    pub keyed : IsKeyed s.records

  started-IsConsistent :
      (r : ManagedAgentRecord) (s : Supervisor world) (o : world.State × Option (ℕ × Option ℕ))
      → Dict.has s.cleanups r.agent_id ≡ false
      → Dict.has s.records r.agent_id ≡ true
      → IsConsistent s
      → IsConsistent (started world r s o).0
  unfolding started
  started-IsConsistent r s (w, none) free known c = record {
    registered = c.registered;
    status_running = λ id. ground (
      arith,
      Dict.get-put s.status r.agent_id AgentInstanceStatus.error id,
      eq_iff r.agent_id id,
      c.status_running id,
    );
    recorded = c.recorded;
    own_id = c.own_id;
    keyed = c.keyed;
  }
  started-IsConsistent r s (w, some (runtime, cleanup)) free known c = record {
    registered = λ id. ground (
      arith,
      Dict.get-put s.runtimes r.agent_id runtime id,
      Dict.get-put s.cleanups r.agent_id cleanup id,
      c.registered id,
    );
    status_running = λ id. ground (
      arith,
      Dict.get-put s.status r.agent_id AgentInstanceStatus.running id,
      Dict.get-put s.cleanups r.agent_id cleanup id,
      c.status_running id,
    );
    recorded = λ id h.
        ground (
          arith,
          Dict.get-put s.cleanups r.agent_id cleanup id,
          eq_iff r.agent_id id,
          c.recorded id,
        );
    own_id = c.own_id;
    keyed = c.keyed;
  }

  start_by-IsConsistent :
      (f : Option ℕ) (r : ManagedAgentRecord) (s : Supervisor world)
      → Dict.has s.cleanups r.agent_id ≡ false
      → Dict.has s.records r.agent_id ≡ true
      → IsConsistent s
      → IsConsistent (start_by world f r s).0
  unfolding start_by
  start_by-IsConsistent none r s free known c = c
  start_by-IsConsistent (some f) r s free known c =
      started-IsConsistent r s (world.start s.state f r) free known c

  pub start_agent-IsConsistent :
      (r : ManagedAgentRecord) (s : Supervisor world)
      → Dict.has s.records r.agent_id ≡ true
      → IsConsistent s
      → IsConsistent (start_agent world r s).0
  unfolding start_agent
  start_agent-IsConsistent r s known c = elim (Bool-cases (Dict.has s.cleanups r.agent_id)) [
    | inl e ↦ rw e c
    | inr e ↦ rw e (start_by-IsConsistent (Dict.get s.factories r.agent_type) r s e known c)
  ]

  call_cleanup-IsConsistent :
      (o : Option (Option ℕ)) (s : Supervisor world)
      → IsConsistent s
      → IsConsistent (call_cleanup world o s).0
  unfolding call_cleanup
  call_cleanup-IsConsistent none s c = c
  call_cleanup-IsConsistent (some none) s c = c
  call_cleanup-IsConsistent (some (some f)) s c = record {
    registered = c.registered;
    status_running = c.status_running;
    recorded = c.recorded;
    own_id = c.own_id;
    keyed = c.keyed;
  }

  pub stop_agent-IsConsistent :
      (id : Str) (s : Supervisor world) → IsConsistent s → IsConsistent (stop_agent world id s).0
  unfolding stop_agent
  stop_agent-IsConsistent id s c = call_cleanup-IsConsistent (Dict.get s.cleanups id) _ (record {
    registered = λ j.
        ground
          (arith, Dict.get-remove s.cleanups id j, Dict.get-remove s.runtimes id j, c.registered j);
    status_running = λ j. ground (
      arith,
      Dict.get-remove s.cleanups id j,
      Dict.get-put s.status id AgentInstanceStatus.stopped j,
      c.status_running j,
    );
    recorded = λ j h. ground (arith, Dict.get-remove s.cleanups id j, c.recorded j);
    own_id = c.own_id;
    keyed = c.keyed;
  })

  pub records-start_agent :
      (r : ManagedAgentRecord) (s : Supervisor world)
      → (start_agent world r s).0.records ≡ s.records
  unfolding start_agent
  records-start_agent r s = elim (Bool-cases (Dict.has s.cleanups r.agent_id)) [
    | inl e ↦ rw e
    | inr e ↦ rw e (records-start_by (Dict.get s.factories r.agent_type))
  ]
    where
      records-started :
          (o : world.State × Option (ℕ × Option ℕ)) → (started world r s o).0.records ≡ s.records
      records-started (w, none) = refl
      records-started (w, some (runtime, cleanup)) = refl

      records-start_by : (f : Option ℕ) → (start_by world f r s).0.records ≡ s.records
      records-start_by none = refl
      records-start_by (some f) = records-started (world.start s.state f r)

  records-call_cleanup :
      (o : Option (Option ℕ)) (s : Supervisor world)
      → (call_cleanup world o s).0.records ≡ s.records
  unfolding call_cleanup
  records-call_cleanup none s = refl
  records-call_cleanup (some none) s = refl
  records-call_cleanup (some (some f)) s = refl

  pub records-stop_agent :
      (id : Str) (s : Supervisor world) → (stop_agent world id s).0.records ≡ s.records
  unfolding stop_agent
  records-stop_agent id s = records-call_cleanup (Dict.get s.cleanups id) _
