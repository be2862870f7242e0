-- ===== src/Client/Supervisor/Lifecycle.antt =====
-- Installing, deleting and restarting agents keep the tables in step, and so does every sequence of
-- operations.
use agent_console.Prelude.{
  ℕ, Str, eq_iff, is_empty, true, false, Option, none, some, List, [], ◌∷◌, ◌≡◌, refl, arith,
  Bool-cases, inl, inr,
}
use agent_console.Prelude.Text.Trim.{trim_space}
use agent_console.Prelude.Dict
use agent_console.Prelude.Dict.{Dict, IsKeyed}
use agent_console.Client.Supervisor.{
  World, ManagedAgentRecord, SupervisorError, Supervisor, started, start_by, start_agent,
  call_cleanup, stop_agent, start_all, stop_all, save_record, forget, add_record, finish_install,
  install_record, install_as, install_agent, delete_stopped, delete_agent, restart_stopped,
  restart_record, restart_agent, lookup_record, next_agent_id, validate,
}
use agent_console.Client.Supervisor.Running.{
  IsConsistent, start_agent-IsConsistent, stop_agent-IsConsistent, records-stop_agent,
}
use agent_console.Client.Supervisor.Operations.{
  start_all-IsConsistent, stop_all-IsConsistent, save_record-IsConsistent,
  remove_directory-IsConsistent, forget-IsConsistent, add_record-IsConsistent,
  when_valid-IsConsistent,
}

module _ {world : World} where
  call_cleanup-cleanups :
      (o : Option (Option ℕ)) (s : Supervisor world)
      → (call_cleanup world o s).0.cleanups ≡ s.cleanups
  unfolding call_cleanup
  call_cleanup-cleanups none s = refl
  call_cleanup-cleanups (some none) s = refl
  call_cleanup-cleanups (some (some f)) s = refl

  -- The agents that run after one is stopped.
  pub cleanups-stop_agent :
      (id : Str) (s : Supervisor world)
      → (stop_agent world id s).0.cleanups ≡ Dict.remove s.cleanups id
  unfolding stop_agent
  cleanups-stop_agent id s = call_cleanup-cleanups (Dict.get s.cleanups id) _

  stop_agent-stopped :
      (id : Str) (s : Supervisor world) → Dict.has (stop_agent world id s).0.cleanups id ≡ false
  stop_agent-stopped id s =
      rw (cleanups-stop_agent id s) (ground (arith, Dict.get-remove s.cleanups id id, eq_iff id id))

  -- An agent does not run after a start of it that failed.
  started_failed :
      (r : ManagedAgentRecord) (s : Supervisor world) (o : world.State × Option (ℕ × Option ℕ))
      (e : SupervisorError)
      → (started world r s o).1 ≡ some e
      → (started world r s o).0.cleanups ≡ s.cleanups
  unfolding started
  started_failed r s (w, none) e h = refl
  started_failed r s (w, some (runtime, cleanup)) e h = cc

  start_by_failed :
      (f : Option ℕ) (r : ManagedAgentRecord) (s : Supervisor world) (e : SupervisorError)
      → (start_by world f r s).1 ≡ some e
      → (start_by world f r s).0.cleanups ≡ s.cleanups
  unfolding start_by
  start_by_failed none r s e h = refl
  start_by_failed (some f) r s e h = started_failed r s (world.start s.state f r) e h

  pub start_agent_failed :
      (r : ManagedAgentRecord) (s : Supervisor world) (e : SupervisorError)
      → (start_agent world r s).1 ≡ some e
      → ((start_agent world r s).0.cleanups ≡ s.cleanups) × (Dict.has s.cleanups r.agent_id ≡ false)
  unfolding start_agent
  start_agent_failed r s e h = elim (Bool-cases (Dict.has s.cleanups r.agent_id)) [
    | inl p ↦ absurd (ground (arith, p))
    | inr p ↦
        let q = start_by_failed (Dict.get s.factories r.agent_type) r s e (ground (arith, p)) in
        (rw p q, p)
  ]

  finish_install-IsConsistent :
      (r : ManagedAgentRecord) (s : Supervisor world)
      → Dict.has s.records r.agent_id ≡ true
      → IsConsistent s
      → IsConsistent (finish_install world r (start_agent world r s)).0
  finish_install-IsConsistent r s known c =
      go (start_agent world r s) (start_agent-IsConsistent r s known c)
        (λ e h. let p = start_agent_failed r s e h in ground (arith, p))
    where
      go :
          (a : Supervisor world × Option SupervisorError)
          → IsConsistent a.0
          → ((e : SupervisorError) → a.1 ≡ some e → Dict.has a.0.cleanups r.agent_id ≡ false)
          → IsConsistent (finish_install world r a).0
      go (t, none) d f = unfold finish_install in d
      go (t, some e) d f =
          unfold finish_install in
          remove_directory-IsConsistent r.agent_id (forget world r.agent_id t)
            (forget-IsConsistent r.agent_id t (f e refl) d)

  install_record-IsConsistent :
      (r : ManagedAgentRecord) (a : Supervisor world × Option SupervisorError)
      → IsConsistent a.0
      → IsConsistent (install_record world r a).0
  unfolding install_record
  install_record-IsConsistent r (s, some e) c = c
  install_record-IsConsistent r (s, none) c =
      finish_install-IsConsistent r (add_record world r s)
        (ground
          (arith, Dict.get-put s.records r.agent_id r r.agent_id, eq_iff r.agent_id r.agent_id))
        (add_record-IsConsistent r s c)

  install_as-IsConsistent :
      (o : Option Str) (agent_type display_name : Str) (s : Supervisor world)
      → IsConsistent s
      → IsConsistent (install_as world o agent_type display_name s).0
  unfolding install_as
  install_as-IsConsistent none t d s c = c
  install_as-IsConsistent (some id) t d s c =
      let r : ManagedAgentRecord = record { agent_id = id; agent_type = t; display_name = d } in
      install_record-IsConsistent r (save_record world r s) (save_record-IsConsistent r s c)

  install_agent-IsConsistent :
      (agent_type display_name : Str) (s : Supervisor world)
      → IsConsistent s
      → IsConsistent (install_agent world agent_type display_name s).0
  unfolding install_agent
  install_agent-IsConsistent t d s c = elim (Bool-cases (is_empty (trim_space d))) [
    | inl e ↦ rw e c
    | inr e ↦ rw e (install_as-IsConsistent (next_agent_id s.records) t d s c)
  ]

  delete_stopped-IsConsistent :
      (id : Str) (a : Supervisor world × Option SupervisorError)
      → Dict.has a.0.cleanups id ≡ false
      → IsConsistent a.0
      → IsConsistent (delete_stopped world id a).0
  unfolding delete_stopped
  delete_stopped-IsConsistent id (s, some e) free c = c
  delete_stopped-IsConsistent id (s, none) free c =
      remove_directory-IsConsistent id (forget world id s) (forget-IsConsistent id s free c)

  delete_agent-IsConsistent :
      (agent_id : Str) (s : Supervisor world)
      → IsConsistent s
      → IsConsistent (delete_agent world agent_id s).0
  unfolding delete_agent
  delete_agent-IsConsistent agent_id s c =
      let id = trim_space agent_id in
      when_valid-IsConsistent (validate world id) s _ c (
        delete_stopped-IsConsistent id (stop_agent world id s) (stop_agent-stopped id s)
          (stop_agent-IsConsistent id s c))

  restart_stopped-IsConsistent :
      (r : ManagedAgentRecord) (a : Supervisor world × Option SupervisorError)
      → Dict.has a.0.records r.agent_id ≡ true
      → IsConsistent a.0
      → IsConsistent (restart_stopped world r a).0
  unfolding restart_stopped
  restart_stopped-IsConsistent r (s, some e) known c = c
  restart_stopped-IsConsistent r (s, none) known c = start_agent-IsConsistent r s known c

  restart_record-IsConsistent :
      (id k : Str) (o : Option ManagedAgentRecord) (s : Supervisor world)
      → Dict.get s.records k ≡ o
      → IsConsistent s
      → IsConsistent (restart_record world id o s).0
  unfolding restart_record
  restart_record-IsConsistent id k none s h c = c
  restart_record-IsConsistent id k (some r) s h c =
      let known : Dict.has s.records r.agent_id ≡ true = ground (arith, c.own_id k r h, h) in
      elim (Bool-cases (Dict.has s.cleanups id)) [
        | inl e ↦ rw e (
            restart_stopped-IsConsistent r (stop_agent world id s)
              (rw (records-stop_agent id s) known) (stop_agent-IsConsistent id s c))
        | inr e ↦ rw e (start_agent-IsConsistent r s known c)
      ]

  restart_agent-IsConsistent :
      (agent_id : Str) (s : Supervisor world)
      → IsConsistent s
      → IsConsistent (restart_agent world agent_id s).0
  unfolding restart_agent
  restart_agent-IsConsistent agent_id s c =
      let id = trim_space agent_id in
      when_valid-IsConsistent (validate world id) s _ c
        (restart_record-IsConsistent id (trim_space id) (lookup_record world s id) s refl c)

-- The operations of the supervisor.
pub data Op : Type 0 where
  install : Str → Str → Op
  delete : Str → Op
  restart : Str → Op
  start_all_op : Op
  stop_all_op : Op

abbrev pub apply : (world : World) → Op → Supervisor world → Supervisor world
apply world (install t d) s = (install_agent world t d s).0
apply world (delete id) s = (delete_agent world id s).0
apply world (restart id) s = (restart_agent world id s).0
apply world start_all_op s = (start_all world s).0
apply world stop_all_op s = (stop_all world s).0

abbrev pub run : (world : World) → List Op → Supervisor world → Supervisor world
run world [] s = s
run world (op ∷ ops) s = run world ops (apply world op s)

apply-IsConsistent :
    (world : World) (op : Op) (s : Supervisor world)
    → IsConsistent s
    → IsConsistent (apply world op s)
apply-IsConsistent world (install t d) s c = install_agent-IsConsistent t d s c
apply-IsConsistent world (delete id) s c = delete_agent-IsConsistent id s c
apply-IsConsistent world (restart id) s c = restart_agent-IsConsistent id s c
apply-IsConsistent world start_all_op s c = start_all-IsConsistent s c
apply-IsConsistent world stop_all_op s c = stop_all-IsConsistent s c

-- Whatever the factories, the cleanups and the file system answer, every sequence of operations keeps
-- a consistent supervisor consistent: an agent has a cleanup exactly if its runtime is registered,
-- and exactly if its status is `running`; it then has a record, which stands under its own id.
pub run-IsConsistent :
    (world : World) (ops : List Op) (s : Supervisor world)
    → IsConsistent s
    → IsConsistent (run world ops s)
run-IsConsistent world [] s c = c
run-IsConsistent world (op ∷ ops) s c =
    run-IsConsistent world ops (apply world op s) (apply-IsConsistent world op s c)
