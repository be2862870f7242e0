-- ===== src/Client/Manager/Independence.antt =====
-- The runtimes of a manager do not see each other's calls.
use agent_console.Prelude.{
  Bool-cases, Str, ◌==◌, eq_iff, Bool, Option, none, some, List, [], ◌∷◌, ◌≡◌, refl, arith,
  Option-cases, inl, inr, if◌then◌else◌,
}
use agent_console.Prelude.Result.{err}
use agent_console.Prelude.Dict
use agent_console.Prelude.Dict.{Dict}
use agent_console.Domain.Json.{Fields}
use agent_console.Domain.Config.{AgentConfigDocument}
use agent_console.Domain.Turn.{ThreadRuntimePreferencePatch}
use agent_console.Client.Manager
use agent_console.Client.Manager.{
  Method, Runtime, Manager, ManagerError, lifted, call, call_optional, build,
}

-- A call of the manager, but for the name of the runtime.
pub data Command : Type 0 where
  list_threads list_environment take_snapshot : Command
  create_thread read_thread resume_thread archive_thread : Str → Command
  start_turn : Str → Str → Command
  steer_turn : Str → Str → Str → Command
  interrupt_turn : Str → Str → Command
  respond_approval : Str → Str → Fields → Command
  set_skill_enabled : Str → Bool → Command
  create_skill : Str → Str → Command
  delete_skill : Str → Command
  upsert_mcp_server : Str → Fields → Command
  remove_mcp_server : Str → Command
  set_mcp_server_enabled : Str → Bool → Command
  install_plugin : Str → Str → Str → Command
  set_plugin_enabled : Str → Bool → Command
  uninstall_plugin : Str → Command
  apply_config : AgentConfigDocument → Command
  read_settings : Str → Command
  update_settings : Str → ThreadRuntimePreferencePatch → Command

module _ {E S : Type 0} (runtime : Runtime E S) where
  -- The manager after the call.
  abbrev pub manage : Command → Str → Manager S → Manager S
  manage list_threads n m = (Manager.threads runtime n m).0
  manage list_environment n m = (Manager.environment runtime n m).0
  manage take_snapshot n m = (Manager.manager_snapshot runtime n m).0
  manage (create_thread title) n m = (Manager.create_thread runtime n title m).0
  manage (read_thread id) n m = (Manager.read_thread runtime n id m).0
  manage (resume_thread id) n m = (Manager.resume_thread runtime n id m).0
  manage (archive_thread id) n m = (Manager.archive_thread runtime n id m).0
  manage (start_turn id input) n m = (Manager.start_turn runtime n id input m).0
  manage (steer_turn id turn input) n m = (Manager.steer_turn runtime n id turn input m).0
  manage (interrupt_turn id turn) n m = (Manager.interrupt_turn runtime n id turn m).0
  manage (respond_approval id decision answers) n m =
      (Manager.respond_approval runtime n id decision answers m).0
  manage (set_skill_enabled id enabled) n m = (Manager.set_skill_enabled runtime n id enabled m).0
  manage (create_skill name description) n m = (Manager.create_skill runtime n name description m).0
  manage (delete_skill name) n m = (Manager.delete_skill runtime n name m).0
  manage (upsert_mcp_server id config) n m = (Manager.upsert_mcp_server runtime n id config m).0
  manage (remove_mcp_server id) n m = (Manager.remove_mcp_server runtime n id m).0
  manage (set_mcp_server_enabled id enabled) n m =
      (Manager.set_mcp_server_enabled runtime n id enabled m).0
  manage (install_plugin id path name) n m = (Manager.install_plugin runtime n id path name m).0
  manage (set_plugin_enabled id enabled) n m = (Manager.set_plugin_enabled runtime n id enabled m).0
  manage (uninstall_plugin id) n m = (Manager.uninstall_plugin runtime n id m).0
  manage (apply_config document) n m = (Manager.apply_config runtime n document m).0
  manage (read_settings id) n m = (Manager.read_settings runtime n id m).0
  manage (update_settings id patch) n m = (Manager.update_settings runtime n id patch m).0

  -- What the call does to a runtime that stands alone; without the interface it does nothing.
  abbrev optional : {A I : Type 0} → (I → Method E S A) → S → Option I → S
  optional f s none = s
  optional f s (some i) = (f i s).0

  abbrev pub perform : Command → S → S
  perform list_threads s = (runtime.list_threads s).0
  perform list_environment s = (runtime.list_environment s).0
  perform take_snapshot s = (build runtime s).0
  perform (create_thread title) s = (runtime.create_thread title s).0
  perform (read_thread id) s = (runtime.read_thread id s).0
  perform (resume_thread id) s = (runtime.resume_thread id s).0
  perform (archive_thread id) s = (runtime.archive_thread id s).0
  perform (start_turn id input) s = (runtime.start_turn id input s).0
  perform (steer_turn id turn input) s = (runtime.steer_turn id turn input s).0
  perform (interrupt_turn id turn) s = (runtime.interrupt_turn id turn s).0
  perform (respond_approval id decision answers) s =
      optional (λ respond. respond id decision answers) s (runtime.respond_approval s)
  perform (set_skill_enabled id enabled) s =
      optional (λ configure. configure id enabled) s (runtime.set_skill_enabled s)
  perform (create_skill name description) s =
      optional (λ i. i.create_skill name description) s (runtime.skills s)
  perform (delete_skill name) s = optional (λ i. i.delete_skill name) s (runtime.skills s)
  perform (upsert_mcp_server id config) s =
      optional (λ i. i.upsert_mcp_server id config) s (runtime.mcp s)
  perform (remove_mcp_server id) s = optional (λ i. i.remove_mcp_server id) s (runtime.mcp s)
  perform (set_mcp_server_enabled id enabled) s =
      optional (λ i. i.set_mcp_server_enabled id enabled) s (runtime.mcp s)
  perform (install_plugin id path name) s =
      optional (λ i. i.install_plugin id path name) s (runtime.plugins s)
  perform (set_plugin_enabled id enabled) s =
      optional (λ i. i.set_plugin_enabled id enabled) s (runtime.plugins s)
  perform (uninstall_plugin id) s = optional (λ i. i.uninstall_plugin id) s (runtime.plugins s)
  perform (apply_config document) s = optional (λ apply. apply document) s (runtime.config s)
  perform (read_settings id) s = optional (λ i. i.read_settings id) s (runtime.settings s)
  perform (update_settings id patch) s =
      optional (λ i. i.update_settings id patch) s (runtime.settings s)

  -- The runtime of the name is in the state, or is not there.
  record HasRuntime (m : Manager S) (n : Str) (s : S) : Type 0 where
    runtimes : Dict S
    configured : m.registry ≡ some runtimes
    there : Dict.get runtimes n ≡ some s

  call-HasRuntime :
      {A : Type 0} (f : Method E S A) (name n : Str) (m : Manager S) (s : S)
      → HasRuntime m n s
      → HasRuntime (call f name m).0 n (if name == n then (f s).0 else s)
  call-HasRuntime f name n m s has = elim (Bool-cases (name == n)) [
    | inl e ↦
        let en : name ≡ n = (eq_iff name n).0 e in
        rw (e, has.configured, en, has.there)
          (record {
            runtimes = Dict.put has.runtimes n (f s).0;
            configured = refl;
            there = ground (arith, Dict.get-put has.runtimes n (f s).0 n, eq_iff n n);
          })
    | inr e ↦ elim (Option-cases (Dict.get has.runtimes name)) [
      | inl eo ↦
          rw (e, has.configured, eo)
            (record { runtimes = has.runtimes; configured = refl; there = has.there })
      | inr (t, eo) ↦
          rw (e, has.configured, eo)
            (record {
              runtimes = Dict.put has.runtimes name (f t).0;
              configured = refl;
              there = ground (arith, Dict.get-put has.runtimes name (f t).0 n, has.there);
            })
    ]
  ]

  optional-HasRuntime :
      {A I : Type 0} (supports : S → Option I) (f : I → Method E S A) (name n : Str) (m : Manager S)
      (s : S)
      → HasRuntime m n s
      → HasRuntime
          (call_optional supports f name m).0
          n
          (if name == n then optional f s (supports s) else s)
  optional-HasRuntime supports f name n m s has = elim (Bool-cases (name == n)) [
    | inl e ↦
        let en : name ≡ n = (eq_iff name n).0 e in
        elim (Option-cases (supports s)) [
          | inl eo ↦
              rw (e, has.configured, en, has.there, eo)
                (record { runtimes = has.runtimes; configured = refl; there = has.there })
          | inr (i, eo) ↦
              rw (e, has.configured, en, has.there, eo)
                (record {
                  runtimes = Dict.put has.runtimes n (f i s).0;
                  configured = refl;
                  there = ground (arith, Dict.get-put has.runtimes n (f i s).0 n, eq_iff n n);
                })
        ]
    | inr e ↦ elim (Option-cases (Dict.get has.runtimes name)) [
      | inl eo ↦
          rw (e, has.configured, eo)
            (record { runtimes = has.runtimes; configured = refl; there = has.there })
      | inr (t, eo) ↦ elim (Option-cases (supports t)) [
        | inl ei ↦
            rw (e, has.configured, eo, ei)
              (record { runtimes = has.runtimes; configured = refl; there = has.there })
        | inr (i, ei) ↦
            rw (e, has.configured, eo, ei)
              (record {
                runtimes = Dict.put has.runtimes name (f i t).0;
                configured = refl;
                there = ground (arith, Dict.get-put has.runtimes name (f i t).0 n, has.there);
              })
      ]
    ]
  ]

  manage-HasRuntime :
      (c : Command) (name n : Str) (m : Manager S) (s : S)
      → HasRuntime m n s
      → HasRuntime (manage c name m) n (if name == n then perform c s else s)
  manage-HasRuntime list_threads k n m s has = call-HasRuntime runtime.list_threads k n m s has
  manage-HasRuntime list_environment k n m s has =
      call-HasRuntime runtime.list_environment k n m s has
  manage-HasRuntime take_snapshot k n m s has = call-HasRuntime (build runtime) k n m s has
  manage-HasRuntime (create_thread title) k n m s has =
      call-HasRuntime (runtime.create_thread title) k n m s has
  manage-HasRuntime (read_thread id) k n m s has =
      call-HasRuntime (runtime.read_thread id) k n m s has
  manage-HasRuntime (resume_thread id) k n m s has =
      call-HasRuntime (runtime.resume_thread id) k n m s has
  manage-HasRuntime (archive_thread id) k n m s has =
      call-HasRuntime (runtime.archive_thread id) k n m s has
  manage-HasRuntime (start_turn id input) k n m s has =
      call-HasRuntime (runtime.start_turn id input) k n m s has
  manage-HasRuntime (steer_turn id turn input) k n m s has =
      call-HasRuntime (runtime.steer_turn id turn input) k n m s has
  manage-HasRuntime (interrupt_turn id turn) k n m s has =
      call-HasRuntime (runtime.interrupt_turn id turn) k n m s has
  manage-HasRuntime (respond_approval id decision answers) k n m s has =
      optional-HasRuntime runtime.respond_approval (λ respond. respond id decision answers) k n m s
        has
  manage-HasRuntime (set_skill_enabled id enabled) k n m s has =
      optional-HasRuntime runtime.set_skill_enabled (λ configure. configure id enabled) k n m s has
  manage-HasRuntime (create_skill name description) k n m s has =
      optional-HasRuntime runtime.skills (λ i. i.create_skill name description) k n m s has
  manage-HasRuntime (delete_skill name) k n m s has =
      optional-HasRuntime runtime.skills (λ i. i.delete_skill name) k n m s has
  manage-HasRuntime (upsert_mcp_server id config) k n m s has =
      optional-HasRuntime runtime.mcp (λ i. i.upsert_mcp_server id config) k n m s has
  manage-HasRuntime (remove_mcp_server id) k n m s has =
      optional-HasRuntime runtime.mcp (λ i. i.remove_mcp_server id) k n m s has
  manage-HasRuntime (set_mcp_server_enabled id enabled) k n m s has =
      optional-HasRuntime runtime.mcp (λ i. i.set_mcp_server_enabled id enabled) k n m s has
  manage-HasRuntime (install_plugin id path name) k n m s has =
      optional-HasRuntime runtime.plugins (λ i. i.install_plugin id path name) k n m s has
  manage-HasRuntime (set_plugin_enabled id enabled) k n m s has =
      optional-HasRuntime runtime.plugins (λ i. i.set_plugin_enabled id enabled) k n m s has
  manage-HasRuntime (uninstall_plugin id) k n m s has =
      optional-HasRuntime runtime.plugins (λ i. i.uninstall_plugin id) k n m s has
  manage-HasRuntime (apply_config document) k n m s has =
      optional-HasRuntime runtime.config (λ apply. apply document) k n m s has
  manage-HasRuntime (read_settings id) k n m s has =
      optional-HasRuntime runtime.settings (λ i. i.read_settings id) k n m s has
  manage-HasRuntime (update_settings id patch) k n m s has =
      optional-HasRuntime runtime.settings (λ i. i.update_settings id patch) k n m s has

  abbrev pub run : List (Str × Command) → Manager S → Manager S
  run [] m = m
  run ((name, c) ∷ steps) m = run steps (manage c name m)

  -- The runtime of the name, alone with its own calls.
  abbrev pub run_own : Str → List (Str × Command) → S → S
  run_own n [] s = s
  run_own n ((name, c) ∷ steps) s = run_own n steps (if name == n then perform c s else s)

  run-HasRuntime :
      (steps : List (Str × Command)) (n : Str) (m : Manager S) (s : S)
      → HasRuntime m n s
      → HasRuntime (run steps m) n (run_own n steps s)
  run-HasRuntime [] n m s has = has
  run-HasRuntime ((name, c) ∷ steps) n m s has =
      run-HasRuntime steps n (manage c name m) (if name == n then perform c s else s)
        (manage-HasRuntime c name n m s has)

  -- However the calls to the runtimes of a manager are interleaved, a call to a runtime is answered
  -- as the runtime alone would, after its own calls only, without those that it has no interface
  -- for; such a call is refused. The runtimes share no state, and the runtime of the call is
  -- registered from the start.
  pub call-run :
      {A B I : Type 0} (f : Method E S A) (supports : S → Option I) (g : I → Method E S B)
      (steps : List (Str × Command)) (n : Str) (d : Dict S) (s : S)
      → Dict.get d n ≡ some s
      → let m = run steps (record { registry = some d }) in
        let alone = run_own n steps s in
        ((call f n m).1 ≡ lifted (f alone).1)
        × ((call_optional supports g n m).1 ≡ (elim (supports alone) [
          | none ↦ err ManagerError.unsupported
          | some i ↦ lifted (g i alone).1
        ]))
  call-run f supports g steps n d s e =
      let has =
        run-HasRuntime steps n (record { registry = some d }) s
          (record { runtimes = d; configured = refl; there = e }) in
      (
        rw (has.configured, has.there) refl,
        elim (Option-cases (supports (run_own n steps s))) [
          | inl eo ↦ rw (has.configured, has.there, eo) refl
          | inr (i, eo) ↦ rw (has.configured, has.there, eo) refl
        ],
      )
