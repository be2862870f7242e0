-- ===== src/Client/Manager/Fake.antt =====
-- client/internal/agent/codex/fake_adapter.go and config_apply.go: the fake adapter, with files of its own, as
-- a runtime of the manager: what other programs and runtimes write to the same disk is not
-- modelled. It has every optional interface but RuntimeApprovalResponder.
use agent_console.Prelude.{[], Option, none, some}
use agent_console.Prelude.Result.{Result, ok, err}
use agent_console.Client.FakeAdapter
use agent_console.Client.FakeAdapter.{FakeAdapter, FakeError}
use agent_console.Client.FakeAdapter.Resources
use agent_console.Client.FakeAdapter.Resources.{Paths}
use agent_console.Client.ConfigApply.{ConfigFiles, ConfigError, apply_config_document_with_mirror}
use agent_console.Client.Manager.{Runtime, Method, Done, done}

pub data RuntimeError : Type 0 where
  adapter : FakeError → RuntimeError
  config : ConfigError → RuntimeError

module _ (files : ConfigFiles) where
  -- The adapter and the files.
  abbrev pub FakeHost : Type 0
  FakeHost = FakeAdapter × files.State

  abbrev done_or : Option FakeError → Result RuntimeError Done
  done_or none = ok done
  done_or (some e) = err (adapter e)

  abbrev or_error : {A : Type 0} → Result FakeError A → Result RuntimeError A
  or_error (ok a) = ok a
  or_error (err e) = err (adapter e)

  abbrev or_config_error : {A : Type 0} → Result ConfigError A → Result RuntimeError A
  or_config_error (ok a) = ok a
  or_config_error (err e) = err (config e)

  -- A method of the adapter, which leaves the files alone.
  abbrev answers :
      {A : Type 0}
      → (FakeAdapter → FakeAdapter × Result FakeError A)
      → Method RuntimeError FakeHost A
  answers f (a, s) = let (a', r) = f a in ((a', s), or_error r)

  abbrev may_fail :
      (FakeAdapter → FakeAdapter × Option FakeError) → Method RuntimeError FakeHost Done
  may_fail f (a, s) = let (a', e) = f a in ((a', s), done_or e)

  abbrev always : (FakeAdapter → FakeAdapter) → Method RuntimeError FakeHost Done
  always f (a, s) = ((f a, s), ok done)

  abbrev pub fake_runtime : Paths → Runtime RuntimeError FakeHost
  fake_runtime paths = record {
    list_threads = answers (λ a. (a, ok a.threads));
    list_environment = answers (λ a. (a, ok a.environment));
    create_thread =
        λ title. answers (λ a. let (a', t) = FakeAdapter.create_thread title a in (a', ok t));
    read_thread = λ id. answers (λ a. (a, FakeAdapter.read_thread id a));
    resume_thread = λ id. answers (λ a. FakeAdapter.resume_thread id a);
    archive_thread = λ id. may_fail (λ a. FakeAdapter.archive_thread id a);
    start_turn = λ id input. answers (λ a. FakeAdapter.start_turn id a);
    steer_turn = λ id turn input. answers (λ a. (a, FakeAdapter.steer_turn id turn a));
    interrupt_turn = λ id turn. answers (λ a. FakeAdapter.interrupt_turn id turn a);
    respond_approval = λ a. none;
    set_skill_enabled =
        λ a. some (λ id enabled. may_fail (λ b. Resources.set_skill_enabled id enabled b));
    skills = λ a. some (record {
      create_skill = λ name description. answers (λ b. Resources.create_skill paths name b);
      delete_skill = λ name. may_fail (λ b. Resources.delete_skill paths name b);
    });
    mcp = λ a. some (record {
      upsert_mcp_server = λ id config. always (λ b. Resources.upsert_mcp_server id config b);
      remove_mcp_server = λ id. may_fail (λ b. Resources.remove_mcp_server id b);
      set_mcp_server_enabled =
          λ id enabled. may_fail (λ b. Resources.set_mcp_server_enabled id enabled b);
    });
    plugins = λ a. some (record {
      install_plugin = λ id path name. always (λ b. Resources.install_plugin id path name b);
      set_plugin_enabled = λ id enabled. may_fail (λ b. Resources.set_plugin_enabled id enabled b);
      uninstall_plugin = λ id. may_fail (λ b. Resources.uninstall_plugin id b);
    });
    config = λ h. some (λ document (a, s).
        let (s', r) = apply_config_document_with_mirror files paths document [] s in
        ((a, s'), or_config_error r));
    settings = λ a. some (record {
      read_settings = λ id. answers (λ b. (b, FakeAdapter.read_thread_runtime_settings id b));
      update_settings =
          λ id patch. answers (λ b. FakeAdapter.update_thread_runtime_settings id patch b);
    });
  }
