-- ===== src/Client/Manager/Tests.antt =====
-- The manager at concrete inputs.
use agent_console.Prelude.{true, str, ◌≡◌, refl, none, some, List, [], ◌∷◌, Str, false}
use agent_console.Prelude.Result.{err}
use agent_console.Prelude.Dict
use agent_console.Prelude.Dict.{Dict, get}
use agent_console.Domain.Json.{no_fields}
use agent_console.Client.FakeAdapter.{new_fake_adapter}
use agent_console.Client.FakeAdapter.Resources.{Paths}
use agent_console.Client.Manager.{ManagerError, call, call_optional, lifted}
use agent_console.Client.Manager.Fake.{fake_runtime, FakeHost}
use agent_console.Client.ConfigApply.{ConfigFiles}
use agent_console.Client.Manager.Independence.{
  Command, create_thread, start_turn, respond_approval, install_plugin, run, run_own, call-run,
}

abbrev paths : Paths
paths = record { home = some (str "/root"); join = λ parts. str "p"; to_lower = λ s. s }

abbrev files : ConfigFiles
files = record {
  State = Dict Str;
  dir = λ p. p;
  mkdir_all = λ s p. (s, true);
  write_file = λ s p content. (Dict.put s p content, true);
  rename = λ s p q. (Dict.put s q [], true);
  is_toml = λ content. true;
}

abbrev host : FakeHost files
host = (new_fake_adapter, [])

abbrev runtimes : Dict (FakeHost files)
runtimes = (str "a", host) ∷ (str "b", host) ∷ []

abbrev steps : List (Str × Command)
steps =
    (str "a", create_thread (str "first"))
    ∷ (str "b", create_thread (str "other"))
    ∷ (str "b", install_plugin (str "p1") (str "/market") (str "Plugin"))
    ∷ (str "c", create_thread (str "nowhere"))
    ∷ (str "a", respond_approval (str "r") (str "accept") no_fields)
    ∷ (str "b", start_turn (str "thread-01") (str "hello"))
    ∷ []

call-run_example :
    let m = run (fake_runtime files paths) steps (record { registry = some runtimes }) in
    let alone = run_own (fake_runtime files paths) (str "b") steps host in
    ((call ((fake_runtime files paths).start_turn (str "thread-01") (str "again")) (str "b") m).1
      ≡ lifted ((fake_runtime files paths).start_turn (str "thread-01") (str "again") alone).1)
    × ((call_optional
          (fake_runtime files paths).plugins
          (λ i. i.set_plugin_enabled (str "p1") false)
          (str "b")
          m).1
        ≡ (elim ((fake_runtime files paths).plugins alone) [
          | none ↦ err ManagerError.unsupported
          | some i ↦ lifted (i.set_plugin_enabled (str "p1") false alone).1
        ]))
unfolding get
call-run_example =
    call-run (fake_runtime files paths)
      ((fake_runtime files paths).start_turn (str "thread-01") (str "again"))
      (fake_runtime files paths).plugins (λ i. i.set_plugin_enabled (str "p1") false) steps
      (str "b") runtimes host refl
