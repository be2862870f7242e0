-- ===== src/Client/ConfigApply/Checks.antt =====
-- What a document has to be for its configuration to be written.
use agent_console.Prelude.{
  Str, str, is_empty, true, false, Option, none, some, [], ◌∷◌, ◌≡◌, ◌⊎◌, if◌then◌else◌,
}
use agent_console.Prelude.Result.{Result, ok, err}
use agent_console.Prelude.Text.Trim.{trim_space}
use agent_console.Domain.Config.{AgentConfigDocument, AgentConfigFormat}
use agent_console.Client.FakeAdapter.Resources.{Paths}
use agent_console.Client.Manager.{ApplyConfigResult}
use agent_console.Client.ConfigApply.{ConfigFiles, ConfigError}

-- The document is one of Codex, in TOML or with no format said, with a content that is not blank and is
-- TOML, and there is a home directory.
pub record IsApplicable (files : ConfigFiles) (paths : Paths) (document : AgentConfigDocument)
    : Type 0 where
  pub codex : document.agent_type ≡ str "codex"
  pub format :
      (document.format ≡ AgentConfigFormat.unset) ⊎ (document.format ≡ AgentConfigFormat.toml)
  pub content : is_empty (trim_space document.content) ≡ false
  pub toml : files.is_toml document.content ≡ true
  pub home_dir : Str
  pub home : paths.home ≡ some home_dir

-- What a call returns that writes nothing.
abbrev pub Refuses :
    (files : ConfigFiles)
    → files.State
    → files.State × Result ConfigError ApplyConfigResult
    → Type 0
Refuses files s r = (e : ConfigError) × (r ≡ (s, err e))

-- A disk on which nothing fails, as far as `read` tells: what is written or renamed can be read under its
-- new name.
pub record Works (files : ConfigFiles) (read : files.State → Str → Option Str) : Type 0 where
  pub mkdir_done : (s : files.State) (p : Str) → (files.mkdir_all s p).1 ≡ true
  pub write_done :
      (s : files.State) (p c : Str)
      → ((files.write_file s p c).1 ≡ true) × (read (files.write_file s p c).0 p ≡ some c)
  pub rename_done :
      (s : files.State) (p q : Str)
      → ((files.rename s p q).1 ≡ true) × (read (files.rename s p q).0 q ≡ read s p)

module _ (files : ConfigFiles) (read : files.State → Str → Option Str)
    (works : Works files read) where
  -- Nothing fails, and the content can be read at the path.
  record HasWritten (path content : Str) (r : files.State × Option ConfigError) : Type 0 where
    fine : r.1 ≡ none
    there : read r.0 path ≡ some content

  -- The last path that a call writes to.
  abbrev pub last_path : Str → Str → Str
  last_path path mirror = if is_empty (trim_space mirror) then path else mirror

  abbrev pub config_path : Paths → Str → Str
  config_path paths home = paths.join (home ∷ str ".codex" ∷ str "config.toml" ∷ [])

  -- The answer names the configuration's path, and the content is where it was written last: at the
  -- mirror if there is one, else at that path.
  pub record IsApplied (path mirror content : Str)
      (r : files.State × Result ConfigError ApplyConfigResult) : Type 0 where
    pub answer : r.1 ≡ ok (record { agent_type = str "codex"; file_path = path })
    pub there : read r.0 (last_path path mirror) ≡ some content
