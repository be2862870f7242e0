-- ===== src/Client/ConfigApply.antt =====
-- client/internal/agent/codex/config_apply.go: a configuration is checked, and written beside its path and
-- renamed. The file system and the package go-toml are the record ConfigFiles; the home directory
-- and filepath.Join are the Paths of the fake adapter. A function returns the state of the files
-- and the error, none where there is none, or its result.
pub mod Checks
mod Tests
use agent_console.Prelude.{
  Str, str, ◌==◌, is_empty, Bool, true, false, not, Option, none, some, [], ◌∷◌, ◌++◌,
  if◌then◌else◌,
}
use agent_console.Prelude.Result.{Result, ok, err}
use agent_console.Prelude.Text.Trim.{trim_space}
use agent_console.Domain.Config.{AgentConfigDocument, AgentConfigFormat}
use agent_console.Client.FakeAdapter.Resources.{Paths}
use agent_console.Client.Manager.{ApplyConfigResult}

-- What a call may do to the files, with `false` for an error.
pub record ConfigFiles : Type 1 where
  pub State : Type 0
  pub dir : Str → Str
  pub mkdir_all : State → Str → State × Bool
  pub write_file : State → Str → Str → State × Bool
  pub rename : State → Str → Str → State × Bool
  pub is_toml : Str → Bool

pub data ConfigError : Type 0 where
  unsupported_type unsupported_format content_required invalid_toml no_home mkdir_failed
        write_failed rename_failed :
      ConfigError

-- document.Format != "" && document.Format != domain.AgentConfigFormatTOML
abbrev is_other_format : AgentConfigFormat → Bool
is_other_format (AgentConfigFormat.other f) = true
is_other_format _ = false

-- The checks of a document, in their order; none where it passes.
abbrev refusal : (Str → Bool) → AgentConfigDocument → Option ConfigError
refusal is_toml document =
    if not (document.agent_type == str "codex")
    then some unsupported_type
    else if is_other_format document.format
    then some unsupported_format
    else if is_empty (trim_space document.content)
    then some content_required
    else if is_toml document.content
    then none
    else some invalid_toml

module _ (files : ConfigFiles) where
  abbrev renamed : files.State × Bool → files.State × Option ConfigError
  renamed (s, true) = (s, none)
  renamed (s, false) = (s, some rename_failed)

  abbrev written : Str → Str → files.State × Bool → files.State × Option ConfigError
  written tmp path (s, false) = (s, some write_failed)
  written tmp path (s, true) = renamed (files.rename s tmp path)

  abbrev made : Str → Str → files.State × Bool → files.State × Option ConfigError
  made path content (s, false) = (s, some mkdir_failed)
  made path content (s, true) =
      written (path ++ str ".tmp") path (files.write_file s (path ++ str ".tmp") content)

  abbrev write_config_content : Str → Str → files.State → files.State × Option ConfigError
  write_config_content path content s = made path content (files.mkdir_all s (files.dir path))

  abbrev config_result :
      Str → files.State × Option ConfigError → files.State × Result ConfigError ApplyConfigResult
  config_result path (s, some e) = (s, err e)
  config_result path (s, none) = (s, ok (record { agent_type = str "codex"; file_path = path }))

  abbrev mirrored : Str → Str → files.State × Option ConfigError → files.State × Option ConfigError
  mirrored mirror content (s, some e) = (s, some e)
  mirrored mirror content (s, none) =
      if is_empty (trim_space mirror) then (s, none) else write_config_content mirror content s

  module _ (paths : Paths) where
    abbrev apply_at :
        Str → Str → Option Str → files.State → files.State × Result ConfigError ApplyConfigResult
    apply_at content mirror none s = (s, err no_home)
    apply_at content mirror (some home) s =
        let path = paths.join (home ∷ str ".codex" ∷ str "config.toml" ∷ []) in
        config_result path (mirrored mirror content (write_config_content path content s))

    abbrev apply_accepted :
        AgentConfigDocument
        → Str
        → Option ConfigError
        → files.State
        → files.State × Result ConfigError ApplyConfigResult
    apply_accepted document mirror (some e) s = (s, err e)
    apply_accepted document mirror none s = apply_at document.content mirror paths.home s

    -- applyConfigDocumentWithMirror
    abbrev pub apply_config_document_with_mirror :
        AgentConfigDocument → Str → files.State → files.State × Result ConfigError ApplyConfigResult
    apply_config_document_with_mirror document mirror s =
        apply_accepted document mirror (refusal files.is_toml document) s
