-- ===== src/Client/ConfigApply/Tests.antt =====
-- A configuration at a concrete disk.
use agent_console.Prelude.{Str, str, true, Option, some, []}
use agent_console.Prelude.Dict
use agent_console.Prelude.Dict.{Dict}
use agent_console.Domain.Config.{AgentConfigDocument, AgentConfigFormat}
use agent_console.Client.FakeAdapter.Resources.{Paths}
use agent_console.Client.ConfigApply.{ConfigFiles}

-- A disk keeps the texts by their paths; what is not there reads as the empty text.
abbrev text_at : Dict Str → Str → Str
text_at s p = Dict.get_or [] (Dict.get s p)

abbrev files : ConfigFiles
files = record {
  State = Dict Str;
  dir = λ p. p;
  mkdir_all = λ s p. (s, true);
  write_file = λ s p content. (Dict.put s p content, true);
  rename = λ s p q. (Dict.put s q (text_at s p), true);
  is_toml = λ content. true;
}

abbrev read : Dict Str → Str → Option Str
read s p = some (text_at s p)

abbrev paths : Paths
paths = record { home = some (str "/root"); join = λ parts. str "config.toml"; to_lower = λ s. s }

abbrev document : AgentConfigDocument
document = record {
  agent_type = str "codex";
  format = AgentConfigFormat.toml;
  content = str "model = 1";
  updated_at = [];
  updated_by = [];
  version = 1;
}
