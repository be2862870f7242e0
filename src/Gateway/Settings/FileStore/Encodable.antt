-- ===== src/Gateway/Settings/FileStore/Encodable.antt =====
-- The states that encoding/json keeps: it writes U+FFFD for bytes that are no UTF-8.
use agent_console.Prelude.{ℕ, Str, Bool, true, not, ◌&&◌, Option, none, some, List, [], ◌∷◌, nat_eq}
use agent_console.Prelude.Dict.{Dict}
use agent_console.Prelude.Text.Utf8.{runes}
use agent_console.Domain.Config.{
  AgentConfigDocument, AgentConfigFormat, AgentDescriptor, ConsolePreferences,
}
use agent_console.Gateway.Settings.{PersistedState}

abbrev all_runes : List ℕ → Bool
all_runes [] = true
all_runes (r ∷ rest) = not (nat_eq r 0xfffd) && all_runes rest

-- A text that is UTF-8: no rune of it stands for bytes that are none, or is U+FFFD itself.
abbrev is_text : Str → Bool
is_text s = all_runes (runes s)

abbrev all_text : List Str → Bool
all_text [] = true
all_text (s ∷ rest) = is_text s && all_text rest

abbrev format_text : AgentConfigFormat → Str
format_text (AgentConfigFormat.other s) = s
format_text _ = []

abbrev document_text : AgentConfigDocument → Bool
document_text d =
    all_text (d.agent_type ∷ format_text d.format ∷ d.content ∷ d.updated_at ∷ d.updated_by ∷ [])

abbrev documents_text : Dict AgentConfigDocument → Bool
documents_text [] = true
documents_text ((k, d) ∷ rest) = is_text k && document_text d && documents_text rest

abbrev machines_text : Dict (Dict AgentConfigDocument) → Bool
machines_text [] = true
machines_text ((k, docs) ∷ rest) = is_text k && documents_text docs && machines_text rest

abbrev agents_text : List AgentDescriptor → Bool
agents_text [] = true
agents_text (a ∷ rest) = is_text a.agent_type && is_text a.display_name && agents_text rest

abbrev titles_text : Dict Str → Bool
titles_text [] = true
titles_text ((k, t) ∷ rest) = is_text k && is_text t && titles_text rest

abbrev option_titles_text : Option (Dict Str) → Bool
option_titles_text none = true
option_titles_text (some titles) = titles_text titles

abbrev preferences_text : Option ConsolePreferences → Bool
preferences_text none = true
preferences_text (some p) =
    all_text (p.profile ∷ p.safety_policy ∷ p.last_thread_id ∷ [])
    && option_titles_text p.thread_titles

-- Every text of the state is UTF-8, keys included.
abbrev pub is_encodable : PersistedState → Bool
is_encodable state =
    agents_text state.agents
    && documents_text state.globals
    && machines_text state.machines
    && preferences_text state.console_preferences
