-- ===== src/Client/AgentId.antt =====
-- client/internal/agent/codex/instance_runner.go: ValidateAgentID. Which runes outside ASCII are
-- letters or digits is a parameter, the tables of the package unicode.
use agent_console.Prelude.{
  ℕ, Str, is_empty, Bool, false, ◌||◌, ◌&&◌, Option, none, some, List, [], ◌∷◌, leb, ltb, nat_eq,
  if◌then◌else◌,
}
use agent_console.Prelude.Text.Trim.{trim_space}
use agent_console.Prelude.Text.Utf8.{runes}

pub data AgentIdError : Type 0 where
  required contains_dots contains_separators bad_start unsupported_characters : AgentIdError

-- strings.Contains(s, "..")
contains_dots_in : Str → Bool
contains_dots_in [] = false
contains_dots_in (a ∷ []) = false
contains_dots_in (a ∷ b ∷ s) = (nat_eq a b'.' && nat_eq b b'.') || contains_dots_in (b ∷ s)

-- strings.ContainsAny(s, `/\`)
contains_separator : Str → Bool
contains_separator [] = false
contains_separator (a ∷ s) = nat_eq a b'/' || nat_eq a 92 || contains_separator s

module _ (unicode_letter_or_digit : ℕ → Bool) where
  letter_or_digit : ℕ → Bool
  letter_or_digit r =
      if ltb r 128
      then (leb b'a' r && leb r b'z') || (leb b'A' r && leb r b'Z') || (leb b'0' r && leb r b'9')
      else unicode_letter_or_digit r

  allowed : ℕ → Bool
  unfolding letter_or_digit
  allowed r = letter_or_digit r || nat_eq r b'-' || nat_eq r b'_' || nat_eq r b'.'

  -- The rounds of the loop after the first.
  check_rest : List ℕ → Option AgentIdError
  unfolding allowed
  check_rest [] = none
  check_rest (r ∷ rs) =
      let rest = check_rest rs in if allowed r then rest else some unsupported_characters

  check_runes : List ℕ → Option AgentIdError
  unfolding check_rest allowed letter_or_digit
  check_runes [] = none
  check_runes (r ∷ rs) =
      if allowed r
      then if letter_or_digit r then check_rest rs else some bad_start
      else some unsupported_characters

  -- The error, if there is one.
  unfoldable pub validate_agent_id : Str → Option AgentIdError
  unfolding contains_dots_in contains_separator check_runes
  validate_agent_id agent_id =
      let trimmed = trim_space agent_id in
      if is_empty trimmed
      then some required
      else if contains_dots_in trimmed
      then some contains_dots
      else if contains_separator trimmed
      then some contains_separators
      else check_runes (runes trimmed)
