-- ===== src/Prelude/Time/Sample.antt =====
-- A text of instants in one byte per second, which meets what `TimeText` asks for.
use agent_console.Prelude.Text.{Str}
use agent_console.Prelude.Text.Trim.{trim_space}
use agent_console.Prelude.Time.{TimeText, year_zero, instant_limit, whole_seconds}
use Prim.Native.Nat.{ℕ, ◌+◌, ◌-◌, ◌*◌, ◌/◌, ◌<◌, ◌≤◌}
use mathlib.Core.Path.{◌≡◌, refl}
use mathlib.Core.Option.{Option, none, some}
use mathlib.Core.List.{[], ◌∷◌}
use native.Mathlib.Omega.{arith}

abbrev pub parse_byte : Str → Option ℕ
parse_byte (c ∷ []) = some ((c - 65) * 1000000000 + year_zero)
parse_byte _ = none

abbrev pub format_byte : ℕ → Str
format_byte t = (65 + (t - year_zero) / 1000000000) ∷ []

pub format_byte_trimmed : (t : ℕ) → trim_space (format_byte t) ≡ format_byte t
unfolding trim_space
format_byte_trimmed t = ground arith

pub parse_format_byte :
    (t : ℕ)
    → year_zero ≤ t
    → t < instant_limit
    → parse_byte (format_byte t) ≡ some (whole_seconds t)
parse_format_byte t low h = ground arith

abbrev pub sample_time : TimeText
sample_time = record {
  parse_nano = parse_byte;
  parse_plain = λ s. none;
  format = format_byte;
  format_trimmed = format_byte_trimmed;
  format_nonempty = λ t. refl;
  parse_format = parse_format_byte;
}
