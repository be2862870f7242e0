-- ===== src/Prelude/Time.antt =====
-- What the program uses of the package `time`: time.Parse under the layouts RFC3339Nano and RFC3339,
-- the conversion to UTC, and Format(time.RFC3339). An instant is its nanoseconds since
-- the first of January of the year before the year 0, in UTC, so that `After` is `<`. A text of the
-- year 0 with an offset from UTC can name an instant of that year before; Format writes such an
-- instant with a negative year, which Parse does not take.
pub mod Sample
use Prim.Native.Nat.{ℕ, ◌*◌, ◌/◌, ◌<◌, ◌≤◌}
use mathlib.Core.Path.{◌≡◌}
use mathlib.Core.Option.{Option, some}
use agent_console.Prelude.Text.{Str, is_empty}
use agent_console.Prelude.Text.Trim.{trim_space}
use mathlib.Core.Bool.{false}

-- 0000-01-01T00:00:00Z, the first instant that RFC 3339 can write: 365 days.
abbrev pub year_zero : ℕ
year_zero = 31536000000000000

-- 10000-01-01T00:00:00Z, the first instant after those that RFC 3339 can write: 3652425 days later.
abbrev pub instant_limit : ℕ
instant_limit = 315601056000000000000

-- time.Time{}, which is 0001-01-01T00:00:00Z
abbrev pub zero_time : ℕ
zero_time = 63158400000000000

-- Format(time.RFC3339) writes whole seconds.
abbrev pub whole_seconds : ℕ → ℕ
whole_seconds t = t / 1000000000 * 1000000000

pub record TimeText : Type 0 where
  pub parse_nano : Str → Option ℕ
  pub parse_plain : Str → Option ℕ
  pub format : ℕ → Str
  -- A formatted instant has no white space round it and is not empty.
  pub format_trimmed : (t : ℕ) → trim_space (format t) ≡ format t
  pub format_nonempty : (t : ℕ) → is_empty (format t) ≡ false
  -- What Format wrote of an instant of the years 0 to 9999, Parse reads as the same instant without its
  -- fraction of a second.
  pub parse_format :
      (t : ℕ) → year_zero ≤ t → t < instant_limit → parse_nano (format t) ≡ some (whole_seconds t)
