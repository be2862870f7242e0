-- ===== src/Gateway/RuntimeIndex/Activity.antt =====
-- gateway/internal/runtimeindex/store.go: parseThreadActivity, normalizeThreadActivity and
-- latestThreadActivity, with what the last one computes.
use Prim.Native.Nat.{max}
use agent_console.Prelude.{
  ℕ, ◌<◌, ◌≤◌, Str, is_empty, Option, none, some, [], ◌≡◌, arith, ltb, if◌then◌else◌,
}
use agent_console.Prelude.Text.Trim.{trim_space}
use agent_console.Prelude.Time.{TimeText, year_zero, instant_limit, zero_time, whole_seconds}

-- The first of two attempts that succeeds.
abbrev or_try : Option ℕ → Option ℕ → Option ℕ
or_try none b = b
or_try (some t) b = some t

-- The instant of `parsed, _ := ...`, whose error is ignored.
abbrev or_zero : Option ℕ → ℕ
or_zero none = zero_time
or_zero (some t) = t

module _ (time : TimeText) where
  unfoldable pub parse_thread_activity : Str → Option ℕ
  parse_thread_activity raw =
      let value = trim_space raw in
      if is_empty value then none else or_try (time.parse_nano value) (time.parse_plain value)

  unfoldable pub normalize_thread_activity : Str → Str
  normalize_thread_activity raw = elim (parse_thread_activity raw) [
    | none ↦ []
    | some t ↦ time.format t
  ]

  later : Str → Str → Str
  later current candidate =
      if ltb (or_zero (parse_thread_activity current)) (or_zero (parse_thread_activity candidate))
      then candidate
      else current

  unfoldable pub latest_thread_activity : Str → Str → Str
  unfolding later
  latest_thread_activity current candidate =
      let current' = normalize_thread_activity current in
      let candidate' = normalize_thread_activity candidate in
      if is_empty current'
      then candidate'
      else if is_empty candidate'
      then current'
      else later current' candidate'

  parse-format :
      (t : ℕ)
      → year_zero ≤ t
      → t < instant_limit
      → parse_thread_activity (time.format t) ≡ some (whole_seconds t)
  unfolding parse_thread_activity
  parse-format t low h =
      ground (arith, time.format_trimmed t, time.format_nonempty t, time.parse_format t low h)

  normalize_some :
      (raw : Str) (t : ℕ)
      → parse_thread_activity raw ≡ some t
      → normalize_thread_activity raw ≡ time.format t
  unfolding normalize_thread_activity
  normalize_some raw t p = ground arith

  normalize_none :
      (raw : Str) → parse_thread_activity raw ≡ none → normalize_thread_activity raw ≡ []
  unfolding normalize_thread_activity
  normalize_none raw p = ground arith

  -- Two time stamps that name instants of the years 0 to 9999, in UTC: the result names the later of
  -- them, in whole seconds.
  pub latest_thread_activity-max :
      (current candidate : Str) (t u : ℕ)
      → parse_thread_activity current ≡ some t
      → parse_thread_activity candidate ≡ some u
      → year_zero ≤ t
      → t < instant_limit
      → year_zero ≤ u
      → u < instant_limit
      → parse_thread_activity (latest_thread_activity current candidate)
        ≡ some (max (whole_seconds t) (whole_seconds u))
  unfolding latest_thread_activity
  latest_thread_activity-max current candidate t u p q lt ht lu hu =
      rw (normalize_some current t p, normalize_some candidate u q)
        (ground (
          arith,
          time.format_nonempty t,
          time.format_nonempty u,
          parse-format t lt ht,
          parse-format u lu hu,
        ))

  -- A text that names no instant counts for nothing: the other one is normalised and returned.
  pub latest_thread_activity_unparsed :
      (current candidate : Str)
      → parse_thread_activity current ≡ none
      → (latest_thread_activity current candidate ≡ normalize_thread_activity candidate)
        × (latest_thread_activity candidate current ≡ normalize_thread_activity candidate)
  unfolding latest_thread_activity
  latest_thread_activity_unparsed current candidate p = ground (arith, normalize_none current p)
