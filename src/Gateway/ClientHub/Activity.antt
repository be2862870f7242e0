-- ===== src/Gateway/ClientHub/Activity.antt =====
-- client_hub.go: parseActivityTimestamp, normalizeActivityTimestamp and latestActivityTimestamp, and
-- that they compute what the runtime index computes by functions of its own.
use agent_console.Prelude.{ℕ, Str, is_empty, Option, none, some, [], ◌≡◌, arith, ltb, if◌then◌else◌}
use agent_console.Prelude.Text.Trim.{trim_space}
use agent_console.Prelude.Time.{TimeText, zero_time}
use agent_console.Gateway.RuntimeIndex.Activity.{
  parse_thread_activity, normalize_thread_activity, latest_thread_activity,
}

abbrev instant_or_zero : Option ℕ → ℕ
instant_or_zero none = zero_time
instant_or_zero (some t) = t

module _ (time : TimeText) where
  -- parsed, err := time.Parse(RFC3339Nano); if err != nil, time.Parse(RFC3339)
  parse_again : Str → Option ℕ → Option ℕ
  parse_again trimmed (some t) = some t
  parse_again trimmed none = time.parse_plain trimmed

  unfoldable pub parse_activity_timestamp : Str → Option ℕ
  unfolding parse_again
  parse_activity_timestamp value =
      let trimmed = trim_space value in
      if is_empty trimmed then none else parse_again trimmed (time.parse_nano trimmed)

  unfoldable pub normalize_activity_timestamp : Str → Str
  normalize_activity_timestamp value = elim (parse_activity_timestamp value) [
    | none ↦ []
    | some t ↦ time.format t
  ]

  unfoldable pub latest_activity_timestamp : Str → Str → Str
  latest_activity_timestamp current candidate =
      let current' = normalize_activity_timestamp current in
      let candidate' = normalize_activity_timestamp candidate in
      let current_time = instant_or_zero (parse_activity_timestamp current') in
      let candidate_time = instant_or_zero (parse_activity_timestamp candidate') in
      if is_empty current'
      then candidate'
      else if is_empty candidate'
      then current'
      else if ltb current_time candidate_time
      then candidate'
      else current'

  parse-eq : (s : Str) → parse_activity_timestamp s ≡ parse_thread_activity time s
  unfolding parse_activity_timestamp parse_thread_activity
  parse-eq s = ground arith

  normalize-eq : (s : Str) → normalize_activity_timestamp s ≡ normalize_thread_activity time s
  unfolding normalize_activity_timestamp normalize_thread_activity
  normalize-eq s = ground (arith, parse-eq s)

  -- The hub and the runtime index pick the same one of two time stamps.
  pub latest_activity_timestamp-eq-latest_thread_activity :
      (current candidate : Str)
      → latest_activity_timestamp current candidate ≡ latest_thread_activity time current candidate
  unfolding latest_activity_timestamp latest_thread_activity
  latest_activity_timestamp-eq-latest_thread_activity current candidate =
      rw (normalize-eq current, normalize-eq candidate)
        (ground (
          arith,
          parse-eq (normalize_thread_activity time current),
          parse-eq (normalize_thread_activity time candidate),
        ))
