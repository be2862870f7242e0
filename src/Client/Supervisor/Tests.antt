-- ===== src/Client/Supervisor/Tests.antt =====
-- The supervisor at concrete inputs, in a world where the factory 9 cannot start anything.
use agent_console.Prelude.{
  ℕ, ◌+◌, ◌≤◌, Str, str, ◌==◌, ◌≡◌, refl, true, false, none, some, List, [], ◌∷◌, nat_eq,
  if◌then◌else◌,
}
use agent_console.Prelude.Text.Trim.{trim_space}
use agent_console.Prelude.Text.Utf8.{runes}
use agent_console.Prelude.Text.Decimal.{decimal, decimal2}
use agent_console.Prelude.Sort.{sort_by}
use agent_console.Prelude.Dict
use agent_console.Client.AgentId.{validate_agent_id, contains_separators, bad_start}
use agent_console.Client.Supervisor.{
  World, ManagedAgentRecord, Supervisor, start_failed, candidate, next_agent_id, start_agent,
  stop_agent, start_all, sorted_records,
}
use agent_console.Client.Supervisor.FreshId.{next_agent_id_fresh}
use agent_console.Client.Supervisor.Running.{IsConsistent}
use agent_console.Client.Supervisor.Lifecycle.{
  Op, install, delete, restart, start_all_op, stop_all_op, run, run-IsConsistent,
}
use agent_console.Client.Supervisor.Rollback.{IsRolledBack, start_all_done, start_all_failed}

abbrev sample_world : World
sample_world = record {
  State = ℕ;
  start = λ w f r. (w + 1, if nat_eq f 9 then none else some (w, some w));
  cleanup = λ w c. (w, true);
  write_record = λ w r. (w, true);
  remove_all = λ w id. (w, true);
  unicode_letter_or_digit = λ r. false;
}

abbrev record_of : Str → Str → ManagedAgentRecord
record_of id agent_type = record {
  agent_id = id;
  agent_type = agent_type;
  display_name = str "Codex";
}

abbrev empty : Supervisor sample_world
empty = record {
  runtimes = [];
  factories = (str "codex", 1) ∷ (str "broken", 9) ∷ [];
  records = [];
  cleanups = [];
  status = [];
  state = 0;
}

bad_ids :
    (validate_agent_id (λ r. false) (str "a/b") ≡ some contains_separators)
    × (validate_agent_id (λ r. false) (str "-a") ≡ some bad_start)
    × (validate_agent_id (λ r. false) (str "agent-01") ≡ none)
unfolding validate_agent_id trim_space runes
bad_ids = (refl, refl, refl)

abbrev two_records : Supervisor sample_world
two_records = record empty {
  records =
      (str "agent-01", record_of (str "agent-01") (str "codex"))
      ∷ (str "agent-02", record_of (str "agent-02") (str "broken"))
      ∷ [];
}

third_id : next_agent_id two_records.records ≡ some (str "agent-03")
unfolding next_agent_id decimal2 decimal Dict.get ◌==◌
third_id = refl

next_agent_id_fresh_example :
    (j : ℕ) × (next_agent_id two_records.records ≡ some (candidate j))
    × (1 ≤ j)
    × (Dict.get two_records.records (candidate j) ≡ none)
unfolding Dict.get ◌==◌
next_agent_id_fresh_example = next_agent_id_fresh two_records.records (refl, (refl, tt))

empty-IsConsistent : IsConsistent empty
unfolding Dict.get
empty-IsConsistent = record {
  registered = λ id. refl;
  status_running = λ id. refl;
  recorded = λ id h. cc;
  own_id = λ id r e. cc;
  keyed = tt;
}

abbrev script : List Op
script =
    install (str "codex") (str "Codex")
    ∷ install (str "broken") (str "Other")
    ∷ restart (str "agent-01")
    ∷ start_all_op
    ∷ delete (str "agent-01")
    ∷ stop_all_op
    ∷ []

run-IsConsistent_example : IsConsistent (run sample_world script empty)
run-IsConsistent_example = run-IsConsistent sample_world script empty empty-IsConsistent

second_fails : (start_all sample_world two_records).1 ≡ some start_failed
unfolding start_all start_agent stop_agent sorted_records sort_by Dict.get Dict.put ◌==◌
second_fails = refl

start_all_failed_example :
    IsRolledBack
      (sorted_records two_records.records)
      []
      two_records
      start_failed
      (start_all sample_world two_records).0
start_all_failed_example = start_all_failed sample_world two_records start_failed second_fails

abbrev one_record : Supervisor sample_world
one_record = record empty {
  records = (str "agent-01", record_of (str "agent-01") (str "codex")) ∷ [];
}

first_starts : (start_all sample_world one_record).1 ≡ none
unfolding start_all start_agent sorted_records sort_by Dict.get Dict.put ◌==◌
first_starts = refl

start_all_done_example :
    Dict.has (start_all sample_world one_record).0.cleanups (str "agent-01") ≡ true
unfolding sorted_records sort_by ◌==◌
start_all_done_example = start_all_done sample_world one_record (str "agent-01") first_starts
