-- ===== src/Client/FakeAdapter.antt =====
-- client/internal/agent/codex/fake_adapter.go: the runtime that stands in for an agent's process. It keeps
-- threads, turns, settings and the resources of the environment in memory; the lock makes each
-- method one step. A method that can fail returns the state with its result. Here the threads, the
-- turns and the settings; the resources are in Resources.
pub mod Resources
pub mod Threads
pub mod Runs
pub mod Turns
pub mod Refinement
mod Tests
use agent_console.Prelude.{
  ℕ, ◌+◌, ◌%◌, ◌^◌, Str, str, ◌==◌, is_empty, Bool, true, false, not, ◌&&◌, Option, none, some,
  List, [], ◌∷◌, ◌++◌, length, if◌then◌else◌,
}
use agent_console.Prelude.Result.{Result, ok, err}
use agent_console.Prelude.Text.Trim.{trim_space}
use agent_console.Prelude.Text.Decimal.{decimal2}
use agent_console.Prelude.Dict
use agent_console.Prelude.Dict.{Dict}
use agent_console.Domain.Thread.{Thread, ThreadStatus}
use agent_console.Domain.Environment.{EnvironmentResource}
use agent_console.Domain.Turn.{
  Turn, TurnStatus, ThreadRuntimePreferences, ThreadRuntimePreferencePatch, ThreadRuntimeOptions,
  ThreadRuntimeSettings,
}

-- The two counters are ints, as their bit patterns.
pub record FakeAdapter : Type 0 where
  pub threads : List Thread
  pub turns : Dict Turn
  pub environment : List EnvironmentResource
  pub thread_runtime : Dict ThreadRuntimePreferences
  pub default_runtime : ThreadRuntimePreferences
  pub next_thread : ℕ
  pub next_turn : ℕ

pub data FakeError : Type 0 where
  thread_not_found turn_not_found resource_not_found name_required name_invalid id_required
        no_home :
      FakeError

abbrev pub new_fake_adapter : FakeAdapter
new_fake_adapter = record {
  threads = [];
  turns = [];
  environment = [];
  thread_runtime = [];
  default_runtime = record {
    model = str "gpt-5.4";
    approval_policy = str "on-request";
    sandbox_mode = str "workspace-write";
  };
  next_thread = 1;
  next_turn = 1;
}

unfoldable pub seed_snapshot : List Thread → List EnvironmentResource → FakeAdapter → FakeAdapter
seed_snapshot threads environment a = record a {
  threads = threads;
  turns = [];
  environment = environment;
  thread_runtime = [];
  next_thread = (length threads + 1) % 2 ^ 64;
}

-- fmt.Sprintf("thread-%02d", n) and fmt.Sprintf("turn-%02d", n), of an n that is not negative
abbrev pub thread_name : ℕ → Str
thread_name n = str "thread-" ++ decimal2 n

abbrev pub turn_name : ℕ → Str
turn_name n = str "turn-" ++ decimal2 n

-- a.threads[a.findThreadIndex(threadID)], none for the index -1
abbrev pub find_thread : Str → List Thread → Option Thread
find_thread id [] = none
find_thread id (t ∷ ts) = if t.thread_id == id then some t else find_thread id ts

-- a.threads[index].Status = status
abbrev pub set_status : Str → ThreadStatus → List Thread → List Thread
set_status id status [] = []
set_status id status (t ∷ ts) =
    if t.thread_id == id then record t { status = status } ∷ ts else t ∷ set_status id status ts

unfoldable pub create_thread : Str → FakeAdapter → FakeAdapter × Thread
create_thread title a =
    let thread : Thread = record {
      thread_id = thread_name a.next_thread;
      machine_id = [];
      agent_id = [];
      status = ThreadStatus.idle;
      title = title;
      last_activity_at = [];
      messages = [];
    } in
    (
      record a {
        next_thread = (a.next_thread + 1) % 2 ^ 64;
        threads = a.threads ++ (thread ∷ []);
        thread_runtime = Dict.put a.thread_runtime thread.thread_id a.default_runtime;
      },
      thread,
    )

abbrev pub found : Option Thread → Result FakeError Thread
found none = err thread_not_found
found (some t) = ok t

unfoldable pub read_thread : Str → FakeAdapter → Result FakeError Thread
read_thread id a = found (find_thread id a.threads)

abbrev or_default : Str → FakeAdapter → Dict ThreadRuntimePreferences
or_default id a =
    if Dict.has a.thread_runtime id
    then a.thread_runtime
    else Dict.put a.thread_runtime id a.default_runtime

resume_found : Str → Option Thread → FakeAdapter → FakeAdapter × Result FakeError Thread
resume_found id none a = (a, err thread_not_found)
resume_found id (some t) a = (
  record a {
    threads = set_status id ThreadStatus.idle a.threads;
    thread_runtime = or_default id a;
  },
  ok (record t { status = ThreadStatus.idle }),
)

unfoldable pub resume_thread : Str → FakeAdapter → FakeAdapter × Result FakeError Thread
unfolding resume_found
resume_thread id a = resume_found id (find_thread id a.threads) a

archive_found : Str → Option Thread → FakeAdapter → FakeAdapter × Option FakeError
archive_found id none a = (a, some thread_not_found)
archive_found id (some t) a =
    (record a { threads = set_status id ThreadStatus.not_loaded a.threads }, none)

unfoldable pub archive_thread : Str → FakeAdapter → FakeAdapter × Option FakeError
unfolding archive_found
archive_thread id a = archive_found id (find_thread id a.threads) a

-- The deltas of the answer of a turn, with their sequence numbers.
abbrev Deltas : Type 0
Deltas = List (ℕ × Str)

pub record TurnResult : Type 0 where
  pub turn_id : Str
  pub thread_id : Str
  pub deltas : Deltas

start_found : Str → Option Thread → FakeAdapter → FakeAdapter × Result FakeError TurnResult
start_found id none a = (a, err thread_not_found)
start_found id (some t) a = (
  record a {
    next_turn = (a.next_turn + 1) % 2 ^ 64;
    turns =
        Dict.put a.turns (turn_name a.next_turn) (record {
          turn_id = turn_name a.next_turn;
          thread_id = id;
          status = TurnStatus.completed;
        });
  },
  ok (record {
    turn_id = turn_name a.next_turn;
    thread_id = id;
    deltas = (1, str "assistant: thinking") ∷ (2, str "assistant: done") ∷ [];
  }),
)

unfoldable pub start_turn : Str → FakeAdapter → FakeAdapter × Result FakeError TurnResult
unfolding start_found
start_turn id a = start_found id (find_thread id a.threads) a

-- turn, ok := a.turns[turnID], of the thread
abbrev pub turn_of : Str → Option Turn → Option Turn
turn_of thread_id none = none
turn_of thread_id (some t) = if t.thread_id == thread_id then some t else none

unfoldable pub steered : Str → Str → Option Turn → Result FakeError TurnResult
steered thread_id turn_id none = err turn_not_found
steered thread_id turn_id (some t) = ok (record {
  turn_id = turn_id;
  thread_id = thread_id;
  deltas = (1, str "assistant: steer accepted") ∷ (2, str "assistant: updated") ∷ [];
})

unfoldable pub steer_turn : Str → Str → FakeAdapter → Result FakeError TurnResult
unfolding steered
steer_turn thread_id turn_id a =
    steered thread_id turn_id (turn_of thread_id (Dict.get a.turns turn_id))

interrupt_found : Str → Option Turn → FakeAdapter → FakeAdapter × Result FakeError Turn
interrupt_found turn_id none a = (a, err turn_not_found)
interrupt_found turn_id (some t) a =
    let turn = record t { status = TurnStatus.interrupted } in
    (record a { turns = Dict.put a.turns turn_id turn }, ok turn)

unfoldable pub interrupt_turn : Str → Str → FakeAdapter → FakeAdapter × Result FakeError Turn
unfolding interrupt_found
interrupt_turn thread_id turn_id a =
    interrupt_found turn_id (turn_of thread_id (Dict.get a.turns turn_id)) a

unfoldable pub fake_thread_runtime_options : ThreadRuntimeOptions
fake_thread_runtime_options = record {
  models =
      record { id = str "gpt-5.4"; display_name = str "GPT-5.4"; is_default = true }
      ∷ record { id = str "gpt-5.2"; display_name = str "GPT-5.2"; is_default = false }
      ∷ [];
  approval_policies = str "on-request" ∷ str "never" ∷ [];
  sandbox_modes = str "workspace-write" ∷ str "danger-full-access" ∷ str "read-only" ∷ [];
}

-- prefs == (domain.ThreadRuntimePreferences{})
abbrev is_zero : ThreadRuntimePreferences → Bool
is_zero p = is_empty p.model && is_empty p.approval_policy && is_empty p.sandbox_mode

-- The preferences of a thread; the default ones where there are none, or all of them are empty.
abbrev pub preferences_or :
    ThreadRuntimePreferences → Option ThreadRuntimePreferences → ThreadRuntimePreferences
preferences_or default none = default
preferences_or default (some p) = if is_zero p then default else p

abbrev settings_of : Str → ThreadRuntimePreferences → ThreadRuntimeSettings
settings_of id p = record { thread_id = id; preferences = p; options = fake_thread_runtime_options }

read_settings_found : Str → Option Thread → FakeAdapter → Result FakeError ThreadRuntimeSettings
read_settings_found id none a = err thread_not_found
read_settings_found id (some t) a =
    ok (settings_of id (preferences_or a.default_runtime (Dict.get a.thread_runtime id)))

unfoldable pub read_thread_runtime_settings :
    Str → FakeAdapter → Result FakeError ThreadRuntimeSettings
unfolding read_settings_found
read_thread_runtime_settings id a = read_settings_found id (find_thread id a.threads) a

abbrev pub patched : Str → Option Str → Str
patched current none = current
patched current (some value) = trim_space value

abbrev pub patch_preferences :
    ThreadRuntimePreferencePatch → ThreadRuntimePreferences → ThreadRuntimePreferences
patch_preferences patch p = record {
  model = patched p.model patch.model;
  approval_policy = patched p.approval_policy patch.approval_policy;
  sandbox_mode = patched p.sandbox_mode patch.sandbox_mode;
}

update_settings_found :
    Str
    → ThreadRuntimePreferencePatch
    → Option Thread
    → FakeAdapter
    → FakeAdapter × Result FakeError ThreadRuntimeSettings
update_settings_found id patch none a = (a, err thread_not_found)
update_settings_found id patch (some t) a =
    let next =
      patch_preferences patch (preferences_or a.default_runtime (Dict.get a.thread_runtime id)) in
    (record a { thread_runtime = Dict.put a.thread_runtime id next }, ok (settings_of id next))

unfoldable pub update_thread_runtime_settings :
    Str
    → ThreadRuntimePreferencePatch
    → FakeAdapter
    → FakeAdapter × Result FakeError ThreadRuntimeSettings
unfolding update_settings_found
update_thread_runtime_settings id patch a =
    update_settings_found id patch (find_thread id a.threads) a
