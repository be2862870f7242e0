-- ===== src/Client/FakeAdapter/Runs.antt =====
-- Sequences of the operations on the adapter's threads and turns.
use agent_console.Prelude.{
  ◌+◌, ◌^◌, ◌≤◌, ◌<◌, Str, ◌==◌, eq_iff, none, some, List, [], ◌∷◌, ◌≡◌, ◌≢◌, arith, Bool-cases,
  Option-cases, inl, inr, length,
}
use agent_console.Prelude.Dict
use agent_console.Prelude.Dict.{Dict}
use agent_console.Domain.Thread.{ThreadStatus}
use agent_console.Domain.Turn.{
  Turn, TurnStatus, ThreadRuntimePreferences, ThreadRuntimePreferencePatch,
}
use agent_console.Client.FakeAdapter.{
  FakeAdapter, thread_name, turn_name, find_thread, set_status, create_thread, resume_thread,
  resume_found, archive_thread, archive_found, start_turn, start_found, interrupt_turn,
  interrupt_found, update_thread_runtime_settings, update_settings_found, turn_of,
  patch_preferences, preferences_or, or_default,
}
use agent_console.Client.FakeAdapter.Threads.{IsConsistent, find-set_status, find-append}

pub data ThreadOp : Type 0 where
  create resume archive start : Str → ThreadOp
  interrupt : Str → Str → ThreadOp
  update : Str → ThreadRuntimePreferencePatch → ThreadOp

abbrev pub apply : ThreadOp → FakeAdapter → FakeAdapter
apply (create title) a = (create_thread title a).0
apply (resume id) a = (resume_thread id a).0
apply (archive id) a = (archive_thread id a).0
apply (start id) a = (start_turn id a).0
apply (interrupt thread turn) a = (interrupt_turn thread turn a).0
apply (update id patch) a = (update_thread_runtime_settings id patch a).0

abbrev pub run_ops : List ThreadOp → FakeAdapter → FakeAdapter
run_ops [] a = a
run_ops (op ∷ ops) a = run_ops ops (apply op a)

-- The counters, which move on by one at most.
pub counters :
    (op : ThreadOp) (a : FakeAdapter)
    → a.next_thread + 1 < 2 ^ 63
    → a.next_turn + 1 < 2 ^ 63
    → ((apply op a).next_thread ≤ a.next_thread + 1) × ((apply op a).next_turn ≤ a.next_turn + 1)
unfolding create_thread resume_thread resume_found archive_thread archive_found start_turn
    start_found interrupt_turn interrupt_found update_thread_runtime_settings update_settings_found
counters (create title) a ht hu = (omega arith, omega arith)
counters (resume id) a ht hu = (ground arith, ground arith)
counters (archive id) a ht hu = (ground arith, ground arith)
counters (start id) a ht hu = (ground arith, ground arith)
counters (interrupt thread turn) a ht hu = (ground arith, ground arith)
counters (update id patch) a ht hu = (ground arith, ground arith)

create-IsConsistent :
    (title : Str) (a : FakeAdapter)
    → a.next_thread + 1 < 2 ^ 63
    → IsConsistent a
    → IsConsistent (create_thread title a).0
unfolding create_thread
create-IsConsistent title a hn c =
    let t = (create_thread title a).1 in
    record {
      threads_named = λ id u e. elim (Option-cases (find_thread id a.threads)) [
        | inl new ↦ (
          a.next_thread,
          ground (arith, find-append id t a.threads, eq_iff (thread_name a.next_thread) id),
          omega arith,
        )
        | inr (old, eo) ↦ let (n, en, lt) = c.threads_named id old eo in (n, en, omega arith)
      ];
      turns_named = c.turns_named;
      turns_owned = λ id turn e.
          let (eid, owned) = c.turns_owned id turn e in
          (eid, ground (arith, find-append turn.thread_id t a.threads, owned));
      settings_owned = λ id p e. ground (
        arith,
        find-append id t a.threads,
        Dict.get-put a.thread_runtime (thread_name a.next_thread) a.default_runtime id,
        eq_iff (thread_name a.next_thread) id,
        c.settings_owned id p,
      );
    }

-- The status of a thread has no part in it.
status-IsConsistent :
    (id : Str) (status : ThreadStatus) (runtime : Dict ThreadRuntimePreferences) (a : FakeAdapter)
    → ((j : Str) (p : ThreadRuntimePreferences)
        → Dict.get runtime j ≡ some p
        → find_thread j a.threads ≢ none)
    → IsConsistent a
    → IsConsistent (record a { threads = set_status id status a.threads; thread_runtime = runtime })
status-IsConsistent id status runtime a owned c = record {
  threads_named = λ j u e. elim (Option-cases (find_thread j a.threads)) [
    | inl missing ↦ ground (arith, find-set_status id j status a.threads)
    | inr (old, eo) ↦ c.threads_named j old eo
  ];
  turns_named = c.turns_named;
  turns_owned = λ j turn e.
      let (eid, has) = c.turns_owned j turn e in
      (eid, ground (arith, find-set_status id turn.thread_id status a.threads, has));
  settings_owned = λ j p e. ground (arith, find-set_status id j status a.threads, owned j p e);
}

resume-IsConsistent :
    (id : Str) (a : FakeAdapter) → IsConsistent a → IsConsistent (resume_thread id a).0
unfolding resume_thread resume_found
resume-IsConsistent id a c = elim (Option-cases (find_thread id a.threads)) [
  | inl e ↦ rw e c
  | inr (t, e) ↦ rw e (
      status-IsConsistent id ThreadStatus.idle (or_default id a) a
        (λ j p ep. ground (
          arith,
          Dict.get-put a.thread_runtime id a.default_runtime j,
          eq_iff id j,
          c.settings_owned j p,
        ))
        c)
]

archive-IsConsistent :
    (id : Str) (a : FakeAdapter) → IsConsistent a → IsConsistent (archive_thread id a).0
unfolding archive_thread archive_found
archive-IsConsistent id a c = elim (Option-cases (find_thread id a.threads)) [
  | inl e ↦ rw e c
  | inr (t, e) ↦
      rw e (status-IsConsistent id ThreadStatus.not_loaded a.thread_runtime a c.settings_owned c)
]

start-IsConsistent :
    (id : Str) (a : FakeAdapter)
    → a.next_turn + 1 < 2 ^ 63
    → IsConsistent a
    → IsConsistent (start_turn id a).0
unfolding start_turn start_found
start-IsConsistent id a hn c = elim (Option-cases (find_thread id a.threads)) [
  | inl e ↦ rw e c
  | inr (t, e) ↦
      let name = turn_name a.next_turn in
      let new : Turn = record { turn_id = name; thread_id = id; status = TurnStatus.completed } in
      rw e (record {
        threads_named = c.threads_named;
        turns_named = λ j turn ej. elim (Bool-cases (name == j)) [
          | inl same ↦ (a.next_turn, ground (arith, eq_iff name j), omega arith)
          | inr other ↦
              let (n, en, lt) =
                c.turns_named j turn (ground (arith, Dict.get-put a.turns name new j)) in
              (n, en, omega arith)
        ];
        turns_owned = λ j turn ej. elim (Bool-cases (name == j)) [
          | inl same ↦ ground (arith, eq_iff name j, Dict.get-put a.turns name new j)
          | inr other ↦ c.turns_owned j turn (ground (arith, Dict.get-put a.turns name new j))
        ];
        settings_owned = c.settings_owned;
      })
]

interrupt-IsConsistent :
    (thread turn : Str) (a : FakeAdapter)
    → IsConsistent a
    → IsConsistent (interrupt_turn thread turn a).0
unfolding interrupt_turn interrupt_found
interrupt-IsConsistent thread turn a c =
    elim (Option-cases (turn_of thread (Dict.get a.turns turn))) [
      | inl e ↦ rw e c
      | inr (t, e) ↦
          let found : Dict.get a.turns turn ≡ some t = ground arith in
          let stopped = record t { status = TurnStatus.interrupted } in
          rw e (record {
            threads_named = c.threads_named;
            turns_named = λ j u ej. elim (Bool-cases (turn == j)) [
              | inl same ↦ c.turns_named j t (ground (arith, eq_iff turn j))
              | inr other ↦ c.turns_named j u (ground (arith, Dict.get-put a.turns turn stopped j))
            ];
            turns_owned = λ j u ej. elim (Bool-cases (turn == j)) [
              | inl same ↦ ground (
                arith,
                eq_iff turn j,
                Dict.get-put a.turns turn stopped j,
                c.turns_owned turn t found,
              )
              | inr other ↦ c.turns_owned j u (ground (arith, Dict.get-put a.turns turn stopped j))
            ];
            settings_owned = c.settings_owned;
          })
    ]

update-IsConsistent :
    (id : Str) (patch : ThreadRuntimePreferencePatch) (a : FakeAdapter)
    → IsConsistent a
    → IsConsistent (update_thread_runtime_settings id patch a).0
unfolding update_thread_runtime_settings update_settings_found
update-IsConsistent id patch a c = elim (Option-cases (find_thread id a.threads)) [
  | inl e ↦ rw e c
  | inr (t, e) ↦
      let next =
        patch_preferences patch (preferences_or a.default_runtime (Dict.get a.thread_runtime id)) in
      rw e (record {
        threads_named = c.threads_named;
        turns_named = c.turns_named;
        turns_owned = c.turns_owned;
        settings_owned = λ j p ep.
            ground (
              arith,
              Dict.get-put a.thread_runtime id next j,
              eq_iff id j,
              c.settings_owned j p,
              e,
            );
      })
]

pub apply-IsConsistent :
    (op : ThreadOp) (a : FakeAdapter)
    → a.next_thread + 1 < 2 ^ 63
    → a.next_turn + 1 < 2 ^ 63
    → IsConsistent a
    → IsConsistent (apply op a)
apply-IsConsistent (create title) a ht hu c = create-IsConsistent title a ht c
apply-IsConsistent (resume id) a ht hu c = resume-IsConsistent id a c
apply-IsConsistent (archive id) a ht hu c = archive-IsConsistent id a c
apply-IsConsistent (start id) a ht hu c = start-IsConsistent id a hu c
apply-IsConsistent (interrupt thread turn) a ht hu c = interrupt-IsConsistent thread turn a c
apply-IsConsistent (update id patch) a ht hu c = update-IsConsistent id patch a c

-- From a consistent adapter, any creations, resumptions and archivings of threads, starts and interruptions
-- of turns and changes of settings, refused ones included, lead to a consistent one: the ids stay below the counters, every turn belongs to a thread that exists, and
-- settings are kept of existing threads only. The counters are to stay below 2 ^ 63.
pub run_ops-IsConsistent :
    (ops : List ThreadOp) (a : FakeAdapter)
    → a.next_thread + length ops < 2 ^ 63
    → a.next_turn + length ops < 2 ^ 63
    → IsConsistent a
    → IsConsistent (run_ops ops a)
run_ops-IsConsistent [] a ht hu c = c
run_ops-IsConsistent (op ∷ ops) a ht hu c =
    let (lt, lu) = counters op a (omega arith) (omega arith) in
    run_ops-IsConsistent ops (apply op a) (omega arith) (omega arith)
      (apply-IsConsistent op a (omega arith) (omega arith) c)
