-- ===== src/Client/FakeAdapter/Turns.antt =====
-- What becomes of a turn of the adapter.
use agent_console.Prelude.{
  ℕ, ◌+◌, ◌^◌, ◌<◌, Str, str, ◌==◌, eq_iff, true, some, List, [], ◌∷◌, ◌≡◌, refl, arith, Bool-cases,
  Option-cases, inl, inr, length,
}
use agent_console.Prelude.Text.{eq_refl}
use agent_console.Prelude.Text.Decimal.{decimal2-injective}
use agent_console.Prelude.Result.{ok}
use agent_console.Prelude.Dict
use agent_console.Domain.Thread.{Thread}
use agent_console.Domain.Turn.{Turn, TurnStatus}
use agent_console.Client.FakeAdapter.{
  FakeAdapter, TurnResult, turn_name, find_thread, create_thread, resume_thread, resume_found,
  archive_thread, archive_found, start_turn, start_found, steer_turn, steered, interrupt_turn,
  interrupt_found, update_thread_runtime_settings, update_settings_found, turn_of,
}
use agent_console.Client.FakeAdapter.Threads.{IsConsistent}
use agent_console.Client.FakeAdapter.Runs.{
  ThreadOp, create, resume, archive, start, interrupt, update, apply, run_ops, apply-IsConsistent,
  counters,
}

-- The adapter has the turn, as one of the thread.
pub record HasTurn (thread turn : Str) (a : FakeAdapter) : Type 0 where
  pub entry : Turn
  pub there : Dict.get a.turns turn ≡ some entry
  pub owner : entry.thread_id ≡ thread

turn_name-injective : (m n : ℕ) → turn_name m ≡ turn_name n → m ≡ n
turn_name-injective m n e = decimal2-injective m n (ground arith)

same-HasTurn :
    (thread turn : Str) (a b : FakeAdapter)
    → b.turns ≡ a.turns
    → HasTurn thread turn a
    → HasTurn thread turn b
same-HasTurn thread turn a b e h = record { entry = h.entry; there = rw e h.there; owner = h.owner }

-- A later turn has another name.
start-HasTurn :
    (id thread turn : Str) (a : FakeAdapter)
    → IsConsistent a
    → HasTurn thread turn a
    → HasTurn thread turn (start_turn id a).0
unfolding start_turn start_found
start-HasTurn id thread turn a c h = elim (Option-cases (find_thread id a.threads)) [
  | inl e ↦ rw e h
  | inr (t, e) ↦
      let name = turn_name a.next_turn in
      let new : Turn = record { turn_id = name; thread_id = id; status = TurnStatus.completed } in
      let (n, en, lt) = c.turns_named turn h.entry h.there in
      rw e (record {
        entry = h.entry;
        there = ground (
          arith,
          Dict.get-put a.turns name new turn,
          eq_iff name turn,
          turn_name-injective a.next_turn n,
          h.there,
        );
        owner = h.owner;
      })
]

interrupt-HasTurn :
    (thread0 turn0 thread turn : Str) (a : FakeAdapter)
    → HasTurn thread turn a
    → HasTurn thread turn (interrupt_turn thread0 turn0 a).0
unfolding interrupt_turn interrupt_found
interrupt-HasTurn thread0 turn0 thread turn a h =
    elim (Option-cases (turn_of thread0 (Dict.get a.turns turn0))) [
      | inl e ↦ rw e h
      | inr (t, e) ↦
          let stopped = record t { status = TurnStatus.interrupted } in
          elim (Bool-cases (turn0 == turn)) [
            | inl same ↦ rw e (record {
              entry = stopped;
              there = ground (arith, Dict.get-put a.turns turn0 stopped turn, same);
              owner = ground (arith, eq_iff turn0 turn, h.there, h.owner);
            })
            | inr other ↦ rw e (record {
              entry = h.entry;
              there = ground (arith, Dict.get-put a.turns turn0 stopped turn, other, h.there);
              owner = h.owner;
            })
          ]
    ]

apply-HasTurn :
    (op : ThreadOp) (thread turn : Str) (a : FakeAdapter)
    → IsConsistent a
    → HasTurn thread turn a
    → HasTurn thread turn (apply op a)
unfolding create_thread resume_thread resume_found archive_thread archive_found
    update_thread_runtime_settings update_settings_found
apply-HasTurn (create title) thread turn a c h = same-HasTurn thread turn a _ refl h
apply-HasTurn (resume id) thread turn a c h =
    same-HasTurn thread turn a (apply (resume id) a) (ground arith) h
apply-HasTurn (archive id) thread turn a c h =
    same-HasTurn thread turn a (apply (archive id) a) (ground arith) h
apply-HasTurn (start id) thread turn a c h = start-HasTurn id thread turn a c h
apply-HasTurn (interrupt thread0 turn0) thread turn a c h =
    interrupt-HasTurn thread0 turn0 thread turn a h
apply-HasTurn (update id patch) thread turn a c h =
    same-HasTurn thread turn a (apply (update id patch) a) (ground arith) h

run_ops-HasTurn :
    (ops : List ThreadOp) (thread turn : Str) (a : FakeAdapter)
    → a.next_thread + length ops < 2 ^ 63
    → a.next_turn + length ops < 2 ^ 63
    → IsConsistent a
    → HasTurn thread turn a
    → HasTurn thread turn (run_ops ops a)
run_ops-HasTurn [] thread turn a ht hu c h = h
run_ops-HasTurn (op ∷ ops) thread turn a ht hu c h =
    let (lt, lu) = counters op a (omega arith) (omega arith) in
    run_ops-HasTurn ops thread turn (apply op a) (omega arith) (omega arith)
      (apply-IsConsistent op a (omega arith) (omega arith) c) (apply-HasTurn op thread turn a c h)

abbrev pub steer_result : Str → Str → TurnResult
steer_result thread turn = record {
  turn_id = turn;
  thread_id = thread;
  deltas = (1, str "assistant: steer accepted") ∷ (2, str "assistant: updated") ∷ [];
}

abbrev pub start_result : Str → Str → TurnResult
start_result thread turn = record {
  turn_id = turn;
  thread_id = thread;
  deltas = (1, str "assistant: thinking") ∷ (2, str "assistant: done") ∷ [];
}

started_answer :
    (id : Str) (a : FakeAdapter) (t : Thread)
    → find_thread id a.threads ≡ some t
    → (start_turn id a).1 ≡ ok (start_result id (turn_name a.next_turn))
unfolding start_turn start_found
started_answer id a t e = rw e refl

started-HasTurn :
    (id : Str) (a : FakeAdapter) (t : Thread)
    → find_thread id a.threads ≡ some t
    → HasTurn id (turn_name a.next_turn) (start_turn id a).0
unfolding start_turn start_found
started-HasTurn id a t e =
    let name = turn_name a.next_turn in
    let new : Turn = record { turn_id = name; thread_id = id; status = TurnStatus.completed } in
    rw e (record {
      entry = new;
      there = ground (arith, Dict.get-put a.turns name new name, eq_iff name name);
      owner = refl;
    })

steer-HasTurn :
    (thread turn : Str) (a : FakeAdapter)
    → HasTurn thread turn a
    → steer_turn thread turn a ≡ ok (steer_result thread turn)
unfolding steer_turn steered
steer-HasTurn thread turn a h =
    let own : (h.entry.thread_id == thread) ≡ true = rw (h.owner) (eq_refl thread) in
    rw (h.there, own) refl

interrupted-HasTurn :
    (thread turn : Str) (a : FakeAdapter)
    → HasTurn thread turn a
    → (t : Turn) × ((interrupt_turn thread turn a).1 ≡ ok t)
      × (t.thread_id ≡ thread)
      × (t.status ≡ TurnStatus.interrupted)
unfolding interrupt_turn interrupt_found
interrupted-HasTurn thread turn a h =
    let own : (h.entry.thread_id == thread) ≡ true = rw (h.owner) (eq_refl thread) in
    (record h.entry { status = TurnStatus.interrupted }, rw (h.there, own) refl, h.owner, refl)

-- In a consistent adapter, a turn of a thread that exists starts, and StartTurn answers with its id, its
-- thread's and the two deltas. Whatever creations, resumptions and archivings of threads, starts
-- and interruptions of turns and changes of settings follow, the turn can be steered and
-- interrupted under these ids. The counters are to stay below 2 ^ 63.
pub start_turn-run_ops :
    (ops : List ThreadOp) (id : Str) (a : FakeAdapter) (t : Thread)
    → find_thread id a.threads ≡ some t
    → a.next_thread + (length ops + 1) < 2 ^ 63
    → a.next_turn + (length ops + 1) < 2 ^ 63
    → IsConsistent a
    → let turn = turn_name a.next_turn in
      let later = run_ops ops (start_turn id a).0 in
      ((start_turn id a).1 ≡ ok (start_result id turn))
      × (steer_turn id turn later ≡ ok (steer_result id turn))
      × ((stopped : Turn) × ((interrupt_turn id turn later).1 ≡ ok stopped)
          × (stopped.thread_id ≡ id)
          × (stopped.status ≡ TurnStatus.interrupted))
start_turn-run_ops ops id a t e ht hu c =
    let (lt, lu) = counters (start id) a (omega arith) (omega arith) in
    let has =
      run_ops-HasTurn ops id (turn_name a.next_turn) (start_turn id a).0 (omega arith) (omega arith)
        (apply-IsConsistent (start id) a (omega arith) (omega arith) c)
        (started-HasTurn id a t e) in
    (
      started_answer id a t e,
      steer-HasTurn id (turn_name a.next_turn) _ has,
      interrupted-HasTurn id (turn_name a.next_turn) _ has,
    )
