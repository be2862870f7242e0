-- ===== src/Client/FakeAdapter/Threads.antt =====
-- The threads of the adapter: their ids are fresh, and turns and settings belong to threads that exist.
use agent_console.Prelude.{
  ℕ, ◌<◌, Str, ◌==◌, eq_iff, none, some, List, [], ◌∷◌, ◌++◌, ◌≡◌, ◌≢◌, refl, arith, Bool-cases,
  Option-cases, inl, inr, if◌then◌else◌,
}
use agent_console.Prelude.Text.Decimal.{decimal2-injective}
use agent_console.Prelude.Result.{ok, err}
use agent_console.Prelude.Dict
use agent_console.Domain.Thread.{Thread, ThreadStatus}
use agent_console.Domain.Turn.{Turn, ThreadRuntimePreferences}
use agent_console.Client.FakeAdapter.{
  FakeAdapter, FakeError, thread_name, turn_name, find_thread, set_status, create_thread,
  read_thread,
}

-- Every thread has a number below the counter in its id, every turn has one below its own counter and
-- belongs to a thread of the adapter, and settings are kept of threads only.
pub record IsConsistent (a : FakeAdapter) : Type 0 where
  pub threads_named :
      (id : Str) (t : Thread)
      → find_thread id a.threads ≡ some t
      → (n : ℕ) × (id ≡ thread_name n) × (n < a.next_thread)
  pub turns_named :
      (id : Str) (turn : Turn)
      → Dict.get a.turns id ≡ some turn
      → (n : ℕ) × (id ≡ turn_name n) × (n < a.next_turn)
  pub turns_owned :
      (id : Str) (turn : Turn)
      → Dict.get a.turns id ≡ some turn
      → (turn.turn_id ≡ id) × (find_thread turn.thread_id a.threads ≢ none)
  pub settings_owned :
      (id : Str) (p : ThreadRuntimePreferences)
      → Dict.get a.thread_runtime id ≡ some p
      → find_thread id a.threads ≢ none

thread_name-injective : (m n : ℕ) → thread_name m ≡ thread_name n → m ≡ n
thread_name-injective m n e = decimal2-injective m n (ground arith)

pub find-set_status :
    (id j : Str) (status : ThreadStatus) (ts : List Thread)
    → find_thread j (set_status id status ts) ≡ (elim (find_thread j ts) [
      | none ↦ none
      | some t ↦ if id == j then some (record t { status = status }) else some t
    ])
find-set_status id j status [] = refl
find-set_status id j status (t ∷ ts) = elim (Bool-cases (t.thread_id == id)) [
  | inl e ↦ rw e (ground (arith, eq_iff t.thread_id id, eq_iff id j, eq_iff t.thread_id j))
  | inr e ↦ rw e (
      ground (
        arith,
        find-set_status id j status ts,
        eq_iff t.thread_id id,
        eq_iff id j,
        eq_iff t.thread_id j,
      ))
]

pub find-append :
    (j : Str) (t : Thread) (ts : List Thread)
    → find_thread j (ts ++ (t ∷ [])) ≡ (elim (find_thread j ts) [
      | none ↦ if t.thread_id == j then some t else none
      | some old ↦ some old
    ])
find-append j t [] = refl
find-append j t (u ∷ ts) = ground (arith, find-append j t ts)

-- No thread has the id that the next one gets.
fresh :
    (a : FakeAdapter) → IsConsistent a → find_thread (thread_name a.next_thread) a.threads ≡ none
fresh a c = elim (Option-cases (find_thread (thread_name a.next_thread) a.threads)) [
  | inl e ↦ e
  | inr (t, e) ↦
      let (n, en, lt) = c.threads_named (thread_name a.next_thread) t e in
      ground (arith, thread_name-injective a.next_thread n en)
]

-- In a consistent adapter, a created thread is a new one: no thread had its id, it can be read from then
-- on, and every other thread reads as before.
pub read-create_thread :
    (title : Str) (a : FakeAdapter) (j : Str)
    → IsConsistent a
    → let (a', t) = create_thread title a in
      (read_thread t.thread_id a ≡ err FakeError.thread_not_found)
      × (read_thread j a' ≡ (if t.thread_id == j then ok t else read_thread j a))
unfolding create_thread read_thread
read-create_thread title a j c =
    let t = (create_thread title a).1 in
    (
      rw (fresh a c) refl,
      rw (find-append j t a.threads)
          (ground (arith, fresh a c, eq_iff (thread_name a.next_thread) j)),
    )
