-- ===== src/Gateway/RuntimeIndex/Threads.antt =====
-- What the operations of the index do to the threads of a machine.
use agent_console.Prelude.{
  Str, ◌==◌, eq_iff, is_empty, not, ◌&&◌, Option, none, some, List, [], ◌∷◌, ◌≡◌, ◌≢◌, refl, arith,
  if◌then◌else◌, map,
}
use agent_console.Prelude.Text.Trim.{trim_space}
use agent_console.Prelude.Lists.{keep}
use agent_console.Prelude.Dict
use agent_console.Prelude.Dict.{Dict}
use agent_console.Prelude.Time.{TimeText}
use agent_console.Domain.Thread.{Thread}
use agent_console.Gateway.RuntimeIndex.Activity.{latest_thread_activity}
use agent_console.Gateway.RuntimeIndex.{
  Store, threads_of, newer, upsert_in, upsert_thread, remove_thread, mark_threads,
  mark_machine_unknown, thread_route, set_unknown,
}

-- The first thread with an id, and the last one whose id is not blank.
abbrev pub find_thread : Str → List Thread → Option Thread
find_thread id [] = none
find_thread id (t ∷ ts) = let rest = find_thread id ts in if t.thread_id == id then some t else rest

abbrev pub or_thread : Option Thread → Option Thread → Option Thread
or_thread none b = b
or_thread (some t) b = some t

abbrev pub last_thread : Str → List Thread → Option Thread
last_thread id [] = none
last_thread id (t ∷ ts) =
    or_thread (last_thread id ts) (
      if is_empty (trim_space t.thread_id)
      then none
      else if t.thread_id == id
      then some t
      else none)

-- The predecessor of a thread: the last thread of the machine, before the snapshot, whose id is the
-- trimmed id of the thread.
abbrev pub predecessor : List Thread → Thread → Option Thread
predecessor previous t =
    let id = trim_space t.thread_id in if is_empty id then none else last_thread id previous

abbrev pub map_thread : (Thread → Thread) → Option Thread → Option Thread
map_thread f none = none
map_thread f (some t) = some (f t)

-- What a thread of a snapshot becomes in the index: of its own activity and its predecessor's it has the
-- one that latest_thread_activity finds.
abbrev pub merged : TimeText → List Thread → Thread → Thread
merged time previous t = elim (predecessor previous t) [
  | none ↦ t
  | some old ↦ record t {
    last_activity_at = latest_thread_activity time old.last_activity_at t.last_activity_at;
  }
]

find_thread-upsert_in :
    (time : TimeText) (t : Thread) (xs : List Thread) (id : Str)
    → find_thread id (upsert_in time t xs)
      ≡ (if t.thread_id == id then some (newer time t (find_thread id xs)) else find_thread id xs)
unfolding upsert_in
find_thread-upsert_in time t [] id = refl
find_thread-upsert_in time t (x ∷ xs) id = ground (
  arith,
  eq_iff x.thread_id t.thread_id,
  eq_iff x.thread_id id,
  eq_iff t.thread_id id,
  find_thread-upsert_in time t xs id,
)

-- The thread as it is stored: with its own machine, or else the machine of the call.
abbrev pub owned_by : Str → Thread → Thread
owned_by m t = record t { machine_id = if is_empty t.machine_id then m else t.machine_id }

-- After an upsert of a thread that has an id, on a machine that has one, the machine has that thread
-- under its id, with the later one of its own activity and that of the first thread that had the
-- id. Every other thread, of this machine and of the others, is found as before.
pub find_thread-upsert_thread :
    (time : TimeText) (m : Str) (t : Thread) (s : Store) (id k : Str)
    → m ≢ []
    → t.thread_id ≢ []
    → find_thread id (threads_of (upsert_thread time m t s) k) ≡ (
        if (m == k) && (t.thread_id == id)
        then some (newer time (owned_by m t) (find_thread id (threads_of s k)))
        else find_thread id (threads_of s k))
unfolding upsert_thread
find_thread-upsert_thread time m t s id k hm ht = ground (
  arith,
  eq_iff m k,
  Dict.get-put s.threads_by_machine m (upsert_in time (owned_by m t) (threads_of s m)) k,
  find_thread-upsert_in time (owned_by m t) (threads_of s m) id,
)

find_thread-keep :
    (gone id : Str) (ts : List Thread)
    → find_thread id (keep (λ t. not (t.thread_id == gone)) ts)
      ≡ (if gone == id then none else find_thread id ts)
find_thread-keep gone id [] = ground arith
find_thread-keep gone id (t ∷ ts) = ground (
  arith,
  eq_iff t.thread_id gone,
  eq_iff t.thread_id id,
  eq_iff gone id,
  find_thread-keep gone id ts,
)

-- After the removal of a thread from a machine, both ids given, the machine has no thread of that
-- id and the thread has no route, whichever machine owned it. All other threads and routes are as
-- before.
pub remove_thread_complete :
    (m gone : Str) (s : Store) (id k : Str)
    → m ≢ []
    → gone ≢ []
    → (find_thread id (threads_of (remove_thread m gone s) k)
        ≡ (if (m == k) && (gone == id) then none else find_thread id (threads_of s k)))
      × (thread_route (remove_thread m gone s) id
          ≡ (if gone == id then none else thread_route s id))
unfolding remove_thread thread_route
remove_thread_complete m gone s id k hm hg = ground (
  arith,
  eq_iff m k,
  Dict.get-remove s.thread_routes gone id,
  Dict.get-put s.threads_by_machine m (keep (λ t. not (t.thread_id == gone)) (threads_of s m)) k,
  find_thread-keep gone id (threads_of s m),
)

threads_of-mark_threads :
    (m k : Str) (ts : List Thread) (s : Store)
    → threads_of s m ≡ ts
    → threads_of (mark_threads m ts s) k ≡ (if m == k then map set_unknown ts else threads_of s k)
unfolding mark_threads
threads_of-mark_threads m k [] s e = ground (arith, eq_iff m k)
threads_of-mark_threads m k (t ∷ ts) s e =
    ground (arith, Dict.get-put s.threads_by_machine m (map set_unknown (t ∷ ts)) k)

routes-mark_threads :
    (m : Str) (ts : List Thread) (s : Store) → (mark_threads m ts s).thread_routes ≡ s.thread_routes
unfolding mark_threads
routes-mark_threads m [] s = refl
routes-mark_threads m (t ∷ ts) s = refl

-- Marking a machine unknown, its id not being empty, keeps its threads and their order, each with
-- the status `unknown`; the threads of the other machines and all routes are as before.
pub mark_machine_unknown_complete :
    (m k id : Str) (s : Store)
    → m ≢ []
    → (threads_of (mark_machine_unknown m s) k
        ≡ (if m == k then map set_unknown (threads_of s m) else threads_of s k))
      × (thread_route (mark_machine_unknown m s) id ≡ thread_route s id)
unfolding mark_machine_unknown thread_route
mark_machine_unknown_complete m k id s h = ground (
  arith,
  threads_of-mark_threads m k (threads_of s m) s refl,
  routes-mark_threads m (threads_of s m) s,
)
