-- ===== src/Gateway/RuntimeIndex/Mirrored.antt =====
-- What a snapshot leaves in the index, for a client that keeps the snapshots as well.
use agent_console.Prelude.{
  Str, ◌==◌, Option, none, some, List, [], ◌∷◌, ◌≡◌, refl, arith, if◌then◌else◌, map, Bool-cases,
  inl, inr,
}
use agent_console.Prelude.Dict
use agent_console.Prelude.Dict.{Dict}
use agent_console.Prelude.Time.{TimeText}
use agent_console.Domain.Thread.{Thread}
use agent_console.Domain.Environment.{EnvironmentResource}
use agent_console.Gateway.RuntimeIndex.{
  Store, threads_of, index_threads, newer, refresh, replace_snapshot, mark_threads,
  mark_machine_unknown,
}

-- A thread, but for the time of its last activity.
abbrev pub forget_activity : Thread → Thread
forget_activity t = record t { last_activity_at = [] }

forget_activity-newer :
    (time : TimeText) (t : Thread) (o : Option Thread)
    → forget_activity (newer time t o) ≡ forget_activity t
forget_activity-newer time t none = refl
forget_activity-newer time t (some e) = refl

forget_activity-refresh :
    (time : TimeText) (d : Dict Thread) (ts : List Thread)
    → map forget_activity (map (refresh time d) ts) ≡ map forget_activity ts
unfolding refresh
forget_activity-refresh time d [] = refl
forget_activity-refresh time d (t ∷ ts) =
    ground (arith, forget_activity-newer time t, forget_activity-refresh time d ts)

-- The threads of the machine are those of the snapshot, in its order, but for their last activity;
-- the other machines keep theirs.
pub threads-replace_snapshot :
    (time : TimeText) (m : Str) (ts : List Thread) (env : List EnvironmentResource) (s : Store)
    (k : Str)
    → map forget_activity (threads_of (replace_snapshot time m ts env s) k)
      ≡ (if m == k then map forget_activity ts else map forget_activity (threads_of s k))
unfolding replace_snapshot
threads-replace_snapshot time m ts env s k = rw (Dict.get-put) (elim (Bool-cases (m == k)) [
  | inl e ↦ rw e (forget_activity-refresh time (index_threads (threads_of s m) []) ts)
  | inr e ↦ rw e refl
])

pub environment-replace_snapshot :
    (time : TimeText) (m : Str) (ts : List Thread) (env : List EnvironmentResource) (s : Store)
    (k : Str)
    → Dict.get (replace_snapshot time m ts env s).environment_by_machine k
      ≡ (if m == k then some env else Dict.get s.environment_by_machine k)
unfolding replace_snapshot
environment-replace_snapshot time m ts env s k = Dict.get-put s.environment_by_machine m env k

environment-mark_threads :
    (m : Str) (ts : List Thread) (s : Store)
    → (mark_threads m ts s).environment_by_machine ≡ s.environment_by_machine
unfolding mark_threads
environment-mark_threads m [] s = refl
environment-mark_threads m (t ∷ ts) s = refl

pub environment-mark_machine_unknown :
    (m : Str) (s : Store)
    → (mark_machine_unknown m s).environment_by_machine ≡ s.environment_by_machine
unfolding mark_machine_unknown
environment-mark_machine_unknown m s = ground (arith, environment-mark_threads m (threads_of s m) s)
