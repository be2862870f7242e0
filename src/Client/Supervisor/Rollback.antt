-- ===== src/Client/Supervisor/Rollback.antt =====
-- What StartAll leaves behind: every agent running, or after an error none of those that it passed.
use agent_console.Prelude.{
  ◌||◌, ◌++◌, ◌⊎◌, ℕ, Str, ◌==◌, eq_iff, Bool, true, false, Option, none, some, List, [], ◌∷◌, ◌≡◌,
  refl, ap, arith, if◌then◌else◌, Bool-cases, inl, inr,
}
use agent_console.Prelude.Dict
use agent_console.Prelude.Dict.{Dict, IsKeyed}
use agent_console.Client.Supervisor.{
  World, ManagedAgentRecord, SupervisorError, Supervisor, started, start_by, start_agent,
  stop_agent, stop_started, start_each, start_all, after_start, sorted_records,
}
use agent_console.Client.Supervisor.Lifecycle.{cleanups-stop_agent, start_agent_failed}

-- `id` is one of the ids.
abbrev pub elem : Str → List Str → Bool
elem id [] = false
elem id (j ∷ js) = j == id || elem id js

abbrev pub ids_of : List ManagedAgentRecord → List Str
ids_of [] = []
ids_of (r ∷ rs) = r.agent_id ∷ ids_of rs

module _ {world : World} where
  has-stop_agent :
      (id j : Str) (s : Supervisor world)
      → Dict.has (stop_agent world id s).0.cleanups j
        ≡ (if id == j then false else Dict.has s.cleanups j)
  has-stop_agent id j s =
      rw (cleanups-stop_agent id s) (ground (arith, Dict.get-remove s.cleanups id j))

  -- The rollback stops the agents that it is given, and no other.
  has-stop_started :
      (ids : List Str) (j : Str) (s : Supervisor world)
      → Dict.has (stop_started world ids s).cleanups j
        ≡ (if elem j ids then false else Dict.has s.cleanups j)
  unfolding stop_started
  has-stop_started [] j s = refl
  has-stop_started (id ∷ ids) j s =
      ground (arith, has-stop_started ids j (stop_agent world id s).0, has-stop_agent id j s)

  started-has :
      (r : ManagedAgentRecord) (s : Supervisor world) (o : world.State × Option (ℕ × Option ℕ))
      (j : Str)
      → (started world r s o).1 ≡ none
      → Dict.has (started world r s o).0.cleanups j
        ≡ (if r.agent_id == j then true else Dict.has s.cleanups j)
  unfolding started
  started-has r s (w, none) j h = cc
  started-has r s (w, some (runtime, cleanup)) j h =
      ground (arith, Dict.get-put s.cleanups r.agent_id cleanup j)

  start_by-has :
      (f : Option ℕ) (r : ManagedAgentRecord) (s : Supervisor world) (j : Str)
      → (start_by world f r s).1 ≡ none
      → Dict.has (start_by world f r s).0.cleanups j
        ≡ (if r.agent_id == j then true else Dict.has s.cleanups j)
  unfolding start_by
  start_by-has none r s j h = cc
  start_by-has (some f) r s j h = started-has r s (world.start s.state f r) j h

  -- After a start that returns no error the agent runs; the others run as before.
  has-start_agent :
      (r : ManagedAgentRecord) (s : Supervisor world) (j : Str)
      → (start_agent world r s).1 ≡ none
      → Dict.has (start_agent world r s).0.cleanups j
        ≡ (if r.agent_id == j then true else Dict.has s.cleanups j)
  unfolding start_agent
  has-start_agent r s j h = elim (Bool-cases (Dict.has s.cleanups r.agent_id)) [
    | inl e ↦ rw e (ground (arith, eq_iff r.agent_id j, e))
    | inr e ↦ rw e (start_by-has (Dict.get s.factories r.agent_type) r s j (rw e at h))
  ]

  -- The supervisor after the agents of some records were started, one after the other.
  abbrev pub after_starts : List ManagedAgentRecord → Supervisor world → Supervisor world
  after_starts [] s = s
  after_starts (r ∷ rs) s = after_starts rs (start_agent world r s).0

  -- Each of these starts returns no error.
  abbrev pub AllStart : List ManagedAgentRecord → Supervisor world → Type 0
  AllStart [] s = Unit
  AllStart (r ∷ rs) s = ((start_agent world r s).1 ≡ none) × AllStart rs (start_agent world r s).0

  -- From `s`, the agents of `before`, the first ones of the loop, started without an error; then the
  -- start of `failing` returned `e`. Neither those that the loop had begun with, nor `before`, nor
  -- `failing` runs after the rollback.
  pub record IsRolledBack (rs : List ManagedAgentRecord) (begun : List Str) (s : Supervisor world)
      (e : SupervisorError) (t : Supervisor world) : Type 0 where
    pub before : List ManagedAgentRecord
    pub failing : ManagedAgentRecord
    pub after : List ManagedAgentRecord
    pub parts : rs ≡ before ++ (failing ∷ after)
    pub fine : AllStart before s
    pub refused : (start_agent world failing (after_starts before s)).1 ≡ some e
    pub stopped :
        (j : Str)
        → (if elem j begun
            then false
            else if elem j (ids_of before)
            then false
            else if failing.agent_id == j
            then false
            else Dict.has t.cleanups j)
          ≡ Dict.has t.cleanups j

  after_start_failed :
      (begun : List Str) (a rest : Supervisor world × Option SupervisorError) (e : SupervisorError)
      → (after_start world begun a rest).1 ≡ some e
      → ((a.1 ≡ none) × (after_start world begun a rest ≡ rest))
        ⊎ ((x : SupervisorError) × (a.1 ≡ some x)
            × (x ≡ e)
            × ((after_start world begun a rest).0 ≡ stop_started world begun a.0))
  unfolding after_start
  after_start_failed begun (s, none) rest e h = inl (refl, refl)
  after_start_failed begun (s, some x) rest e h = inr (x, refl, ground arith, refl)

  start_each_failed :
      (rs : List ManagedAgentRecord) (begun : List Str) (s : Supervisor world) (e : SupervisorError)
      → (start_each world rs begun s).1 ≡ some e
      → IsRolledBack rs begun s e (start_each world rs begun s).0
  unfolding start_each
  start_each_failed [] begun s e h = cc
  start_each_failed (r ∷ rs) begun s e h =
      let rest = start_each world rs (r.agent_id ∷ begun) (start_agent world r s).0 in
      elim (after_start_failed begun (start_agent world r s) rest e h) [
        | inl (ok_, same) ↦
            let ih =
              start_each_failed rs (r.agent_id ∷ begun) (start_agent world r s).0 e
                (rw same at h) in
            record {
              before = r ∷ ih.before;
              failing = ih.failing;
              after = ih.after;
              parts = ap (λ l. r ∷ l) ih.parts;
              fine = (ok_, ih.fine);
              refused = ih.refused;
              stopped = λ j. rw same (ground (arith, ih.stopped j));
            }
        | inr (x, bad, same, end_) ↦
            let failed = start_agent_failed r s x bad in
            record {
              before = [];
              failing = r;
              after = rs;
              parts = refl;
              fine = tt;
              refused = rw same at bad;
              stopped = λ j.
                  rw (end_, has-stop_started begun j (start_agent world r s).0, failed.0)
                    (ground (arith, eq_iff r.agent_id j, failed.1));
            }
      ]

  after_start_done :
      (begun : List Str) (a rest : Supervisor world × Option SupervisorError)
      → (after_start world begun a rest).1 ≡ none
      → (a.1 ≡ none) × (after_start world begun a rest ≡ rest)
  unfolding after_start
  after_start_done begun (s, none) rest h = (refl, refl)
  after_start_done begun (s, some x) rest h = cc

  start_each_done :
      (rs : List ManagedAgentRecord) (begun : List Str) (s : Supervisor world) (j : Str)
      → (start_each world rs begun s).1 ≡ none
      → Dict.has (start_each world rs begun s).0.cleanups j
        ≡ (if elem j (ids_of rs) then true else Dict.has s.cleanups j)
  unfolding start_each
  start_each_done [] begun s j h = refl
  start_each_done (r ∷ rs) begun s j h =
      let s' = (start_agent world r s).0 in
      let rest = start_each world rs (r.agent_id ∷ begun) s' in
      let (fine, same) = after_start_done begun (start_agent world r s) rest h in
      rw same (
        ground (
          arith,
          start_each_done rs (r.agent_id ∷ begun) s' j (rw same at h),
          has-start_agent r s j fine,
        ))

-- StartAll that returns no error: every agent that has a record runs, and the other agents are as
-- they were.
pub start_all_done :
    (world : World) (s : Supervisor world) (j : Str)
    → (start_all world s).1 ≡ none
    → Dict.has (start_all world s).0.cleanups j
      ≡ (if elem j (ids_of (sorted_records s.records)) then true else Dict.has s.cleanups j)
unfolding start_all
start_all_done world s j h = start_each_done (sorted_records s.records) [] s j h

-- StartAll that returns an error went through the records in the order of the ids: the starts of the
-- first ones returned no error, and the start after them returned the error of the call. The agent
-- of this start does not run afterwards, nor does any agent of the records before it, also where
-- it ran before the call.
pub start_all_failed :
    (world : World) (s : Supervisor world) (e : SupervisorError)
    → (start_all world s).1 ≡ some e
    → IsRolledBack (sorted_records s.records) [] s e (start_all world s).0
unfolding start_all
start_all_failed world s e h = start_each_failed (sorted_records s.records) [] s e h
