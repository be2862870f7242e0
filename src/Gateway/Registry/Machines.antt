-- ===== src/Gateway/Registry/Machines.antt =====
-- The machines of the registry: what an update keeps, what going offline resets, and the invariant.
use agent_console.Prelude.{
  Str, ◌==◌, eq_iff, is_empty, Option, none, some, List, [], ◌∷◌, ◌≡◌, ◌≢◌, refl, sym, arith,
  if◌then◌else◌, map, Option-cases, inl, inr,
}
use agent_console.Prelude.Dict
use agent_console.Domain.Machine.{
  AgentInstance, AgentInstanceStatus, Machine, MachineStatus, MachineRuntimeStatus,
}
use agent_console.Gateway.Registry.{
  Store, get_machine, is_unset_or_unknown, or_agents, or_unknown, merge_existing, upsert,
  offline_machine, mark_offline,
}

-- The runtime status that is stored: the new one where it tells something, else the old one, and
-- `unknown` where neither does.
abbrev pub runtime_status_after : MachineRuntimeStatus → MachineRuntimeStatus → MachineRuntimeStatus
runtime_status_after MachineRuntimeStatus.running old = MachineRuntimeStatus.running
runtime_status_after MachineRuntimeStatus.stopped old = MachineRuntimeStatus.stopped
runtime_status_after (MachineRuntimeStatus.other t) old = MachineRuntimeStatus.other t
runtime_status_after MachineRuntimeStatus.unset MachineRuntimeStatus.unset =
    MachineRuntimeStatus.unknown
runtime_status_after MachineRuntimeStatus.unknown MachineRuntimeStatus.unset =
    MachineRuntimeStatus.unknown
runtime_status_after _ old = old

runtime_status_after-eq :
    (new old : MachineRuntimeStatus)
    → runtime_status_after new old ≡ or_unknown (if is_unset_or_unknown new then old else new)
runtime_status_after-eq MachineRuntimeStatus.unset MachineRuntimeStatus.unset = refl
runtime_status_after-eq MachineRuntimeStatus.unset MachineRuntimeStatus.unknown = refl
runtime_status_after-eq MachineRuntimeStatus.unset MachineRuntimeStatus.running = refl
runtime_status_after-eq MachineRuntimeStatus.unset MachineRuntimeStatus.stopped = refl
runtime_status_after-eq MachineRuntimeStatus.unset (MachineRuntimeStatus.other t) = refl
runtime_status_after-eq MachineRuntimeStatus.unknown MachineRuntimeStatus.unset = refl
runtime_status_after-eq MachineRuntimeStatus.unknown MachineRuntimeStatus.unknown = refl
runtime_status_after-eq MachineRuntimeStatus.unknown MachineRuntimeStatus.running = refl
runtime_status_after-eq MachineRuntimeStatus.unknown MachineRuntimeStatus.stopped = refl
runtime_status_after-eq MachineRuntimeStatus.unknown (MachineRuntimeStatus.other t) = refl
runtime_status_after-eq MachineRuntimeStatus.running old = refl
runtime_status_after-eq MachineRuntimeStatus.stopped old = refl
runtime_status_after-eq (MachineRuntimeStatus.other t) old = refl

agents_after-eq :
    (new old : List AgentInstance)
    → (elim new [ [] ↦ old | a ∷ more ↦ a ∷ more ]) ≡ or_agents new old
agents_after-eq [] old = refl
agents_after-eq (a ∷ more) old = refl

-- An update of a machine that is there, under an id that is given: the status is the new one; name
-- and agents are the new ones unless they are empty, and the runtime status is the new one unless
-- that is empty or `unknown`; a runtime status that is empty after that is stored as `unknown`.
-- No other machine changes.
pub get_machine-upsert :
    (new old : Machine) (s : Store) (k : Str)
    → new.id ≢ []
    → get_machine s new.id ≡ some old
    → get_machine (upsert new s) k ≡ (
        if new.id == k
        then some (record {
          id = new.id;
          name = if is_empty new.name then old.name else new.name;
          status = new.status;
          runtime_status = runtime_status_after new.runtime_status old.runtime_status;
          agents = elim new.agents [ [] ↦ old.agents | a ∷ more ↦ a ∷ more ];
        })
        else get_machine s k)
unfolding get_machine upsert
get_machine-upsert new old s k h e =
    let merged = merge_existing (some old) new in
    rw
      (
        e,
        sym (runtime_status_after-eq new.runtime_status old.runtime_status),
        sym (agents_after-eq new.agents old.agents),
      )
      (ground (
        arith,
        Dict.get-put s.machines new.id
            (record merged { runtime_status = or_unknown merged.runtime_status }) k,
      ))

-- Going offline, for a machine that is there: its status is `offline`, its runtime status `unknown`,
-- each of its agents is stopped and keeps all else, and no other machine changes. For a machine
-- that is not there, nothing changes.
pub get_machine-mark_offline :
    (id : Str) (s : Store) (k : Str)
    → id ≢ []
    → get_machine (mark_offline id s) k ≡ (
        if id == k
        then elim (get_machine s id) [
          | none ↦ none
          | some m ↦ some (record {
            id = m.id;
            name = m.name;
            status = MachineStatus.offline;
            runtime_status = MachineRuntimeStatus.unknown;
            agents =
                map {A = AgentInstance}
                  (λ a. record a { status = AgentInstanceStatus.stopped })
                  m.agents;
          })
        ]
        else get_machine s k)
unfolding get_machine mark_offline
get_machine-mark_offline id s k h = elim (Option-cases (Dict.get s.machines id)) [
  | inl e ↦ rw e (ground (arith, eq_iff id k))
  | inr (m, e) ↦ rw e (ground (arith, Dict.get-put s.machines id (offline_machine m) k))
]

-- A machine is stored under its own id, which is not empty, and with a runtime status.
pub record IsConsistent (s : Store) : Type 0 where
  pub at_key :
      (k : Str) (m : Machine)
      → get_machine s k ≡ some m
      → (m.id ≡ k) × (k ≢ []) × (m.runtime_status ≢ MachineRuntimeStatus.unset)

or_unknown-ne-unset : (r : MachineRuntimeStatus) → or_unknown r ≢ MachineRuntimeStatus.unset
or_unknown-ne-unset MachineRuntimeStatus.unset h = ground arith
or_unknown-ne-unset _ h = ground arith

merge_existing_id : (o : Option Machine) (m : Machine) → (merge_existing o m).id ≡ m.id
unfolding merge_existing
merge_existing_id none m = refl
merge_existing_id (some e) m = refl

upsert-IsConsistent : (new : Machine) (s : Store) → IsConsistent s → IsConsistent (upsert new s)
unfolding get_machine upsert
upsert-IsConsistent new s c = record {
  at_key = λ k m h.
      let merged = merge_existing (Dict.get s.machines new.id) new in
      let stored : Machine = record merged { runtime_status = or_unknown merged.runtime_status } in
      ground (
        arith,
        Dict.get-put s.machines new.id stored k,
        eq_iff new.id k,
        c.at_key k m,
        or_unknown-ne-unset merged.runtime_status,
        merge_existing_id (Dict.get s.machines new.id) new,
      );
}

mark_offline-IsConsistent :
    (id : Str) (s : Store) → IsConsistent s → IsConsistent (mark_offline id s)
unfolding get_machine mark_offline
mark_offline-IsConsistent id s c = elim (Option-cases (Dict.get s.machines id)) [
  | inl e ↦ record { at_key = λ k m. rw e (λ h. ground (arith, c.at_key k m)) }
  | inr (old, e) ↦ record {
    at_key = λ k m. rw e (λ h. ground (
      arith,
      Dict.get-put s.machines id (offline_machine old) k,
      eq_iff id k,
      c.at_key k m,
      c.at_key id old e,
    ));
  }
]

-- The operations that change the machines.
pub data Op : Type 0 where
  update : Machine → Op
  offline : Str → Op

abbrev pub run_updates : List Op → Store → Store
run_updates [] s = s
run_updates (update m ∷ ops) s = run_updates ops (upsert m s)
run_updates (offline id ∷ ops) s = run_updates ops (mark_offline id s)

-- From a store that is consistent, any sequence of updates and disconnections leads to one that is.
pub run_updates-IsConsistent :
    (ops : List Op) (s : Store) → IsConsistent s → IsConsistent (run_updates ops s)
run_updates-IsConsistent [] s c = c
run_updates-IsConsistent (update m ∷ ops) s c =
    run_updates-IsConsistent ops (upsert m s) (upsert-IsConsistent m s c)
run_updates-IsConsistent (offline id ∷ ops) s c =
    run_updates-IsConsistent ops (mark_offline id s) (mark_offline-IsConsistent id s c)
