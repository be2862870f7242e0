-- ===== src/Gateway/ClientHub/Mirror.antt =====
-- That the runtime index keeps up with the snapshots of the hub.
use agent_console.Prelude.{
  ℕ, Str, eq_iff, is_empty, Bool, true, false, Option, none, some, List, [], ◌∷◌, ◌≡◌, ◌≢◌, refl,
  sym, arith, ap, ◌∙◌, if◌then◌else◌, map, Bool-cases, inl, inr,
}
use agent_console.Prelude.Dict
use agent_console.Prelude.Dict.{Dict}
use agent_console.Prelude.Time.{TimeText}
use agent_console.Domain.Machine.{Machine}
use agent_console.Gateway.ClientHub.Cleanup.{fail_pending_waiters-eq}
use agent_console.Domain.Thread.{Thread}
use agent_console.Domain.Environment.{EnvironmentResource, EnvironmentKind}
use agent_console.Gateway.RuntimeIndex
use agent_console.Gateway.RuntimeIndex.{threads_of}
use agent_console.Gateway.RuntimeIndex.Mirrored.{
  forget_activity, threads-replace_snapshot, environment-replace_snapshot,
  environment-mark_machine_unknown,
}
use agent_console.Gateway.RuntimeIndex.Threads.{mark_machine_unknown_complete}
use agent_console.Gateway.ClientHub.Broadcast.{
  broadcast_machine_updated, broadcast_northbound_event, publish,
}
use agent_console.Gateway.ClientHub.Connections.{
  owns, unknown_state, fail_pending_waiters, forget_threads, cleanup_machine, drop_client,
  disconnect_client,
}
use agent_console.Gateway.ClientHub.{
  ClientHub, MachineSnapshotState, on_some, store_snapshot, replace_machine_snapshot,
  upsert_thread_snapshot, set_active_turn, clear_active_turn, remove_thread_snapshot,
  remove_environment_resource, upsert_environment_resource,
}

-- What the index holds of a machine that has a snapshot: the environment of the snapshot and, in
-- the same order, its threads, which may differ in the time of the last activity only.
pub record IsMirrored (h : ClientHub) : Type 0 where
  pub agrees :
      (index : RuntimeIndex.Store) (k : Str) (state : MachineSnapshotState)
      → h.runtime_index ≡ some index
      → Dict.get h.snapshot_by_machine k ≡ some state
      → (map forget_activity (threads_of index k) ≡ map forget_activity state.threads)
        × (Dict.get index.environment_by_machine k ≡ some state.environment)

agrees-store :
    (time : TimeText) (m : Str) (new : MachineSnapshotState) (h : ClientHub)
    (o : Option RuntimeIndex.Store)
    → h.runtime_index ≡ o
    → IsMirrored h
    → (index : RuntimeIndex.Store) (k : Str) (state : MachineSnapshotState)
    → on_some (RuntimeIndex.replace_snapshot time m new.threads new.environment) o ≡ some index
    → Dict.get (Dict.put h.snapshot_by_machine m new) k ≡ some state
    → (map forget_activity (threads_of index k) ≡ map forget_activity state.threads)
      × (Dict.get index.environment_by_machine k ≡ some state.environment)
agrees-store time m new h none eo mir index k state ei es = ground arith
agrees-store time m new h (some old) eo mir index k state ei es = ground (
  arith,
  threads-replace_snapshot time m new.threads new.environment old k,
  environment-replace_snapshot time m new.threads new.environment old k,
  Dict.get-put h.snapshot_by_machine m new k,
  eq_iff m k,
  mir.agrees old k state,
)

pub store_snapshot-IsMirrored :
    (time : TimeText) (m : Str) (new : MachineSnapshotState) (h : ClientHub)
    → IsMirrored h
    → IsMirrored (store_snapshot time m new h)
unfolding store_snapshot
store_snapshot-IsMirrored time m new h mir = record {
  agrees = agrees-store time m new h h.runtime_index refl mir;
}

-- The test of an operation, and the store of the new snapshot under it. What else changes of the
-- hub is the active turns.
guarded-IsMirrored :
    (b : Bool) (time : TimeText) (m : Str) (new : MachineSnapshotState) (turns : Dict Str)
    (h : ClientHub)
    → IsMirrored h
    → IsMirrored (if b then h else store_snapshot time m new (record h { active_turns = turns }))
guarded-IsMirrored true time m new turns h mir = mir
guarded-IsMirrored false time m new turns h mir =
    store_snapshot-IsMirrored time m new (record h { active_turns = turns })
      (record { agrees = mir.agrees })

either-IsMirrored :
    (b : Bool) {A : Type 0} (x y : ClientHub × A)
    → IsMirrored x.0
    → IsMirrored y.0
    → IsMirrored (if b then x else y).0
either-IsMirrored true x y hx hy = hx
either-IsMirrored false x y hx hy = hy

-- Only the snapshots and the index count.
pub same-IsMirrored :
    (h g : ClientHub)
    → g.runtime_index ≡ h.runtime_index
    → g.snapshot_by_machine ≡ h.snapshot_by_machine
    → IsMirrored h
    → IsMirrored g
same-IsMirrored h g ei es mir = record {
  agrees = λ index k state hi hs.
      mir.agrees index k state (sym ei ∙ hi) (sym (ap (λ d. Dict.get d k) es) ∙ hs);
}

agrees-mark_unknown :
    (m : Str) (h : ClientHub) (o : Option RuntimeIndex.Store)
    → m ≢ []
    → h.runtime_index ≡ o
    → Dict.get h.snapshot_by_machine m ≡ none
    → IsMirrored h
    → (index : RuntimeIndex.Store) (k : Str) (state : MachineSnapshotState)
    → on_some (RuntimeIndex.mark_machine_unknown m) o ≡ some index
    → Dict.get h.snapshot_by_machine k ≡ some state
    → (map forget_activity (threads_of index k) ≡ map forget_activity state.threads)
      × (Dict.get index.environment_by_machine k ≡ some state.environment)
agrees-mark_unknown m h none hm eo en mir index k state ei es = ground arith
agrees-mark_unknown m h (some old) hm eo en mir index k state ei es = ground (
  arith,
  (mark_machine_unknown_complete m k [] old hm).0,
  environment-mark_machine_unknown m old,
  eq_iff m k,
  mir.agrees old k state,
)

forget_threads-IsMirrored :
    (time : TimeText) (m : Str) (h : ClientHub) (o : Option MachineSnapshotState)
    → m ≢ []
    → Dict.get h.snapshot_by_machine m ≡ o
    → IsMirrored h
    → IsMirrored (forget_threads time m o h)
unfolding forget_threads
forget_threads-IsMirrored time m h none hm e mir = record {
  agrees = agrees-mark_unknown m h h.runtime_index hm refl e mir;
}
forget_threads-IsMirrored time m h (some state) hm e mir = record {
  agrees = agrees-store time m (unknown_state state) h h.runtime_index refl mir;
}

pub broadcast-IsMirrored :
    (now : Str) (machine : Machine) (timestamp : Str) (h : ClientHub)
    → IsMirrored h
    → IsMirrored (broadcast_machine_updated now machine timestamp h)
unfolding broadcast_machine_updated broadcast_northbound_event publish
broadcast-IsMirrored now machine timestamp h mir = elim (Bool-cases (is_empty machine.id)) [
  | inl e ↦ rw e mir
  | inr e ↦ rw e (same-IsMirrored h _ refl refl mir)
]

-- The client is dropped, and the waiters have failed.
pub drop_client-IsMirrored :
    (time : TimeText) (m : Str) (h : ClientHub)
    → m ≢ []
    → IsMirrored h
    → IsMirrored (fail_pending_waiters (drop_client time m h).1 (drop_client time m h).0)
unfolding drop_client cleanup_machine
drop_client-IsMirrored time [] h hm mir = elim (hm refl) [ ]
drop_client-IsMirrored time (c ∷ m') h hm mir =
    let m = c ∷ m' in
    let h1 = record h { clients = Dict.remove h.clients m } in
    let kept : IsMirrored (forget_threads time m (Dict.get h.snapshot_by_machine m) h1) =
      forget_threads-IsMirrored time m h1 (Dict.get h.snapshot_by_machine m) hm refl
        (same-IsMirrored h h1 refl refl mir) in
    rw (fail_pending_waiters-eq) (same-IsMirrored _ _ refl refl kept)

disconnect_client-IsMirrored :
    (time : TimeText) (now : Str) (conn : ℕ) (m : Str) (h : ClientHub)
    → IsMirrored h
    → IsMirrored (disconnect_client time now conn m h)
unfolding disconnect_client fail_pending_waiters
disconnect_client-IsMirrored time now conn [] h mir = mir
disconnect_client-IsMirrored time now conn (c ∷ m') h mir =
    let m = c ∷ m' in
    elim (Bool-cases (owns h conn m)) [
      | inl e ↦
          rw e
            (broadcast-IsMirrored now _ now _ (drop_client-IsMirrored time m h (ground arith) mir))
      | inr e ↦ rw e (broadcast-IsMirrored now _ now h mir)
    ]

-- The operations on the snapshots of the hub.
pub data SnapshotOp : Type 0 where
  replace : Str → List Thread → List EnvironmentResource → Bool → Bool → SnapshotOp
  upsert_thread : Str → Thread → SnapshotOp
  start_turn end_turn : Str → Str → Str → Str → Str → SnapshotOp
  remove_thread : Str → Str → SnapshotOp
  upsert_resource : Str → EnvironmentResource → SnapshotOp
  remove_resource : Str → EnvironmentKind → Str → SnapshotOp
  disconnect : Str → ℕ → Str → SnapshotOp

module _ (time : TimeText) where
  abbrev pub apply : SnapshotOp → ClientHub → ClientHub
  apply (replace m ts env rt re) h = replace_machine_snapshot time m ts env rt re h
  apply (upsert_thread m t) h = upsert_thread_snapshot time m t h
  apply (start_turn now m t turn ts) h = set_active_turn time now m t turn ts h
  apply (end_turn now m t turn ts) h = clear_active_turn time now m t turn ts h
  apply (remove_thread m t) h = remove_thread_snapshot time m t h
  apply (upsert_resource m r) h = (upsert_environment_resource time m r h).0
  apply (remove_resource m kind id) h = remove_environment_resource time m kind id h
  apply (disconnect now conn m) h = disconnect_client time now conn m h

  abbrev pub run_ops : List SnapshotOp → ClientHub → ClientHub
  run_ops [] h = h
  run_ops (op ∷ ops) h = run_ops ops (apply op h)

  apply-IsMirrored : (op : SnapshotOp) (h : ClientHub) → IsMirrored h → IsMirrored (apply op h)
  unfolding replace_machine_snapshot upsert_thread_snapshot set_active_turn clear_active_turn
      remove_thread_snapshot remove_environment_resource upsert_environment_resource
  apply-IsMirrored (replace m ts env rt re) h mir = store_snapshot-IsMirrored time m _ h mir
  apply-IsMirrored (upsert_thread m t) h mir = elim (Bool-cases (is_empty m)) [
    | inl e ↦ rw e mir
    | inr e ↦ rw e (guarded-IsMirrored (is_empty t.thread_id) time m _ h.active_turns h mir)
  ]
  apply-IsMirrored (start_turn now m t turn ts) h mir = guarded-IsMirrored _ time m _ _ h mir
  apply-IsMirrored (end_turn now m t turn ts) h mir = guarded-IsMirrored _ time m _ _ h mir
  apply-IsMirrored (remove_thread m t) h mir = guarded-IsMirrored _ time m _ _ h mir
  apply-IsMirrored (upsert_resource m r) h mir =
      either-IsMirrored _ _ _ mir (store_snapshot-IsMirrored time m _ h mir)
  apply-IsMirrored (remove_resource m kind id) h mir =
      guarded-IsMirrored _ time m _ h.active_turns h mir
  apply-IsMirrored (disconnect now conn m) h mir =
      disconnect_client-IsMirrored time now conn m h mir

  -- From a hub whose index agrees with its snapshots, any sequence of the operations leads to one
  -- whose index does. The operations are the changes of a machine's snapshot and the loss of a
  -- connection.
  pub run_ops-IsMirrored :
      (ops : List SnapshotOp) (h : ClientHub) → IsMirrored h → IsMirrored (run_ops ops h)
  run_ops-IsMirrored [] h mir = mir
  run_ops-IsMirrored (op ∷ ops) h mir =
      run_ops-IsMirrored ops (apply op h) (apply-IsMirrored op h mir)
