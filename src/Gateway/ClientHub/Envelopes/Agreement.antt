-- ===== src/Gateway/ClientHub/Envelopes/Agreement.antt =====
-- What the envelopes of a client do to the stores.
use agent_console.Prelude.{
  ℕ, Str, true, false, Option, none, some, List, [], ◌∷◌, ◌≡◌, refl, ap, ◌∙◌, arith, map,
}
use agent_console.Prelude.Time.{TimeText}
use agent_console.Domain.Thread.{Thread}
use agent_console.Gateway.RuntimeIndex
use agent_console.Gateway.RuntimeIndex.Routes.{RoutesAgree, thread_route-replace_snapshot}
use agent_console.Gateway.Routing
use agent_console.Gateway.Routing.{Router}
use agent_console.Gateway.Routing.Resolve.{or_else, last_route, resolve_thread-replace_snapshot}
use agent_console.Gateway.ClientHub.{
  ClientHub, on_some, store_snapshot, snapshot_of, merge_activity, merge_thread_activities,
  replace_machine_snapshot,
}
use agent_console.Gateway.ClientHub.Connections.{is_current_owner}
use agent_console.Gateway.ClientHub.Mirror.{IsMirrored}
use agent_console.Gateway.ClientHub.Broadcast.{
  publish, broadcast_northbound_event, broadcast_thread_updated,
}
use agent_console.Gateway.ClientHub.Envelopes.{
  SnapshotPayload, thread_snapshot, normalize_threads, apply_snapshot, handle_snapshot_envelope,
  threads_of_machine,
}
use agent_console.Gateway.ClientHub.Events.{handle_event_envelope}
use agent_console.Gateway.ClientHub.Invariants.{handle_snapshot_kept, handle_event_kept}
use agent_console.Gateway.ClientHub.Sessions.Soundness.{IsMirrored-IsRobust}
use agent_console.Domain.Protocol.{Envelope, ThreadUpdatedPayload}

route_entry :
    (time : TimeText) (m : Str) (o : Option Thread) (t : Thread) (id : Str)
    → last_route m (merge_activity time o t ∷ []) id ≡ last_route m (t ∷ []) id
route_entry time m none t id = refl
route_entry time m (some e) t id = refl

-- The later activity of a thread has no part in its route.
last_route-merge :
    (time : TimeText) (m : Str) (f : Thread → Option Thread) (ts : List Thread) (id : Str)
    → last_route m (map (λ t. merge_activity time (f t) t) ts) id ≡ last_route m ts id
last_route-merge time m f [] id = refl
last_route-merge time m f (t ∷ ts) id =
    rw (last_route-merge time m f ts id)
      (ap (or_else (last_route m ts id)) (route_entry time m (f t) t id))

last_route-merge_thread_activities :
    (time : TimeText) (m : Str) (old ts : List Thread) (id : Str)
    → last_route m (merge_thread_activities time old ts) id ≡ last_route m ts id
unfolding merge_thread_activities
last_route-merge_thread_activities time m old ts id = last_route-merge time m _ ts id

broadcast-stores :
    (now timestamp : Str) (p : ThreadUpdatedPayload) (h : ClientHub)
    → ((broadcast_thread_updated now p timestamp h).runtime_index ≡ h.runtime_index)
      × ((broadcast_thread_updated now p timestamp h).router ≡ h.router)
unfolding broadcast_thread_updated broadcast_northbound_event publish
broadcast-stores now timestamp p h = (ground arith, ground arith)

replaced-stores :
    (time : TimeText) (m : Str) (ts : List Thread) (h : ClientHub)
    → let h1 = replace_machine_snapshot time m ts [] true false h in
      (h1.runtime_index
        ≡ on_some
            (RuntimeIndex.replace_snapshot time m
              (merge_thread_activities time (snapshot_of h m).threads ts)
              (snapshot_of h m).environment)
            h.runtime_index)
      × (h1.router ≡ h.router)
unfolding replace_machine_snapshot store_snapshot
replaced-stores time m ts h = (refl, refl)

-- Where the router and the index answer alike for every thread, they still do after the owner of
-- a machine sent a snapshot of its threads.
pub thread_snapshot-RoutesAgree :
    (time : TimeText) (now : Str) (conn : ℕ) (m timestamp : Str) (items : List Thread)
    (h : ClientHub) (s : RuntimeIndex.Store) (r : Router)
    → h.runtime_index ≡ some s
    → h.router ≡ some r
    → RoutesAgree s r
    → is_current_owner h conn m ≡ true
    → let h' =
        handle_snapshot_envelope time now conn m timestamp (thread_snapshot (some items)) h in
      (s' : RuntimeIndex.Store) × (r' : Router) × (h'.runtime_index ≡ some s')
      × (h'.router ≡ some r')
      × RoutesAgree s' r'
unfolding handle_snapshot_envelope apply_snapshot
thread_snapshot-RoutesAgree time now conn m timestamp items h s r es er agree own =
    let ts = normalize_threads items m in
    let state = snapshot_of h m in
    let merged = merge_thread_activities time state.threads ts in
    let h1 = replace_machine_snapshot time m ts [] true false h in
    let h2 = record h1 { router = on_some (Routing.replace_snapshot m ts) h1.router } in
    let kept = broadcast-stores now timestamp (threads_of_machine m) h2 in
    let new = replaced-stores time m ts h in
    rw own (
      RuntimeIndex.replace_snapshot time m merged state.environment s,
      Routing.replace_snapshot m ts r,
      kept.0
          ∙ new.0
          ∙ ap (on_some (RuntimeIndex.replace_snapshot time m merged state.environment)) es,
      kept.1 ∙ ap (on_some (Routing.replace_snapshot m ts)) (new.1 ∙ er),
      λ id. ground (
        arith,
        thread_route-replace_snapshot time m merged state.environment s id,
        resolve_thread-replace_snapshot m ts r id,
        last_route-merge_thread_activities time m state.threads ts id,
        agree id,
      ),
    )

-- Where the index agrees with the snapshots of the hub, it still does after any snapshot envelope and
-- after any event envelope, from whichever connection and whether or not it decodes.
pub envelopes-IsMirrored :
    (time : TimeText) (conn : ℕ) (now m timestamp : Str) (snapshot : SnapshotPayload) (e : Envelope)
    (h : ClientHub)
    → IsMirrored h
    → IsMirrored (handle_snapshot_envelope time now conn m timestamp snapshot h)
      × IsMirrored (handle_event_envelope time now conn e h)
envelopes-IsMirrored time conn now m timestamp snapshot e h mir =
    let stable = (IsMirrored-IsRobust time).stable in
    (
      handle_snapshot_kept time IsMirrored stable.passive now conn m timestamp snapshot h mir,
      handle_event_kept time IsMirrored stable now conn e h mir,
    )
