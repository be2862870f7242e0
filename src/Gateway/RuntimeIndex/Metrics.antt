-- ===== src/Gateway/RuntimeIndex/Metrics.antt =====
-- The counts of OverviewMetrics, the keys of the three maps, and how the operations change them.
use agent_console.Prelude.{
  ℕ, ◌+◌, Str, is_empty, Option, none, some, List, [], ◌∷◌, ◌≡◌, ◌≢◌, refl, ap, arith,
  if◌then◌else◌, if_both, map, length,
}
use agent_console.Prelude.Lists.{count}
use agent_console.Prelude.Dict
use agent_console.Prelude.Dict.{Dict, IsKeyed}
use agent_console.Prelude.Time.{TimeText}
use agent_console.Domain.Thread.{Thread, ThreadRoute, is_active}
use agent_console.Domain.Environment.{EnvironmentResource}
use agent_console.Gateway.RuntimeIndex.{
  Store, threads_of, insert_routes, replace_snapshot, upsert_thread, remove_thread, clear_machine,
  mark_threads, mark_machine_unknown, set_unknown, count_active, count_items, overview_metrics,
}

abbrev pub active_in : List Thread → ℕ
active_in = count (λ t. is_active t.status)

active-total : (d : Dict (List Thread)) → count_active (Dict.values d) ≡ Dict.total active_in d
unfolding count_active
active-total [] = refl
active-total ((k, ts) ∷ d) = omega (arith, active-total d)

items-total :
    (d : Dict (List EnvironmentResource)) → count_items (Dict.values d) ≡ Dict.total length d
unfolding count_items
items-total [] = refl
items-total ((k, ts) ∷ d) = omega (arith, items-total d)

-- Each map holds a key once.
pub record IsWellFormed (s : Store) : Type 0 where
  pub threads_keyed : IsKeyed s.threads_by_machine
  pub environment_keyed : IsKeyed s.environment_by_machine
  pub routes_keyed : IsKeyed s.thread_routes

insert_routes-IsKeyed :
    (m : Str) (ts : List Thread) (d : Dict ThreadRoute) → IsKeyed d → IsKeyed (insert_routes m ts d)
unfolding insert_routes
insert_routes-IsKeyed m [] d h = h
insert_routes-IsKeyed m (t ∷ ts) d h =
    let route : ThreadRoute = record {
      machine_id = if is_empty t.machine_id then m else t.machine_id;
      agent_id = t.agent_id;
    } in
    insert_routes-IsKeyed m ts (if is_empty t.thread_id then d else Dict.put d t.thread_id route)
      (if_both IsKeyed (is_empty t.thread_id) h (Dict.put-IsKeyed d t.thread_id route h))

mark_threads-IsWellFormed :
    (m : Str) (ts : List Thread) (s : Store) → IsWellFormed s → IsWellFormed (mark_threads m ts s)
unfolding mark_threads
mark_threads-IsWellFormed m [] s w = w
mark_threads-IsWellFormed m (t ∷ ts) s w = record {
  threads_keyed = Dict.put-IsKeyed s.threads_by_machine m _ w.threads_keyed;
  environment_keyed = w.environment_keyed;
  routes_keyed = w.routes_keyed;
}

-- The operations that change the store.
pub data Op : Type 0 where
  replace : Str → List Thread → List EnvironmentResource → Op
  upsert : Str → Thread → Op
  remove : Str → Str → Op
  clear : Str → Op
  mark_unknown : Str → Op

abbrev pub apply : TimeText → Op → Store → Store
apply time (replace m ts env) s = replace_snapshot time m ts env s
apply time (upsert m t) s = upsert_thread time m t s
apply time (remove m id) s = remove_thread m id s
apply time (clear m) s = clear_machine m s
apply time (mark_unknown m) s = mark_machine_unknown m s

abbrev pub run : TimeText → List Op → Store → Store
run time [] s = s
run time (op ∷ ops) s = run time ops (apply time op s)

apply-IsWellFormed :
    (time : TimeText) (op : Op) (s : Store) → IsWellFormed s → IsWellFormed (apply time op s)
unfolding replace_snapshot upsert_thread remove_thread clear_machine mark_machine_unknown
apply-IsWellFormed time (replace m ts env) s w = record {
  threads_keyed = Dict.put-IsKeyed s.threads_by_machine m _ w.threads_keyed;
  environment_keyed = Dict.put-IsKeyed s.environment_by_machine m env w.environment_keyed;
  routes_keyed =
      insert_routes-IsKeyed m ts _ (Dict.retain-IsKeyed _ s.thread_routes w.routes_keyed);
}
apply-IsWellFormed time (upsert m t) s w = if_both IsWellFormed (is_empty m) w (
    if_both IsWellFormed (is_empty t.thread_id) w (record {
      threads_keyed = Dict.put-IsKeyed s.threads_by_machine m _ w.threads_keyed;
      environment_keyed = w.environment_keyed;
      routes_keyed = Dict.put-IsKeyed s.thread_routes t.thread_id _ w.routes_keyed;
    }))
apply-IsWellFormed time (remove m id) s w = if_both IsWellFormed (is_empty m) w (
    if_both IsWellFormed (is_empty id) w (record {
      threads_keyed = Dict.put-IsKeyed s.threads_by_machine m _ w.threads_keyed;
      environment_keyed = w.environment_keyed;
      routes_keyed = Dict.remove-IsKeyed s.thread_routes id w.routes_keyed;
    }))
apply-IsWellFormed time (clear m) s w = if_both IsWellFormed (is_empty m) w (record {
  threads_keyed = Dict.remove-IsKeyed s.threads_by_machine m w.threads_keyed;
  environment_keyed = Dict.remove-IsKeyed s.environment_by_machine m w.environment_keyed;
  routes_keyed = Dict.retain-IsKeyed _ s.thread_routes w.routes_keyed;
})
apply-IsWellFormed time (mark_unknown m) s w =
    if_both IsWellFormed (is_empty m) w (mark_threads-IsWellFormed m (threads_of s m) s w)

-- From a well-formed store, any sequence of operations leads to a well-formed one.
pub run-IsWellFormed :
    (time : TimeText) (ops : List Op) (s : Store) → IsWellFormed s → IsWellFormed (run time ops s)
run-IsWellFormed time [] s w = w
run-IsWellFormed time (op ∷ ops) s w =
    run-IsWellFormed time ops (apply time op s) (apply-IsWellFormed time op s w)

abbrev pub items_of : Store → Str → List EnvironmentResource
items_of s m = Dict.get_or [] (Dict.get s.environment_by_machine m)

at_some-get_or :
    (o : Option (List Thread)) → Dict.at_some active_in o ≡ active_in (Dict.get_or [] o)
at_some-get_or none = refl
at_some-get_or (some ts) = refl

at_some-get_or_items :
    (o : Option (List EnvironmentResource)) → Dict.at_some length o ≡ length (Dict.get_or [] o)
at_some-get_or_items none = refl
at_some-get_or_items (some ts) = refl

active_in-unknown : (ts : List Thread) → active_in (map set_unknown ts) ≡ 0
active_in-unknown [] = refl
active_in-unknown (t ∷ ts) = active_in-unknown ts

active-mark_threads :
    (m : Str) (ts : List Thread) (s : Store)
    → threads_of s m ≡ ts
    → (overview_metrics (mark_threads m ts s)).active_threads + active_in ts
      ≡ (overview_metrics s).active_threads
unfolding overview_metrics mark_threads
active-mark_threads m [] s e = omega arith
active-mark_threads m (t ∷ ts) s e =
    let ts' = map set_unknown (t ∷ ts) in
    let there : active_in (threads_of s m) ≡ active_in (t ∷ ts) = ap active_in e in
    omega (
      arith,
      active-total (Dict.put s.threads_by_machine m ts'),
      active-total s.threads_by_machine,
      Dict.total-put active_in s.threads_by_machine m ts',
      at_some-get_or (Dict.get s.threads_by_machine m),
      active_in-unknown (t ∷ ts),
      there,
    )

-- Marking a machine unknown, its id not being empty, takes its active threads out of the count, and
-- no others.
pub overview_metrics-mark_machine_unknown :
    (m : Str) (s : Store)
    → m ≢ []
    → (overview_metrics (mark_machine_unknown m s)).active_threads + active_in (threads_of s m)
      ≡ (overview_metrics s).active_threads
unfolding mark_machine_unknown
overview_metrics-mark_machine_unknown m s h =
    ground (arith, active-mark_threads m (threads_of s m) s refl)

-- Clearing a machine of a well-formed store, its id not being empty, takes its active threads and
-- its environment items out of the counts, and no others.
pub overview_metrics-clear_machine :
    (m : Str) (s : Store)
    → m ≢ []
    → IsWellFormed s
    → ((overview_metrics (clear_machine m s)).active_threads + active_in (threads_of s m)
        ≡ (overview_metrics s).active_threads)
      × ((overview_metrics (clear_machine m s)).environment_items + length (items_of s m)
          ≡ (overview_metrics s).environment_items)
unfolding clear_machine overview_metrics
overview_metrics-clear_machine [] s h w = absurd (h refl)
overview_metrics-clear_machine (c ∷ cs) s h w =
    let m = c ∷ cs in
    (
      omega (
        arith,
        active-total (Dict.remove s.threads_by_machine m),
        active-total s.threads_by_machine,
        Dict.total-remove active_in s.threads_by_machine m w.threads_keyed,
        at_some-get_or (Dict.get s.threads_by_machine m),
      ),
      omega (
        arith,
        items-total (Dict.remove s.environment_by_machine m),
        items-total s.environment_by_machine,
        Dict.total-remove {V = List EnvironmentResource} length s.environment_by_machine m
            w.environment_keyed,
        at_some-get_or_items (Dict.get s.environment_by_machine m),
      ),
    )
