-- ===== src/Gateway/Registry/History.antt =====
-- The timeline of a thread against the full history of the events that were appended.
use agent_console.Prelude.{
  ℕ, ◌≤◌, Str, ◌==◌, eq_iff, is_empty, Bool, true, false, not, ◌&&◌, List, [], ◌∷◌, ◌++◌, ◌≡◌, ◌≢◌,
  refl, sym, ap, ◌∙◌, arith, leb, if◌then◌else◌, length,
}
use mathlib.Core.List.{append-nil, append_assoc}
use agent_console.Prelude.Lists.{keep, last, length-last, last_short, last-last_append}
use agent_console.Prelude.Dict
use agent_console.Domain.Timeline.{TimelineEvent}
use agent_console.Gateway.Registry.{
  Store, truncate, append_timeline_event, timeline_events_for_thread,
}

-- The limit in force.
abbrev pub limit_of : Store → ℕ
limit_of s = if leb s.timeline_limit 0 then 500 else s.timeline_limit

abbrev pub append_all : List TimelineEvent → Store → Store
append_all [] s = s
append_all (e ∷ es) s = append_all es (append_timeline_event e s)

-- The events of a thread that an append accepts: those with an id.
abbrev pub accepted : Str → TimelineEvent → Bool
accepted thread_id e = e.thread_id == thread_id && not (is_empty e.event_id)

truncate-eq-last : (n : ℕ) (es : List TimelineEvent) → truncate n es ≡ last n es
unfolding truncate
truncate-eq-last n es = ground (arith, last_short n es)

limit-append_timeline_event :
    (e : TimelineEvent) (s : Store) → (append_timeline_event e s).timeline_limit ≡ s.timeline_limit
unfolding append_timeline_event
limit-append_timeline_event e s = ground arith

timeline-append_one :
    (e : TimelineEvent) (s : Store) (id : Str)
    → id ≢ []
    → timeline_events_for_thread (append_timeline_event e s) id ≡ (
        if accepted id e
        then last (limit_of s) (timeline_events_for_thread s id ++ (e ∷ []))
        else timeline_events_for_thread s id)
unfolding append_timeline_event timeline_events_for_thread
timeline-append_one e s id h =
    let events = Dict.get_or [] (Dict.get s.timeline_events e.thread_id) ++ (e ∷ []) in
    ground (
      arith,
      eq_iff e.thread_id id,
      truncate-eq-last (limit_of s) events,
      Dict.get-put s.timeline_events e.thread_id (truncate (limit_of s) events) id,
    )

limit_of-append_timeline_event :
    (e : TimelineEvent) (s : Store) → limit_of (append_timeline_event e s) ≡ limit_of s
limit_of-append_timeline_event e s =
    ap (λ (n : ℕ). if leb n 0 then 500 else n) (limit-append_timeline_event e s)

-- One append, then the rest of the history.
last-append_one :
    (n : ℕ) (b : Bool) (e : TimelineEvent) (old rest : List TimelineEvent)
    → last n ((if b then last n (old ++ (e ∷ [])) else old) ++ rest)
      ≡ last n (old ++ (if b then e ∷ rest else rest))
last-append_one n true e old rest =
    last-last_append n (old ++ (e ∷ [])) rest ∙ ap (last n) (append_assoc old (e ∷ []) rest)
last-append_one n false e old rest = refl

within_limit :
    (n : ℕ) (b : Bool) (old new : List TimelineEvent)
    → length old ≤ n
    → length (if b then last n new else old) ≤ n
within_limit n true old new h = length-last n new
within_limit n false old new h = h

-- After any number of appends, the timeline of a thread is the end, at most as long as the limit, of
-- the full history: of what the store had, followed by the appended events of the thread that have
-- an id, in their order. The store's own timeline is within the limit, and the thread's id is given.
pub timeline-append_all :
    (es : List TimelineEvent) (s : Store) (id : Str)
    → id ≢ []
    → length (timeline_events_for_thread s id) ≤ limit_of s
    → timeline_events_for_thread (append_all es s) id
      ≡ last (limit_of s) (timeline_events_for_thread s id ++ keep (accepted id) es)
timeline-append_all [] s id h short =
    rw append-nil (sym (last_short (limit_of s) (timeline_events_for_thread s id) short))
timeline-append_all (e ∷ es) s id h short =
    let old = timeline_events_for_thread s id in
    let s' = append_timeline_event e s in
    let same = limit_of-append_timeline_event e s in
    let now = timeline-append_one e s id h in
    timeline-append_all es s' id h
      (rw (same, now) (within_limit (limit_of s) (accepted id e) old (old ++ (e ∷ [])) short))
    ∙ rw (same, now) (last-append_one (limit_of s) (accepted id e) e old (keep (accepted id) es))
