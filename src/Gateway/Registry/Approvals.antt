-- ===== src/Gateway/Registry/Approvals.antt =====
-- The approvals that wait for an answer.
use agent_console.Prelude.{
  suc, Str, ◌==◌, is_empty, false, eq_iff, Bool, ◌&&◌, none, some, List, [], ◌∷◌, ◌≡◌, ◌≢◌, refl,
  ◌∙◌, arith, if◌then◌else◌,
}
use agent_console.Prelude.Lists.{count}
use agent_console.Prelude.Sort.{IsSorted, sort_by-IsSorted, count-sort_by}
use agent_console.Prelude.Dict
use agent_console.Prelude.Dict.{IsKeyed}
use agent_console.Domain.Timeline.{TimelineEvent, ApprovalRequiredPayload}
use agent_console.Domain.Machine.{Machine}
use agent_console.Gateway.Registry.{
  Store, StoredApprovalRequest, new_store, upsert_pending_approval, remove_pending_approval,
  pending_approval, payloads_for, request_key, pending_approvals_for_thread, pending_approval_count,
  upsert, append_timeline_event, mark_offline,
}

-- After an approval with an id is stored, it waits under its id, in place of what waited there, and
-- every other one waits as before. After an id is removed, nothing waits under it, and every
-- other one waits as before.
pub pending_approval_updates :
    (machine_id : Str) (p : ApprovalRequiredPayload) (s : Store) (id j : Str)
    → p.request_id ≢ []
    → id ≢ []
    → (pending_approval (upsert_pending_approval machine_id p s) j
        ≡ (if p.request_id == j then some p else pending_approval s j))
      × (pending_approval (remove_pending_approval id s) j
          ≡ (if id == j then none else pending_approval s j))
unfolding pending_approval upsert_pending_approval remove_pending_approval
pending_approval_updates machine_id p s id j hp hid = ground (
  arith,
  eq_iff p.request_id j,
  eq_iff id j,
  Dict.get-remove s.pending_approvals id j,
  Dict.get-put s.pending_approvals p.request_id (record { machine_id = machine_id; payload = p }) j,
)

-- The number of approvals that wait, where the map holds each key once: a new id adds one and an id
-- that waits adds none; an id that waits is one less once it is removed, and another id changes
-- nothing.
pub pending_approval_count_updates :
    (machine_id : Str) (p : ApprovalRequiredPayload) (s : Store) (id : Str)
    → p.request_id ≢ []
    → id ≢ []
    → IsKeyed s.pending_approvals
    → (pending_approval_count (upsert_pending_approval machine_id p s) ≡ (
        if Dict.has s.pending_approvals p.request_id
        then pending_approval_count s
        else suc (pending_approval_count s)))
      × (pending_approval_count s ≡ (
          if Dict.has s.pending_approvals id
          then suc (pending_approval_count (remove_pending_approval id s))
          else pending_approval_count (remove_pending_approval id s)))
unfolding pending_approval_count upsert_pending_approval remove_pending_approval
pending_approval_count_updates machine_id p s id hp hid w = ground (
  arith,
  Dict.length-remove s.pending_approvals id w,
  Dict.length-put s.pending_approvals p.request_id
      (record { machine_id = machine_id; payload = p }),
)

count-payloads_for :
    (test : ApprovalRequiredPayload → Bool) (id : Str) (l : List StoredApprovalRequest)
    → count test (payloads_for id l) ≡ count (λ a. test a.payload && a.payload.thread_id == id) l
count-payloads_for test id [] = refl
count-payloads_for test id (a ∷ l) = ground (arith, count-payloads_for test id l)

-- The approvals of a thread, whose id is given: they are in the order of their request ids, and each
-- approval stands among them as often as it waits for this thread.
pub pending_approvals_for_thread_complete :
    (s : Store) (id : Str) (test : ApprovalRequiredPayload → Bool)
    → id ≢ []
    → IsSorted request_key (pending_approvals_for_thread s id)
      × (count test (pending_approvals_for_thread s id)
          ≡ count
              (λ a. test a.payload && a.payload.thread_id == id)
              (Dict.values s.pending_approvals))
unfolding pending_approvals_for_thread
pending_approvals_for_thread_complete s [] test h = absurd (h refl)
pending_approvals_for_thread_complete s (c ∷ cs) test h =
    let waiting = payloads_for (c ∷ cs) (Dict.values s.pending_approvals) in
    (
      sort_by-IsSorted request_key waiting,
      count-sort_by request_key test waiting
          ∙ count-payloads_for test (c ∷ cs) (Dict.values s.pending_approvals),
    )

-- The machines and the history have no part in the approvals.
pub upsert-pending_approvals :
    (machine : Machine) (s : Store) → (upsert machine s).pending_approvals ≡ s.pending_approvals
unfolding upsert
upsert-pending_approvals machine s = ground arith

pub append-pending_approvals :
    (event : TimelineEvent) (s : Store)
    → (append_timeline_event event s).pending_approvals ≡ s.pending_approvals
unfolding append_timeline_event
append-pending_approvals event s = ground arith

pub mark_offline-pending_approvals :
    (m : Str) (s : Store) → (mark_offline m s).pending_approvals ≡ s.pending_approvals
unfolding mark_offline
mark_offline-pending_approvals m s = ground arith

pub get-added :
    (m : Str) (p : ApprovalRequiredPayload) (s : Store) (k : Str)
    → is_empty p.request_id ≡ false
    → Dict.get (upsert_pending_approval m p s).pending_approvals k ≡ (
        if p.request_id == k
        then some (record { machine_id = m; payload = p })
        else Dict.get s.pending_approvals k)
unfolding upsert_pending_approval
get-added m p s k e =
    rw e (Dict.get-put s.pending_approvals p.request_id (record { machine_id = m; payload = p }) k)

pub get-removed :
    (id : Str) (s : Store) (k : Str)
    → is_empty id ≡ false
    → Dict.get (remove_pending_approval id s).pending_approvals k
      ≡ (if id == k then none else Dict.get s.pending_approvals k)
unfolding remove_pending_approval
get-removed id s k e = rw e (Dict.get-remove s.pending_approvals id k)

pub pending_approvals-new_store : new_store.pending_approvals ≡ []
unfolding new_store
pending_approvals-new_store = refl
