-- ===== src/Gateway/ConsoleHub/Delivery.antt =====
-- What a console is sent, and that its buffer is bounded.
use mathlib.Core.List.{append_assoc, append-nil}
use agent_console.Prelude.{
  ℕ, Str, Bool, true, false, ◌&&◌, Option, none, some, List, [], ◌∷◌, ◌++◌, ◌≡◌, refl, sym, ap, ◌∙◌,
  arith, map, nat_eq, if◌then◌else◌, Bool-cases, inl, inr,
}
use agent_console.Domain.Protocol.{Envelope, is_valid}
use agent_console.Gateway.ConsoleHub.{
  ConsoleConn, ConsoleHub, should_deliver_envelope, remove_client, offer_envelope, deliver,
  broadcast, connect, write_next, write_conn, stop_conn, write_step, stop_step, drop_console,
}

pub data ConsoleOp : Type 0 where
  broadcasts : Envelope → ConsoleOp
  connects : Str → ConsoleOp
  writes : ℕ → Bool → ConsoleOp
  stops : ℕ → ConsoleOp
  drops : ℕ → ConsoleOp

abbrev pub apply : ConsoleOp → ConsoleHub → ConsoleHub
apply (broadcasts e) h = broadcast e h
apply (connects thread_id) h = connect thread_id h
apply (writes id written) h = write_step id written h
apply (stops id) h = stop_step id h
apply (drops id) h = drop_console id h

abbrev pub run_ops : List ConsoleOp → ConsoleHub → ConsoleHub
run_ops [] h = h
run_ops (op ∷ ops) h = run_ops ops (apply op h)

abbrev pub find_conn : ℕ → List ConsoleConn → Option ConsoleConn
find_conn id [] = none
find_conn id (c ∷ cs) = let rest = find_conn id cs in if nat_eq c.id id then some c else rest

-- The envelopes of the broadcasts that the thread's consoles are meant to get, in their order.
abbrev pub meant_for : Str → ConsoleOp → List Envelope
meant_for thread_id (broadcasts e) =
    if is_valid e && should_deliver_envelope thread_id e then e ∷ [] else []
meant_for thread_id _ = []

abbrev pub all_meant_for : Str → List ConsoleOp → List Envelope
all_meant_for thread_id [] = []
all_meant_for thread_id (op ∷ ops) = meant_for thread_id op ++ all_meant_for thread_id ops

-- What an operation does to one console.
unfoldable pub conn_step : ConsoleOp → ConsoleConn → ConsoleConn
conn_step (broadcasts e) c = if is_valid e then deliver e c else c
conn_step (connects thread_id) c = c
conn_step (writes id written) c = if nat_eq c.id id then write_conn written c else c
conn_step (stops id) c = if nat_eq c.id id then stop_conn c else c
conn_step (drops id) c = if nat_eq c.id id then remove_client c else c

write_next_id :
    (written : Bool) (es : List Envelope) (c : ConsoleConn) → (write_next written es c).id ≡ c.id
unfolding write_next remove_client
write_next_id true [] c = refl
write_next_id false [] c = refl
write_next_id true (e ∷ es) c = refl
write_next_id false (e ∷ es) c = refl

pub conn_step_id : (op : ConsoleOp) (c : ConsoleConn) → (conn_step op c).id ≡ c.id
unfolding conn_step deliver offer_envelope write_conn stop_conn remove_client
conn_step_id (broadcasts e) c = ground arith
conn_step_id (connects thread_id) c = refl
conn_step_id (writes id written) c = ground (arith, write_next_id written c.outbound c)
conn_step_id (stops id) c = ground arith
conn_step_id (drops id) c = ground arith

pub deliver_id : (e : Envelope) (c : ConsoleConn) → (deliver e c).id ≡ c.id
unfolding deliver offer_envelope remove_client
deliver_id e c = ground arith

abbrev map_conn : (ConsoleConn → ConsoleConn) → Option ConsoleConn → Option ConsoleConn
map_conn f none = none
map_conn f (some c) = some (f c)

find_conn-map :
    (f : ConsoleConn → ConsoleConn) (id : ℕ) (cs : List ConsoleConn)
    → ((c : ConsoleConn) → (f c).id ≡ c.id)
    → find_conn id (map f cs) ≡ map_conn f (find_conn id cs)
find_conn-map f id [] h = refl
find_conn-map f id (c ∷ cs) h = ground (arith, h c, find_conn-map f id cs h)

map_self : (cs : List ConsoleConn) → map (λ c. c) cs ≡ cs
map_self [] = refl
map_self (c ∷ cs) = ap (λ rest. c ∷ rest) (map_self cs)

find_conn-append :
    (id : ℕ) (cs ds : List ConsoleConn) (c : ConsoleConn)
    → find_conn id cs ≡ some c
    → find_conn id (cs ++ ds) ≡ some c
find_conn-append id [] ds c h = ground arith
find_conn-append id (x ∷ cs) ds c h = ground (arith, find_conn-append id cs ds c)

-- A console that the hub knows makes the step of its own, whatever the others do.
find_conn-apply :
    (op : ConsoleOp) (h : ConsoleHub) (id : ℕ) (c : ConsoleConn)
    → find_conn id h.conns ≡ some c
    → find_conn id (apply op h).conns ≡ some (conn_step op c)
unfolding conn_step broadcast connect write_step stop_step drop_console
find_conn-apply (broadcasts e) h id c f = elim (Bool-cases (is_valid e)) [
  | inl v ↦ rw v (find_conn-map (deliver e) id h.conns (deliver_id e) ∙ ap (map_conn (deliver e)) f)
  | inr v ↦ rw v f
]
find_conn-apply (connects thread_id) h id c f = find_conn-append id h.conns _ c f
find_conn-apply (writes k written) h id c f =
    find_conn-map (conn_step (writes k written)) id h.conns (conn_step_id (writes k written))
    ∙ ap (map_conn (conn_step (writes k written))) f
find_conn-apply (stops k) h id c f =
    find_conn-map (conn_step (stops k)) id h.conns (conn_step_id (stops k))
    ∙ ap (map_conn (conn_step (stops k))) f
find_conn-apply (drops k) h id c f =
    find_conn-map (conn_step (drops k)) id h.conns (conn_step_id (drops k))
    ∙ ap (map_conn (conn_step (drops k))) f

write_next-in_order :
    (written : Bool) (es : List Envelope) (c : ConsoleConn)
    → c.outbound ≡ es
    → (write_next written es c).registered ≡ true
    → (c.registered ≡ true)
      × ((write_next written es c).sent ++ (write_next written es c).outbound
          ≡ c.sent ++ c.outbound)
      × ((write_next written es c).thread_id ≡ c.thread_id)
unfolding write_next remove_client
write_next-in_order true [] c eo r = (r, refl, refl)
write_next-in_order false [] c eo r = (r, refl, refl)
write_next-in_order true (e ∷ es) c eo r =
    (r, append_assoc c.sent (e ∷ []) es ∙ ap (λ x. c.sent ++ x) (sym eo), refl)
write_next-in_order false (e ∷ es) c eo r = ground arith

-- A step that leaves a console registered found it registered, and added to what it was sent or waits
-- for what the step meant for it.
conn_step-in_order :
    (op : ConsoleOp) (c : ConsoleConn)
    → (conn_step op c).registered ≡ true
    → (c.registered ≡ true)
      × ((conn_step op c).sent ++ (conn_step op c).outbound
          ≡ (c.sent ++ c.outbound) ++ meant_for c.thread_id op)
      × ((conn_step op c).thread_id ≡ c.thread_id)
unfolding conn_step deliver offer_envelope write_conn stop_conn remove_client
conn_step-in_order (broadcasts e) c r =
    ground (arith, append-nil (c.sent ++ c.outbound), append_assoc c.sent c.outbound (e ∷ []))
conn_step-in_order (connects thread_id) c r = (r, sym (append-nil (c.sent ++ c.outbound)), refl)
conn_step-in_order (writes id written) c r =
    ground (arith, append-nil (c.sent ++ c.outbound), write_next-in_order written c.outbound c refl)
conn_step-in_order (stops id) c r = ground (arith, append-nil (c.sent ++ c.outbound))
conn_step-in_order (drops id) c r = ground (arith, append-nil (c.sent ++ c.outbound))

conn_run : List ConsoleOp → ConsoleConn → ConsoleConn
conn_run [] c = c
conn_run (op ∷ ops) c = conn_run ops (conn_step op c)

find_conn-run_ops :
    (ops : List ConsoleOp) (h : ConsoleHub) (id : ℕ) (c : ConsoleConn)
    → find_conn id h.conns ≡ some c
    → find_conn id (run_ops ops h).conns ≡ some (conn_run ops c)
unfolding conn_run
find_conn-run_ops [] h id c f = f
find_conn-run_ops (op ∷ ops) h id c f =
    find_conn-run_ops ops (apply op h) id (conn_step op c) (find_conn-apply op h id c f)

conn_run-in_order :
    (ops : List ConsoleOp) (c : ConsoleConn)
    → (conn_run ops c).registered ≡ true
    → (c.registered ≡ true)
      × ((conn_run ops c).sent ++ (conn_run ops c).outbound
          ≡ (c.sent ++ c.outbound) ++ all_meant_for c.thread_id ops)
unfolding conn_run
conn_run-in_order [] c r = (r, sym (append-nil (c.sent ++ c.outbound)))
conn_run-in_order (op ∷ ops) c r =
    let (here, rest) = conn_run-in_order ops (conn_step op c) r in
    let (was, made, same) = conn_step-in_order op c here in
    (
      was,
      rest
          ∙ ap (λ t. ((conn_step op c).sent ++ (conn_step op c).outbound) ++ all_meant_for t ops)
              same
          ∙ ap (λ x. x ++ all_meant_for c.thread_id ops) made
          ∙ append_assoc (c.sent ++ c.outbound) (meant_for c.thread_id op)
              (all_meant_for c.thread_id ops),
    )

-- Of a console that the hub has, and has still after any sequence of broadcasts, writes, failures and
-- of other consoles that come and go: what its socket took, followed by what waits in its
-- buffer, has grown by exactly the envelopes that were broadcast and are meant for its thread, in their
-- order. None is lost, repeated or out of order.
pub run_ops-in_order :
    (ops : List ConsoleOp) (h : ConsoleHub) (id : ℕ) (before after : ConsoleConn)
    → find_conn id h.conns ≡ some before
    → find_conn id (run_ops ops h).conns ≡ some after
    → after.registered ≡ true
    → (after.sent ++ after.outbound
        ≡ (before.sent ++ before.outbound) ++ all_meant_for before.thread_id ops)
run_ops-in_order ops h id before after fb fa r =
    ground (arith, find_conn-run_ops ops h id before fb, conn_run-in_order ops before)
