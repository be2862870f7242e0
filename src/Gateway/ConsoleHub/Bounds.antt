-- ===== src/Gateway/ConsoleHub/Bounds.antt =====
-- That the buffers of the consoles stay within bounds, and that a console that is closed gets nothing.
use agent_console.Prelude.{
  ◌≤◌, Bool, true, false, List, [], ◌∷◌, ◌≡◌, refl, arith, map, length, All, if_both, Bool-cases,
  inl, inr,
}
use agent_console.Prelude.Lists.{length-append, All-append}
use agent_console.Domain.Protocol.{Envelope, is_valid}
use agent_console.Gateway.ConsoleHub.{
  ConsoleConn, ConsoleHub, remove_client, offer_envelope, deliver, broadcast, connect, write_next,
  write_conn, stop_conn, write_step, stop_step, drop_console, console_outbound_buffer_size,
}
use agent_console.Gateway.ConsoleHub.Delivery.{
  ConsoleOp, broadcasts, connects, writes, stops, drops, apply, run_ops, conn_step,
}

-- A console within bounds: its buffer is not overfull, and only a console that the hub has dropped is
-- closed or without a write loop.
pub record IsBounded (c : ConsoleConn) : Type 0 where
  pub within : length c.outbound ≤ console_outbound_buffer_size
  pub open_if : c.registered ≡ true → (c.closed ≡ false) × (c.looping ≡ true)

write_next-IsBounded :
    (written : Bool) (es : List Envelope) (c : ConsoleConn)
    → c.outbound ≡ es
    → IsBounded c
    → IsBounded (write_next written es c)
unfolding write_next remove_client
write_next-IsBounded true [] c e b = b
write_next-IsBounded false [] c e b = b
write_next-IsBounded true (x ∷ es) c e b = ground arith
write_next-IsBounded false (x ∷ es) c e b = ground arith

deliver-IsBounded : (e : Envelope) (c : ConsoleConn) → IsBounded c → IsBounded (deliver e c)
unfolding deliver offer_envelope remove_client
deliver-IsBounded e c b = ground (arith, length-append c.outbound (e ∷ []))

conn_step-IsBounded : (op : ConsoleOp) (c : ConsoleConn) → IsBounded c → IsBounded (conn_step op c)
unfolding conn_step deliver offer_envelope write_conn stop_conn remove_client
conn_step-IsBounded (broadcasts e) c b = if_both IsBounded (is_valid e) (deliver-IsBounded e c b) b
conn_step-IsBounded (connects thread_id) c b = b
conn_step-IsBounded (writes id written) c b =
    ground (arith, write_next-IsBounded written c.outbound c refl b)
conn_step-IsBounded (stops id) c b = ground arith
conn_step-IsBounded (drops id) c b = ground arith

-- What holds of every console holds after a step, if a step of a console keeps it.
All-map :
    (P : ConsoleConn → Type 0) (f : ConsoleConn → ConsoleConn) (cs : List ConsoleConn)
    → ((c : ConsoleConn) → P c → P (f c))
    → All P cs
    → All P (map f cs)
All-map P f [] keeps h = tt
All-map P f (c ∷ cs) keeps h = (keeps c h.0, All-map P f cs keeps h.1)

apply-IsBounded :
    (op : ConsoleOp) (h : ConsoleHub) → All IsBounded h.conns → All IsBounded (apply op h).conns
unfolding conn_step broadcast connect write_step stop_step drop_console
apply-IsBounded (broadcasts e) h b = elim (Bool-cases (is_valid e)) [
  | inl v ↦ rw v (All-map IsBounded (deliver e) h.conns (deliver-IsBounded e) b)
  | inr v ↦ rw v b
]
apply-IsBounded (connects thread_id) h b = All-append IsBounded h.conns _ b (ground arith, tt)
apply-IsBounded (writes id written) h b =
    All-map IsBounded (conn_step (writes id written)) h.conns
      (conn_step-IsBounded (writes id written)) b
apply-IsBounded (stops id) h b =
    All-map IsBounded (conn_step (stops id)) h.conns (conn_step-IsBounded (stops id)) b
apply-IsBounded (drops id) h b =
    All-map IsBounded (conn_step (drops id)) h.conns (conn_step-IsBounded (drops id)) b

-- Whatever happens, no buffer holds more than 32 messages, and a console that the hub has is neither
-- closed nor without its write loop.
pub run_ops-IsBounded :
    (ops : List ConsoleOp) (h : ConsoleHub)
    → All IsBounded h.conns
    → All IsBounded (run_ops ops h).conns
run_ops-IsBounded [] h b = b
run_ops-IsBounded (op ∷ ops) h b = run_ops-IsBounded ops (apply op h) (apply-IsBounded op h b)
