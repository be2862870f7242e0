-- ===== src/Gateway/ConsoleHub/Tests.antt =====
-- The hub of the consoles at concrete inputs.
use agent_console.Prelude.{
  Str, str, ◌==◌, ◌≡◌, refl, true, false, some, List, [], ◌∷◌, ◌++◌, All, arith,
}
use agent_console.Domain.Protocol.{Envelope, Category, Payload, is_valid}
use agent_console.Gateway.ConsoleHub.{
  ConsoleConn, ConsoleHub, new_console_hub, connect, broadcast, deliver, offer_envelope, write_step,
  write_conn, write_next, should_deliver_envelope, envelope_thread_id, payload_thread_id,
}
use agent_console.Gateway.ConsoleHub.Delivery.{
  ConsoleOp, broadcasts, connects, writes, run_ops, all_meant_for, run_ops-in_order,
}
use agent_console.Gateway.ConsoleHub.Bounds.{IsBounded, run_ops-IsBounded}

abbrev delta_of : Str → Envelope
delta_of thread_id = record {
  version = str "v1";
  category = Category.event;
  request_id = [];
  machine_id = str "m1";
  timestamp = [];
  payload = Payload.turn_delta (some thread_id);
}

-- Console 0 looks at every thread, and console 1 at thread "t".
abbrev two_consoles : ConsoleHub
two_consoles = connect (str "t") (connect [] new_console_hub)

abbrev busy : List ConsoleOp
busy =
    broadcasts (delta_of (str "t"))
    ∷ writes 1 true
    ∷ broadcasts (delta_of (str "u"))
    ∷ connects []
    ∷ broadcasts (delta_of (str "t"))
    ∷ []

abbrev conn1 : ConsoleConn
conn1 = record {
  id = 1;
  thread_id = str "t";
  outbound = [];
  sent = [];
  registered = true;
  closed = false;
  looping = true;
}

abbrev conn1_after : ConsoleConn
conn1_after = record conn1 { outbound = delta_of (str "t") ∷ []; sent = delta_of (str "t") ∷ [] }

run_ops-in_order_example : conn1_after.sent ++ conn1_after.outbound ≡ all_meant_for (str "t") busy
unfolding new_console_hub connect broadcast deliver offer_envelope write_step write_conn write_next
    should_deliver_envelope envelope_thread_id payload_thread_id is_valid ◌==◌
run_ops-in_order_example = run_ops-in_order busy two_consoles 1 conn1 conn1_after refl refl refl

run_ops-IsBounded_example : All IsBounded (run_ops busy two_consoles).conns
unfolding new_console_hub connect
run_ops-IsBounded_example = run_ops-IsBounded busy two_consoles (ground arith, (ground arith, tt))
