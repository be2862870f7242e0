-- ===== src/Gateway/ClientHub/Tests.antt =====
-- The hub at concrete inputs.
use agent_console.Prelude.{Str, str, ◌==◌, ◌≡◌, ◌≢◌, refl, true, none, some, List, [], ◌∷◌, arith}
use agent_console.Prelude.Dict
use agent_console.Prelude.Text.Trim.{trim_space}
use agent_console.Prelude.Time.Sample.{sample_time}
use agent_console.Domain.Thread.{Thread, ThreadStatus}
use agent_console.Gateway.RuntimeIndex
use agent_console.Gateway.RuntimeIndex.Activity.{latest_thread_activity}
use agent_console.Gateway.Routing.{new_router, Router, resolve_thread}
use agent_console.Gateway.ApprovalId.{
  encode_public_approval_request_id, decode_public_approval_request_id,
  decode_public_approval_request_id-encode,
}
use agent_console.Gateway.ClientHub.{
  ClientHub, MachineSnapshotState, new_client_hub_with_stores, PendingCommandWaiter,
}
use agent_console.Gateway.ClientHub.Activity.{
  latest_activity_timestamp, latest_activity_timestamp-eq-latest_thread_activity,
}
use agent_console.Gateway.ClientHub.Connections.{
  is_current_owner, disconnect_client, request_id, has_result,
}
use agent_console.Gateway.ClientHub.Cleanup.{IsGone, disconnect_client-IsGone}
use agent_console.Gateway.ClientHub.Mirror.{IsMirrored, SnapshotOp}
use agent_console.Gateway.ClientHub.Commands.{IsSettled}
use agent_console.Gateway.ClientHub.Commands.Runs.{CommandOp, begin, cancel}
use agent_console.Gateway.RuntimeIndex.Routes.{RoutesAgree}
use agent_console.Gateway.ClientHub.Envelopes.{handle_snapshot_envelope, thread_snapshot}
use agent_console.Gateway.ClientHub.Envelopes.Agreement.{thread_snapshot-RoutesAgree}
use agent_console.Domain.Protocol.{Envelope, Category, Payload}

latest_activity_timestamp-eq-latest_thread_activity_example :
    latest_activity_timestamp sample_time (str "B") (str "D")
    ≡ latest_thread_activity sample_time (str "B") (str "D")
latest_activity_timestamp-eq-latest_thread_activity_example =
    latest_activity_timestamp-eq-latest_thread_activity sample_time (str "B") (str "D")

decode_public_approval_request_id-encode_example :
    decode_public_approval_request_id
      (str "m2")
      (encode_public_approval_request_id (str "m1") (str "7"))
    ≡ none
unfolding trim_space ◌==◌
decode_public_approval_request_id-encode_example =
    decode_public_approval_request_id-encode (str "m2") (str "m1") (str "7") (omega arith)
      (omega arith) refl refl

abbrev m1 : Str
m1 = str "m1"

abbrev thread1 : Thread
thread1 = record {
  thread_id = str "t1";
  machine_id = m1;
  agent_id = str "agent-01";
  status = ThreadStatus.active;
  title = [];
  last_activity_at = str "B";
  messages = [];
}

abbrev routed : Router
routed = record { threads = (str "t1", record { machine_id = m1; agent_id = str "agent-01" }) ∷ [] }

abbrev hub0 : ClientHub
hub0 = new_client_hub_with_stores none (some RuntimeIndex.new_store) (some routed)

-- Connection 5 serves machine m1.
abbrev hub1 : ClientHub
hub1 = record hub0 { clients = (m1, 5) ∷ [] }

m1_given : m1 ≢ []
m1_given e = ground arith

disconnect_client-IsGone_example :
    IsGone m1 hub1 (disconnect_client sample_time (str "E") 5 m1 hub1)
unfolding Dict.get ◌==◌
disconnect_client-IsGone_example =
    disconnect_client-IsGone sample_time (str "E") 5 m1 hub1 m1_given refl

hub0-IsMirrored : IsMirrored hub0
hub0-IsMirrored = record {
  agrees = λ index k state ei es. ground (arith, Dict.get-nil {V = MachineSnapshotState} k);
}

abbrev snapshot_ops : List SnapshotOp
snapshot_ops =
    SnapshotOp.upsert_thread m1 thread1
    ∷ SnapshotOp.start_turn (str "E") m1 (str "t1") (str "turn") (str "C")
    ∷ SnapshotOp.disconnect (str "E") 5 m1
    ∷ []

hub1-IsSettled : IsSettled hub1
unfolding has_result
hub1-IsSettled = record {
  keyed = tt;
  waiting = λ id w e. ground (arith, Dict.get-nil {V = PendingCommandWaiter} id);
  sent = λ c lt. refl;
}

abbrev command_ops : List CommandOp
command_ops = begin m1 true true ∷ begin m1 true true ∷ cancel (request_id 1) ∷ []

routes_agree0 : RoutesAgree RuntimeIndex.new_store new_router
unfolding RuntimeIndex.thread_route RuntimeIndex.new_store resolve_thread new_router Dict.get
routes_agree0 id = refl

abbrev hub2 : ClientHub
hub2 = record hub1 { router = some new_router }

thread_snapshot-RoutesAgree_example :
    let h' =
      handle_snapshot_envelope sample_time
        (str "E")
        5
        m1
        (str "E")
        (thread_snapshot (some (thread1 ∷ [])))
        hub2 in
    (s' : RuntimeIndex.Store) × (r' : Router) × (h'.runtime_index ≡ some s')
    × (h'.router ≡ some r')
    × RoutesAgree s' r'
unfolding is_current_owner Dict.get ◌==◌
thread_snapshot-RoutesAgree_example =
    thread_snapshot-RoutesAgree sample_time (str "E") 5 m1 (str "E") (thread1 ∷ []) hub2
      RuntimeIndex.new_store new_router refl refl routes_agree0 refl

abbrev turn_event : Envelope
turn_event = record {
  version = str "v1";
  category = Category.event;
  request_id = [];
  machine_id = m1;
  timestamp = str "E";
  payload = Payload.turn_started (some (record { thread_id = str "t1"; turn_id = str "turn" }));
}
