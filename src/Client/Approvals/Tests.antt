-- ===== src/Client/Approvals/Tests.antt =====
-- The approvals of the client's session at concrete inputs.
use agent_console.Prelude.{str, ◌==◌, ◌≡◌, refl, true, none, some, [], ◌∷◌, arith}
use agent_console.Prelude.Dict
use agent_console.Prelude.Text.{split}
use agent_console.Prelude.Text.Trim.{trim_space}
use agent_console.Prelude.Time.Sample.{sample_time}
use agent_console.Domain.Timeline.{ApprovalRequiredPayload}
use agent_console.Domain.Protocol.{Envelope}
use agent_console.Gateway.Registry
use agent_console.Gateway.ApprovalId.{
  encode_public_approval_request_id, decode_public_approval_request_id,
  normalize_approval_request_id,
}
use agent_console.Gateway.ClientHub.{ClientHub, new_client_hub_with_stores}
use agent_console.Gateway.ClientHub.Connections.{is_current_owner}
use agent_console.Gateway.ClientHub.Events.{handle_event_envelope, resolve_approval_machine}
use agent_console.Gateway.ClientHub.Sessions.Answers.{stored_approval}
use agent_console.Client.Approvals.{
  ClientSession, public_approval_request_id, raw_approval_request_id, decode_public,
  approval_context, approval_required,
}
use agent_console.Client.Approvals.Codec.{client-eq-gateway}
use agent_console.Client.Approvals.EndToEnd.{IsRawId, approval-end_to_end}

abbrev session : ClientSession
session = record { machine_id = str "m1"; approval_by_id = [] }

client-eq-gateway_example :
    (public_approval_request_id session (str "7")
      ≡ normalize_approval_request_id (str "m1") (str "7"))
    × (decode_public (str "m1") (str "7") ≡ decode_public_approval_request_id (str "m1") (str "7"))
client-eq-gateway_example = client-eq-gateway session (str "7")

abbrev question : ApprovalRequiredPayload
question = record {
  request_id = str "7";
  thread_id = str "t1";
  turn_id = [];
  item_id = [];
  kind = str "command";
  reason = [];
  command = str "ls";
  questions = [];
}

question-IsRawId : IsRawId (str "m1") (str "7")
unfolding trim_space decode_public_approval_request_id split
question-IsRawId = record {
  machine_bytes = omega arith;
  machine_given = refl;
  bytes = omega arith;
  given = refl;
  trimmed = refl;
  foreign = refl;
}

abbrev hub : ClientHub
hub = record (new_client_hub_with_stores (some Registry.new_store) none none) {
  clients = (str "m1", 5) ∷ [];
}

approval-end_to_end_example :
    let (session', message) = approval_required (str "E") true (str "agent-01") question session in
    let id = encode_public_approval_request_id (str "m1") (str "7") in
    (e : Envelope) × (message ≡ some e)
    × (let asked = handle_event_envelope sample_time (str "E") 5 e hub in
        (resolve_approval_machine asked id ≡ some (str "m1"))
        × (stored_approval asked.registry id ≡ some (record question { request_id = id }))
        × (raw_approval_request_id session' id ≡ some (str "7"))
        × ((approval_context session' id).agent_id ≡ trim_space (str "agent-01")))
unfolding is_current_owner Dict.get ◌==◌
approval-end_to_end_example =
    approval-end_to_end sample_time (str "E") (str "E") 5 (str "agent-01") question session hub
      Registry.new_store question-IsRawId refl refl
