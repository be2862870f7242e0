-- ===== src/Gateway/ClientHub/Sessions/Tests.antt =====
-- Sessions at concrete inputs: connection 5 registers machine m1 and sends a command's answer.
use agent_console.Prelude.{Str, str, ◌≡◌, refl, true, some, List, [], ◌∷◌, arith}
use agent_console.Prelude.Dict
use agent_console.Prelude.Time.Sample.{sample_time}
use agent_console.Domain.Timeline.{ApprovalRequiredPayload}
use agent_console.Domain.Protocol.{CommandCompletedPayload, CompletedResult}
use agent_console.Gateway.Registry
use agent_console.Gateway.RuntimeIndex
use agent_console.Gateway.Routing.{new_router}
use agent_console.Gateway.ClientHub.{new_client_hub_with_stores}
use agent_console.Gateway.ClientHub.Connections.{request_id, register_client, disconnect_client}
use agent_console.Gateway.ClientHub.Events.{approval_id}
use agent_console.Gateway.ClientHub.Sessions.{Served, register, Step, receive, close, begin}
use agent_console.Gateway.ClientHub.Sessions.Reconnect.{disconnect_client-register}
use agent_console.Gateway.ClientHub.Sessions.Answers.{approval_event}

abbrev m1 : Str
m1 = str "m1"

abbrev start : Served
start = record {
  hub =
      new_client_hub_with_stores (some Registry.new_store) (some RuntimeIndex.new_store)
        (some new_router);
  registered = λ c. [];
}

abbrev steps : List Step
steps =
    receive (str "E") 5 (register m1 (str "laptop") (str "C"))
    ∷ begin m1 true true
    ∷ receive (str "E") 6 (register (str "m2") [] (str "C"))
    ∷ close (str "E") 6
    ∷ []

abbrev answer : CommandCompletedPayload
answer = record {
  command_name = str "turn.start";
  result = str "{}";
  decoded = CompletedResult.thread_archived (some (str "t1"));
}

abbrev served : Served
served = record { hub = record start.hub { clients = (m1, 5) ∷ [] }; registered = λ c. m1 }

abbrev question : ApprovalRequiredPayload
question = record {
  request_id = str "7";
  thread_id = str "t1";
  turn_id = [];
  item_id = [];
  kind = str "command";
  reason = [];
  command = str "ls";
  questions = [];
}

abbrev question_id : Str
question_id = approval_id (approval_event m1 [] (str "C") question) (str "7")

-- Connection 6 registers the machine of connection 5, which is lost after that.
disconnect_client-register_example :
    let g = (register_client sample_time (str "E") 6 [] m1 [] (str "D") served.hub).0 in
    let lost = disconnect_client sample_time (str "F") 5 m1 g in
    (Dict.get lost.clients m1 ≡ some 6) × (record lost { console_hub = g.console_hub } ≡ g)
disconnect_client-register_example =
    disconnect_client-register sample_time (str "E") (str "F") 6 5 [] m1 [] (str "D") served.hub
      refl (λ e. omega arith)
