-- ===== src/Client/Approvals.antt =====
-- client/cmd/client/main.go: the approvals of the client's session. An agent asks under an id of its own;
-- towards the gateway the session names the request by a public id, which it maps back when the
-- answer comes. Whether a message is sent is an argument, and so is the clock, formatted.
pub mod Codec
pub mod EndToEnd
mod Tests
use agent_console.Prelude.{
  Str, str, ◌==◌, is_empty, Bool, true, false, not, Option, none, some, List, [], ◌∷◌, ◌++◌,
  if◌then◌else◌,
}
use agent_console.Prelude.Text.{split}
use agent_console.Prelude.Text.Trim.{trim_space}
use agent_console.Prelude.Dict
use agent_console.Prelude.Dict.{Dict}
use agent_console.Domain.Base64.{encode, decode}
use agent_console.Domain.Timeline.{ApprovalRequiredPayload}
use agent_console.Domain.Protocol.{
  Envelope, Category, Payload, ApprovalResolvedPayload, ApprovalRespondPayload,
}

pub record ApprovalContext : Type 0 where
  pub raw_request_id : Str
  pub public_request_id : Str
  pub agent_id : Str
  pub thread_id : Str
  pub turn_id : Str

-- The fields of clientSession that the approvals need.
pub record ClientSession : Type 0 where
  pub machine_id : Str
  pub approval_by_id : Dict ApprovalContext

abbrev blank : Str → Bool
blank s = is_empty (trim_space s)

unfoldable pub encode_public : Str → Str → Str
encode_public machine_id raw =
    if blank machine_id
    then []
    else if blank raw
    then []
    else str "apr." ++ (encode machine_id ++ (str "." ++ encode raw))

decoded_raw : Option Str → Option Str
decoded_raw none = none
decoded_raw (some raw) = if blank raw then none else some raw

decoded_for : Str → Option Str → Str → Option Str
unfolding decoded_raw
decoded_for machine_id none third = none
decoded_for machine_id (some decoded) third =
    if decoded == machine_id then decoded_raw (decode third) else none

three_parts : Str → List Str → Option Str
unfolding decoded_for
three_parts machine_id (first ∷ second ∷ third ∷ []) =
    if first == str "apr" then decoded_for machine_id (decode second) third else none
three_parts machine_id _ = none

unfoldable pub decode_public : Str → Str → Option Str
unfolding three_parts
decode_public machine_id public_id = three_parts machine_id (split b'.' (trim_space public_id))

abbrev pub is_some {ℓ} : {A : Type ℓ} → Option A → Bool
is_some none = false
is_some (some a) = true

unfoldable pub public_approval_request_id : ClientSession → Str → Str
public_approval_request_id s request_id =
    let id = trim_space request_id in
    if is_empty id
    then []
    else if is_some (decode_public s.machine_id id)
    then id
    else encode_public s.machine_id id

-- strings.HasPrefix
has_prefix : Str → Str → Bool
has_prefix [] s = true
has_prefix (p ∷ prefix) [] = false
has_prefix (p ∷ prefix) (c ∷ s) = if (p ∷ []) == (c ∷ []) then has_prefix prefix s else false

-- What the table says of an id that does not decode.
remembered_raw : Option ApprovalContext → Str → Option Str
unfolding has_prefix
remembered_raw none id = if has_prefix (str "apr.") id then none else some id
remembered_raw (some c) id =
    if not (blank c.raw_request_id)
    then some c.raw_request_id
    else if has_prefix (str "apr.") id
    then none
    else some id

abbrev or_remembered : Option Str → Option Str → Option Str
or_remembered (some raw) other = some raw
or_remembered none other = other

unfoldable pub raw_approval_request_id : ClientSession → Str → Option Str
unfolding remembered_raw
raw_approval_request_id s request_id =
    let id = trim_space request_id in
    if is_empty id
    then none
    else or_remembered (decode_public s.machine_id id)
        (remembered_raw (Dict.get s.approval_by_id id) id)

unfoldable pub remember_approval_context :
    Str → Str → Str → Str → Str → ClientSession → ClientSession
remember_approval_context raw public_id agent_id thread_id turn_id s =
    if blank public_id then s else record s {
      approval_by_id = Dict.put s.approval_by_id public_id (record {
        raw_request_id = trim_space raw;
        public_request_id = public_id;
        agent_id = trim_space agent_id;
        thread_id = thread_id;
        turn_id = turn_id;
      });
    }

abbrev no_context : ApprovalContext
no_context = record {
  raw_request_id = [];
  public_request_id = [];
  agent_id = [];
  thread_id = [];
  turn_id = [];
}

unfoldable pub approval_context : ClientSession → Str → ApprovalContext
approval_context s request_id =
    if blank request_id
    then no_context
    else Dict.get_or no_context (Dict.get s.approval_by_id request_id)

unfoldable pub clear_approval_context : Str → ClientSession → ClientSession
clear_approval_context request_id s =
    if blank request_id
    then s
    else record s { approval_by_id = Dict.remove s.approval_by_id request_id }

-- sendEnvelope for an event.
abbrev pub event_envelope : ClientSession → Str → Str → Payload → Envelope
event_envelope s now request_id payload = record {
  version = str "v1";
  category = Category.event;
  request_id = request_id;
  machine_id = s.machine_id;
  timestamp = now;
  payload = payload;
}

abbrev pub when_sent : Bool → Envelope → Option Envelope
when_sent sent e = if sent then some e else none

-- ApprovalRequired. The message is `none` where it could not be sent; the context is kept even so.
unfoldable pub approval_required :
    Str → Bool → Str → ApprovalRequiredPayload → ClientSession → ClientSession × Option Envelope
approval_required now sent agent_id payload s =
    let public_id = public_approval_request_id s payload.request_id in
    (
      remember_approval_context payload.request_id public_id agent_id payload.thread_id
          payload.turn_id s,
      when_sent sent (
          event_envelope s now public_id
            (Payload.approval_required (some (record payload { request_id = public_id })))),
    )

abbrev or_else : Str → Str → Str
or_else given fallback = if is_empty given then fallback else given

-- ApprovalResolved. The context goes once the message is sent.
unfoldable pub approval_resolved :
    Str → Bool → ApprovalResolvedPayload → ClientSession → ClientSession × Option Envelope
approval_resolved now sent payload s =
    let public_id = public_approval_request_id s payload.request_id in
    let context = approval_context s public_id in
    let complete : ApprovalResolvedPayload = record payload {
      request_id = public_id;
      thread_id = or_else payload.thread_id context.thread_id;
      turn_id = or_else payload.turn_id context.turn_id;
    } in
    (
      if sent then clear_approval_context public_id s else s,
      when_sent sent (event_envelope s now public_id (Payload.approval_resolved (some complete))),
    )

-- How the command approval.respond ends: rejected because the id names no request, because no agent can be
-- resolved, or because the agent refuses; or answered, with the agent and the agent's own id of
-- the request.
pub data RespondOutcome : Type 0 where
  request_not_found agent_unresolved : RespondOutcome
  agent_refused answer_unsent : Str → Str → RespondOutcome
  answered : Str → Str → Option Envelope → RespondOutcome

-- `resolve` is resolveAgentID, `respond` whether the agent takes the answer.
module _ (resolve : Str → Option Str) (respond : Str → Str → Str → Bool) where
  answer_agent :
      Str
      → Bool
      → Bool
      → ApprovalRespondPayload
      → Str
      → Str
      → ClientSession
      → ClientSession × RespondOutcome
  answer_agent now completed_sent resolved_sent p agent_id raw s =
      let (s', sent) =
        approval_resolved now resolved_sent
          (record {
            request_id = p.request_id;
            thread_id = p.thread_id;
            turn_id = p.turn_id;
            decision = p.decision;
          })
          s in
      if not (respond agent_id raw p.decision)
      then (s, agent_refused agent_id raw)
      else if not completed_sent
      then (s, answer_unsent agent_id raw)
      else (s', answered agent_id raw sent)

  with_agent :
      Str
      → Bool
      → Bool
      → ApprovalRespondPayload
      → Str
      → Option Str
      → ClientSession
      → ClientSession × RespondOutcome
  unfolding answer_agent
  with_agent now completed_sent resolved_sent p raw none s = (s, agent_unresolved)
  with_agent now completed_sent resolved_sent p raw (some agent_id) s =
      answer_agent now completed_sent resolved_sent p agent_id raw s

  with_request :
      Str
      → Bool
      → Bool
      → ApprovalRespondPayload
      → Option Str
      → ClientSession
      → ClientSession × RespondOutcome
  unfolding with_agent
  with_request now completed_sent resolved_sent p none s = (s, request_not_found)
  with_request now completed_sent resolved_sent p (some raw) s =
      with_agent now completed_sent resolved_sent p raw
        (resolve (approval_context s p.request_id).agent_id) s

  -- The case approval.respond of the dispatch of commands.
  unfoldable pub respond_approval :
      Str → Bool → Bool → ApprovalRespondPayload → ClientSession → ClientSession × RespondOutcome
  unfolding with_request
  respond_approval now completed_sent resolved_sent p s =
      with_request now completed_sent resolved_sent p (raw_approval_request_id s p.request_id) s
