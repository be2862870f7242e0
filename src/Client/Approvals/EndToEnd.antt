-- ===== src/Client/Approvals/EndToEnd.antt =====
-- The way of an approval from an agent to the gateway and back.
use agent_console.Prelude.{ap}
use agent_console.Prelude.{ℕ, Str, is_empty, true, false, none, some, ◌≡◌, refl, ◌∙◌, arith, All}
use agent_console.Prelude.Text.{eq_refl}
use agent_console.Prelude.Text.Trim.{trim_space}
use agent_console.Prelude.Dict
use agent_console.Prelude.Time.{TimeText}
use agent_console.Domain.Base64.{IsByte}
use agent_console.Domain.Timeline.{ApprovalRequiredPayload}
use agent_console.Domain.Protocol.{Envelope}
use agent_console.Gateway.Registry
use agent_console.Gateway.ApprovalId.{
  encode_public_approval_request_id, decode_public_approval_request_id,
  decode_public_approval_request_id-encode, normalize_approval_request_id, normalize_public_id,
  public_id_trimmed,
}
use agent_console.Gateway.ClientHub.{ClientHub}
use agent_console.Gateway.ClientHub.Connections.{is_current_owner}
use agent_console.Gateway.ClientHub.Events.{
  approval_id, handle_event_envelope, resolve_approval_machine,
}
use agent_console.Gateway.ClientHub.Sessions.Answers.{
  approval_event, stored_approval, where_registry, handle_event-approval,
}
use agent_console.Client.Approvals.{
  ApprovalContext, ClientSession, public_approval_request_id, raw_approval_request_id,
  decode_public, remember_approval_context, approval_context, approval_required,
}
use agent_console.Client.Approvals.Codec.{client-eq-gateway, decode_public-eq}

-- A request id that the codec is made for: bytes, not blank, without white space round it, and not
-- itself a public id of the machine.
pub record IsRawId (machine raw : Str) : Type 0 where
  pub machine_bytes : All IsByte machine
  pub machine_given : is_empty (trim_space machine) ≡ false
  pub bytes : All IsByte raw
  pub given : is_empty raw ≡ false
  pub trimmed : trim_space raw ≡ raw
  pub foreign : decode_public_approval_request_id machine raw ≡ none

public_of_raw :
    (s : ClientSession) (raw : Str)
    → IsRawId s.machine_id raw
    → public_approval_request_id s raw ≡ encode_public_approval_request_id s.machine_id raw
unfolding normalize_approval_request_id
public_of_raw s raw r = (client-eq-gateway s raw).0 ∙ rw (r.trimmed, r.given, r.foreign) refl

blank_raw : (machine raw : Str) → IsRawId machine raw → is_empty (trim_space raw) ≡ false
blank_raw machine raw r = rw (r.trimmed) r.given

-- The client maps the public id back.
raw_of_public :
    (m raw : Str) (s : ClientSession)
    → s.machine_id ≡ m
    → IsRawId m raw
    → raw_approval_request_id s (encode_public_approval_request_id m raw) ≡ some raw
unfolding raw_approval_request_id
raw_of_public m raw s es r =
    let id = encode_public_approval_request_id m raw in
    let nr = blank_raw m raw r in
    let (trimmed, given) = public_id_trimmed m raw r.machine_bytes r.bytes r.machine_given nr in
    let decoded : decode_public m id ≡ some raw =
      decode_public-eq m id
      ∙ decode_public_approval_request_id-encode m m raw r.machine_bytes r.bytes r.machine_given nr
      ∙ rw (eq_refl m) refl in
    rw (es, trimmed, given, decoded) refl

machine-remember :
    (raw id agent thread turn : Str) (s : ClientSession)
    → (remember_approval_context raw id agent thread turn s).machine_id ≡ s.machine_id
unfolding remember_approval_context
machine-remember raw id agent thread turn s = ground arith

-- The session remembers the agent.
remembered :
    (raw id agent thread turn : Str) (s : ClientSession)
    → is_empty (trim_space id) ≡ false
    → (approval_context (remember_approval_context raw id agent thread turn s) id).agent_id
      ≡ trim_space agent
unfolding approval_context remember_approval_context
remembered raw id agent thread turn s e =
    let context : ApprovalContext = record {
      raw_request_id = trim_space raw;
      public_request_id = id;
      agent_id = trim_space agent;
      thread_id = thread;
      turn_id = turn;
    } in
    rw (e, Dict.get-put s.approval_by_id id context id, eq_refl id) refl

-- The hub files the request under the public id that the client sent.
filed :
    (time : TimeText) (now later m raw : Str) (conn : ℕ) (p : ApprovalRequiredPayload)
    (h : ClientHub) (r : Registry.Store)
    → IsRawId m raw
    → is_current_owner h conn m ≡ true
    → h.registry ≡ some r
    → let id = encode_public_approval_request_id m raw in
      let public_payload = record p { request_id = id } in
      let asked =
        handle_event_envelope time later conn (approval_event m id now public_payload) h in
      (resolve_approval_machine asked id ≡ some m)
      × (stored_approval asked.registry id ≡ some public_payload)
unfolding approval_id
filed time now later m raw conn p h r is_raw ho hr =
    let id = encode_public_approval_request_id m raw in
    let q : ApprovalRequiredPayload = record p { request_id = id } in
    let nr = blank_raw m raw is_raw in
    let (trimmed, given) =
      public_id_trimmed m raw is_raw.machine_bytes is_raw.bytes is_raw.machine_given nr in
    let same : approval_id (approval_event m id now q) id ≡ id =
      rw given
        (normalize_public_id m raw is_raw.machine_bytes is_raw.bytes is_raw.machine_given nr) in
    let f = handle_event-approval time later conn m id now q h ho (rw (same, trimmed) given) in
    (rw same at f.0, rw same at f.1 ∙ ap (λ o. where_registry o q) hr)

-- An agent's request, under an id of its own that is a raw id for the machine, is sent by the client's
-- session, and the hub takes the message from the machine's owner. Then the hub and its registry
-- file the request under one public id, with the machine and the question; and the client maps
-- this id back to the agent's own id of the request, and to the agent.
pub approval-end_to_end :
    (time : TimeText) (now later : Str) (conn : ℕ) (agent : Str) (p : ApprovalRequiredPayload)
    (s : ClientSession) (h : ClientHub) (r : Registry.Store)
    → IsRawId s.machine_id p.request_id
    → is_current_owner h conn s.machine_id ≡ true
    → h.registry ≡ some r
    → let (s', message) = approval_required now true agent p s in
      let id = encode_public_approval_request_id s.machine_id p.request_id in
      (e : Envelope) × (message ≡ some e)
      × (let asked = handle_event_envelope time later conn e h in
          (resolve_approval_machine asked id ≡ some s.machine_id)
          × (stored_approval asked.registry id ≡ some (record p { request_id = id }))
          × (raw_approval_request_id s' id ≡ some p.request_id)
          × ((approval_context s' id).agent_id ≡ trim_space agent))
unfolding approval_required
approval-end_to_end time now later conn agent p s h r raw ho hr =
    let m = s.machine_id in
    let id = encode_public_approval_request_id m p.request_id in
    let q : ApprovalRequiredPayload = record p { request_id = id } in
    let nr = blank_raw m p.request_id raw in
    let (trimmed, given) =
      public_id_trimmed m p.request_id raw.machine_bytes raw.bytes raw.machine_given nr in
    let s' = remember_approval_context p.request_id id agent p.thread_id p.turn_id s in
    let f = filed time now later m p.request_id conn p h r raw ho hr in
    rw (public_of_raw s p.request_id raw) (
      approval_event m id now q,
      refl,
      (
        f.0,
        f.1,
        raw_of_public m p.request_id s'
            (machine-remember p.request_id id agent p.thread_id p.turn_id s) raw,
        remembered p.request_id id agent p.thread_id p.turn_id s (rw trimmed given),
      ),
    )
