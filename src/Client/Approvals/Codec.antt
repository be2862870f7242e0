-- ===== src/Client/Approvals/Codec.antt =====
-- The client's codec of the public ids, against the gateway's.
use agent_console.Prelude.{Str, List, [], ◌∷◌, ◌≡◌, refl, arith}
use agent_console.Prelude.Text.{split}
use agent_console.Prelude.Text.Trim.{trim_space}
use agent_console.Gateway.ApprovalId.{
  encode_public_approval_request_id, decode_public_approval_request_id,
  normalize_approval_request_id, decode_parts, names_machine, decoded_request,
}
use agent_console.Client.Approvals.{
  ClientSession, encode_public, decode_public, three_parts, decoded_for, decoded_raw,
  public_approval_request_id,
}

encode_public-eq : (m raw : Str) → encode_public m raw ≡ encode_public_approval_request_id m raw
unfolding encode_public encode_public_approval_request_id
encode_public-eq m raw = refl

three_parts-eq : (m : Str) (parts : List Str) → three_parts m parts ≡ decode_parts m parts
unfolding three_parts decode_parts decoded_for decoded_raw names_machine decoded_request
three_parts-eq m [] = refl
three_parts-eq m (a ∷ []) = refl
three_parts-eq m (a ∷ b ∷ []) = refl
three_parts-eq m (a ∷ b ∷ c ∷ []) = ground arith
three_parts-eq m (a ∷ b ∷ c ∷ d ∷ rest) = refl

pub decode_public-eq : (m id : Str) → decode_public m id ≡ decode_public_approval_request_id m id
unfolding decode_public decode_public_approval_request_id
decode_public-eq m id = three_parts-eq m (split b'.' (trim_space id))

-- The client and the gateway, each with a codec of its own, give every id the same public id, and read
-- every public id alike.
pub client-eq-gateway :
    (s : ClientSession) (id : Str)
    → (public_approval_request_id s id ≡ normalize_approval_request_id s.machine_id id)
      × (decode_public s.machine_id id ≡ decode_public_approval_request_id s.machine_id id)
unfolding public_approval_request_id normalize_approval_request_id
client-eq-gateway s id = (
  rw (decode_public-eq s.machine_id (trim_space id), encode_public-eq s.machine_id (trim_space id))
      (ground arith),
  decode_public-eq s.machine_id id,
)
