-- ===== src/Gateway/ApprovalId.antt =====
-- gateway/internal/websocket/client_hub.go: normalizeApprovalRequestID, encodePublicApprovalRequestID
-- and decodePublicApprovalRequestID. The public id of a request is "apr.", the machine's id and the
-- request's own id, both in base64.
use agent_console.Prelude.{
  Str, str, ◌==◌, is_empty, Bool, true, false, not, Option, none, some, List, [], ◌∷◌, ◌++◌, ◌≡◌,
  refl, ap, ◌∙◌, arith, if◌then◌else◌, All,
}
use agent_console.Prelude.Text.{split, eq_refl}
use agent_console.Prelude.Text.Trim.{trim_space}
use agent_console.Domain.Base64.{encode, decode, decode-encode, IsByte, IsDigit, encode-IsDigit}
use agent_console.Domain.ThreadId.{is_blank, split_three, trim_three}

abbrev approval_prefix : Str
approval_prefix = str "apr"

unfoldable pub encode_public_approval_request_id : Str → Str → Str
encode_public_approval_request_id machine_id raw_request_id =
    if is_blank machine_id
    then []
    else if is_blank raw_request_id
    then []
    else approval_prefix ++ (b'.' ∷ (encode machine_id ++ (b'.' ∷ encode raw_request_id)))

-- The test of the second part.
unfoldable pub names_machine : Str → Option Str → Bool
names_machine machine_id none = false
names_machine machine_id (some decoded) = decoded == machine_id

-- The test of the third part.
unfoldable pub decoded_request : Option Str → Option Str
decoded_request none = none
decoded_request (some request) = if is_blank request then none else some request

unfoldable pub decode_parts : Str → List Str → Option Str
decode_parts machine_id (prefix ∷ machine ∷ request ∷ []) =
    if not (prefix == approval_prefix)
    then none
    else if not (names_machine machine_id (decode machine))
    then none
    else decoded_request (decode request)
decode_parts machine_id _ = none

unfoldable pub decode_public_approval_request_id : Str → Str → Option Str
unfolding decode_parts names_machine decoded_request
decode_public_approval_request_id machine_id public_request_id =
    decode_parts machine_id (split b'.' (trim_space public_request_id))

unfoldable pub normalize_approval_request_id : Str → Str → Str
normalize_approval_request_id machine_id request_id =
    let id = trim_space request_id in
    let is_public : Bool = elim (decode_public_approval_request_id machine_id id) [
      | none ↦ false
      | some r ↦ true
    ] in
    if is_empty id
    then []
    else if is_public
    then id
    else encode_public_approval_request_id machine_id id

prefix-IsDigit : All IsDigit approval_prefix
prefix-IsDigit = (
  ((omega arith, omega arith), refl),
  (((omega arith, omega arith), refl), (((omega arith, omega arith), refl), tt)),
)

decode_parts_encoded :
    (asked machine request : Str)
    → All IsByte machine
    → All IsByte request
    → is_blank request ≡ false
    → decode_parts asked (approval_prefix ∷ encode machine ∷ encode request ∷ [])
      ≡ (if machine == asked then some request else none)
unfolding decode_parts names_machine decoded_request
decode_parts_encoded asked machine request hm hr nr =
    rw (eq_refl approval_prefix, decode-encode machine hm, decode-encode request hr, nr)
      (ground arith)

-- The public id of a request gives the request's own id back to the machine that it was made for,
-- and nothing to a machine with another id. The two ids are byte strings and not blank.
pub decode_public_approval_request_id-encode :
    (asked machine request : Str)
    → All IsByte machine
    → All IsByte request
    → is_blank machine ≡ false
    → is_blank request ≡ false
    → decode_public_approval_request_id asked (encode_public_approval_request_id machine request)
      ≡ (if machine == asked then some request else none)
unfolding decode_public_approval_request_id encode_public_approval_request_id
decode_public_approval_request_id-encode asked machine request hm hr nm nr =
    rw (nm, nr)
      (ap (decode_parts asked) (
          split_three approval_prefix (encode machine) (encode request) prefix-IsDigit
            (encode-IsDigit machine hm) (encode-IsDigit request hr))
        ∙ decode_parts_encoded asked machine request hm hr nr)

-- A public id is not blank, and has nothing to trim.
pub public_id_trimmed :
    (machine request : Str)
    → All IsByte machine
    → All IsByte request
    → is_blank machine ≡ false
    → is_blank request ≡ false
    → let id = encode_public_approval_request_id machine request in
      (trim_space id ≡ id) × (is_empty id ≡ false)
unfolding encode_public_approval_request_id
public_id_trimmed machine request hm hr nm nr =
    rw (nm, nr)
      (
        trim_three approval_prefix (encode machine) (encode request) prefix-IsDigit
            (encode-IsDigit machine hm) (encode-IsDigit request hr),
        refl,
      )

-- A public id of the machine is left alone.
pub normalize_public_id :
    (machine request : Str)
    → All IsByte machine
    → All IsByte request
    → is_blank machine ≡ false
    → is_blank request ≡ false
    → let id = encode_public_approval_request_id machine request in
      normalize_approval_request_id machine id ≡ id
unfolding normalize_approval_request_id
normalize_public_id machine request hm hr nm nr =
    let (trimmed, given) = public_id_trimmed machine request hm hr nm nr in
    rw
      (
        trimmed,
        given,
        decode_public_approval_request_id-encode machine machine request hm hr nm nr,
        eq_refl machine,
      )
      refl
