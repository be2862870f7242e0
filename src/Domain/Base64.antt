-- ===== src/Domain/Base64.antt =====
-- base64.RawURLEncoding of encoding/base64, which the public identifiers use: three bytes are four
-- digits of the URL alphabet, there is no padding, and the decoder skips '\r' and '\n'. The unused
-- low bits of the last digit are not checked, as the encoding is not the strict one.
use agent_console.Prelude.{
  ℕ, ◌+◌, ◌-◌, ◌*◌, ◌/◌, ◌%◌, ◌<◌, Str, false, not, ◌||◌, Option, none, some, [], ◌∷◌, ◌≡◌, refl,
  arith, ltb, leb, nat_eq, if◌then◌else◌, All,
}
use agent_console.Prelude.Lists.{keep}
use agent_console.Prelude.Text.Trim.{IsPlain}

encode_digit : ℕ → ℕ
encode_digit d =
    if ltb d 26
    then d + 65
    else if ltb d 52
    then d + 71
    else if ltb d 62
    then d - 4
    else if nat_eq d 62
    then 45
    else 95

decode_digit : ℕ → Option ℕ
decode_digit c =
    if leb 65 c
    then if leb c 90
      then some (c - 65)
      else if leb 97 c
      then if leb c 122 then some (c - 71) else none
      else if nat_eq c 95
      then some 63
      else none
    else if leb 48 c
    then if leb c 57 then some (c + 4) else none
    else if nat_eq c 45
    then some 62
    else none

unfoldable pub encode : Str → Str
unfolding encode_digit
encode [] = []
encode (a ∷ []) = encode_digit (a / 4) ∷ encode_digit (a % 4 * 16) ∷ []
encode (a ∷ b ∷ []) =
    encode_digit (a / 4) ∷ encode_digit (a % 4 * 16 + b / 16) ∷ encode_digit (b % 16 * 4) ∷ []
encode (a ∷ b ∷ c ∷ s) =
    encode_digit (a / 4)
    ∷ encode_digit (a % 4 * 16 + b / 16)
    ∷ encode_digit (b % 16 * 4 + c / 64)
    ∷ encode_digit (c % 64)
    ∷ encode s

quad : Option ℕ → Option ℕ → Option ℕ → Option ℕ → Option Str → Option Str
quad (some a) (some b) (some c) (some d) (some rest) =
    some ((a * 4 + b / 16) ∷ (b % 16 * 16 + c / 4) ∷ (c % 4 * 64 + d) ∷ rest)
quad _ _ _ _ _ = none

triple : Option ℕ → Option ℕ → Option ℕ → Option Str
triple (some a) (some b) (some c) = some ((a * 4 + b / 16) ∷ (b % 16 * 16 + c / 4) ∷ [])
triple _ _ _ = none

couple : Option ℕ → Option ℕ → Option Str
couple (some a) (some b) = some ((a * 4 + b / 16) ∷ [])
couple _ _ = none

decode_groups : Str → Option Str
decode_groups [] = some []
decode_groups (a ∷ []) = none
decode_groups (a ∷ b ∷ []) = couple (decode_digit a) (decode_digit b)
decode_groups (a ∷ b ∷ c ∷ []) = triple (decode_digit a) (decode_digit b) (decode_digit c)
decode_groups (a ∷ b ∷ c ∷ d ∷ s) =
    quad (decode_digit a) (decode_digit b) (decode_digit c) (decode_digit d) (decode_groups s)

unfoldable pub decode : Str → Option Str
unfolding decode_groups decode_digit quad triple couple
decode s = decode_groups (keep (λ c. not (nat_eq c 10 || nat_eq c 13)) s)

abbrev pub IsByte : ℕ → Type 0
IsByte c = c < 256

decode-encode_digit : (d : ℕ) → d < 64 → decode_digit (encode_digit d) ≡ some d
unfolding decode_digit encode_digit
decode-encode_digit d h = ground arith

-- A digit is a visible byte, and no separator of the public identifiers.
abbrev pub IsDigit : ℕ → Type 0
IsDigit c = IsPlain c × (nat_eq c b'.' ≡ false)

encode_digit-IsDigit : (d : ℕ) → d < 64 → IsDigit (encode_digit d)
unfolding encode_digit
encode_digit-IsDigit d h = ground arith

pub encode-IsDigit : (s : Str) → All IsByte s → All IsDigit (encode s)
unfolding encode
encode-IsDigit [] h = tt
encode-IsDigit (a ∷ []) h = (
  encode_digit-IsDigit (a / 4) (omega arith),
  (encode_digit-IsDigit (a % 4 * 16) (omega arith), tt),
)
encode-IsDigit (a ∷ b ∷ []) h = (
  encode_digit-IsDigit (a / 4) (omega arith),
  (
    encode_digit-IsDigit (a % 4 * 16 + b / 16) (omega arith),
    (encode_digit-IsDigit (b % 16 * 4) (omega arith), tt),
  ),
)
encode-IsDigit (a ∷ b ∷ c ∷ s) h = (
  encode_digit-IsDigit (a / 4) (omega arith),
  (
    encode_digit-IsDigit (a % 4 * 16 + b / 16) (omega arith),
    (
      encode_digit-IsDigit (b % 16 * 4 + c / 64) (omega arith),
      (encode_digit-IsDigit (c % 64) (omega arith), encode-IsDigit s h.1.1.1),
    ),
  ),
)

keep_digits : (s : Str) → All IsDigit s → keep (λ c. not (nat_eq c 10 || nat_eq c 13)) s ≡ s
keep_digits [] h = refl
keep_digits (c ∷ s) h = ground (arith, keep_digits s h.1)

-- The bytes that four digits stand for.
quad_bytes :
    (a b c : ℕ) (s : Str)
    → a < 256
    → b < 256
    → c < 256
    → quad
        (some (a / 4))
        (some (a % 4 * 16 + b / 16))
        (some (b % 16 * 4 + c / 64))
        (some (c % 64))
        (some s)
      ≡ some (a ∷ b ∷ c ∷ s)
unfolding quad
quad_bytes a b c s ha hb hc =
    let e1 : a / 4 * 4 + (a % 4 * 16 + b / 16) / 16 ≡ a = omega arith in
    let e2 : (a % 4 * 16 + b / 16) % 16 * 16 + (b % 16 * 4 + c / 64) / 4 ≡ b = omega arith in
    let e3 : (b % 16 * 4 + c / 64) % 4 * 64 + c % 64 ≡ c = omega arith in rw (e1, e2, e3)

triple_bytes :
    (a b : ℕ)
    → a < 256
    → b < 256
    → triple (some (a / 4)) (some (a % 4 * 16 + b / 16)) (some (b % 16 * 4)) ≡ some (a ∷ b ∷ [])
unfolding triple
triple_bytes a b ha hb =
    let e1 : a / 4 * 4 + (a % 4 * 16 + b / 16) / 16 ≡ a = omega arith in
    let e2 : (a % 4 * 16 + b / 16) % 16 * 16 + b % 16 * 4 / 4 ≡ b = omega arith in rw (e1, e2)

couple_bytes : (a : ℕ) → a < 256 → couple (some (a / 4)) (some (a % 4 * 16)) ≡ some (a ∷ [])
unfolding couple
couple_bytes a ha = let e : a / 4 * 4 + a % 4 * 16 / 16 ≡ a = omega arith in rw e

decode_groups-encode : (s : Str) → All IsByte s → decode_groups (encode s) ≡ some s
unfolding decode_groups encode
decode_groups-encode [] h = refl
decode_groups-encode (a ∷ []) h =
    rw (decode-encode_digit (a / 4) (omega arith), decode-encode_digit (a % 4 * 16) (omega arith))
      (couple_bytes a h.0)
decode_groups-encode (a ∷ b ∷ []) h =
    rw
      (
        decode-encode_digit (a / 4) (omega arith),
        decode-encode_digit (a % 4 * 16 + b / 16) (omega arith),
        decode-encode_digit (b % 16 * 4) (omega arith),
      )
      (triple_bytes a b h.0 h.1.0)
decode_groups-encode (a ∷ b ∷ c ∷ s) h =
    rw
      (
        decode-encode_digit (a / 4) (omega arith),
        decode-encode_digit (a % 4 * 16 + b / 16) (omega arith),
        decode-encode_digit (b % 16 * 4 + c / 64) (omega arith),
        decode-encode_digit (c % 64) (omega arith),
        decode_groups-encode s h.1.1.1,
      )
      (quad_bytes a b c s h.0 h.1.0 h.1.1.0)

-- Decoding what was encoded gives the bytes back.
pub decode-encode : (s : Str) → All IsByte s → decode (encode s) ≡ some s
unfolding decode
decode-encode s h = rw (keep_digits (encode s) (encode-IsDigit s h)) (decode_groups-encode s h)
