-- ===== src/Domain/ThreadId.antt =====
-- common/domain/thread.go: PublicThreadID, DecodePublicThreadID and ResolveRuntimeThread. A public
-- id is "th.", the agent's id and the runtime's id of the thread, both in base64.
mod Tests
use agent_console.Prelude.{
  ℕ, ◌<◌, Str, str, ◌==◌, eq_iff, is_empty, Bool, true, false, not, ◌&&◌, Option, none, some, List,
  [], ◌∷◌, ◌++◌, ◌≡◌, ◌≢◌, refl, ap, ◌∙◌, arith, nat_eq, if◌then◌else◌, All, Bool-cases, inl, inr,
}
use agent_console.Prelude.Result.{Result, ok, err}
use agent_console.Prelude.Lists.{All-append}
use agent_console.Prelude.Text.{split, split-append, split_one, eq_refl}
use agent_console.Prelude.Text.Trim.{trim_space, trim_space_plain, IsPlain}
use agent_console.Domain.Base64.{encode, decode, decode-encode, IsByte, IsDigit, encode-IsDigit}

abbrev public_thread_id_prefix : Str
public_thread_id_prefix = str "th"

-- strings.TrimSpace(s) == ""
abbrev pub is_blank : Str → Bool
is_blank s = is_empty (trim_space s)

pub public_thread_id : Str → Str → Str
public_thread_id agent_id runtime_thread_id =
    if is_blank agent_id
    then trim_space runtime_thread_id
    else if is_blank runtime_thread_id
    then trim_space runtime_thread_id
    else public_thread_id_prefix ++ (b'.' ∷ (encode agent_id ++ (b'.' ∷ encode runtime_thread_id)))

-- A decoded part that is not blank.
nonblank : Option Str → Option Str
nonblank none = none
nonblank (some s) = if is_blank s then none else some s

both : Option Str → Option Str → Option (Str × Str)
both (some a) (some b) = some (a, b)
both _ _ = none

decode_parts : List Str → Option (Str × Str)
decode_parts (prefix ∷ agent ∷ thread ∷ []) =
    if prefix == public_thread_id_prefix
    then both (nonblank (decode agent)) (nonblank (decode thread))
    else none
decode_parts _ = none

pub decode_public_thread_id : Str → Option (Str × Str)
unfolding decode_parts nonblank both
decode_public_thread_id public_id = decode_parts (split b'.' (trim_space public_id))

pub data ThreadIdError : Type 0 where
  agent_mismatch agent_id_required thread_id_required : ThreadIdError

pub resolve_runtime_thread : Str → Str → Result ThreadIdError (Str × Str)
resolve_runtime_thread agent_id thread_id = elim (decode_public_thread_id thread_id) [
  | some (decoded_agent, decoded_thread) ↦
      if not (is_blank agent_id) && not (decoded_agent == agent_id)
      then err agent_mismatch
      else ok (decoded_agent, decoded_thread)
  | none ↦
      if is_blank agent_id
      then err agent_id_required
      else if is_blank thread_id
      then err thread_id_required
      else ok (agent_id, thread_id)
]

digits-IsPlain : (s : Str) → All IsDigit s → All IsPlain s
digits-IsPlain [] h = tt
digits-IsPlain (c ∷ s) h = (h.0.0, digits-IsPlain s h.1)

digits_no_dot : (s : Str) → All IsDigit s → All (λ c. nat_eq c b'.' ≡ false) s
digits_no_dot [] h = tt
digits_no_dot (c ∷ s) h = (h.0.1, digits_no_dot s h.1)

-- A text of the form "x.y.z" has nothing to trim.
pub trim_three :
    (prefix x y : Str)
    → All IsDigit prefix
    → All IsDigit x
    → All IsDigit y
    → trim_space (prefix ++ (b'.' ∷ (x ++ (b'.' ∷ y)))) ≡ prefix ++ (b'.' ∷ (x ++ (b'.' ∷ y)))
trim_three prefix x y hp hx hy = trim_space_plain (prefix ++ (b'.' ∷ (x ++ (b'.' ∷ y)))) (
    All-append IsPlain prefix (b'.' ∷ (x ++ (b'.' ∷ y))) (digits-IsPlain prefix hp) (
      omega arith,
      All-append IsPlain x (b'.' ∷ y) (digits-IsPlain x hx) (omega arith, digits-IsPlain y hy),
    ))

-- Its three pieces.
pub split_three :
    (prefix x y : Str)
    → All IsDigit prefix
    → All IsDigit x
    → All IsDigit y
    → split b'.' (trim_space (prefix ++ (b'.' ∷ (x ++ (b'.' ∷ y))))) ≡ prefix ∷ x ∷ y ∷ []
split_three prefix x y hp hx hy =
    ap (split b'.') (trim_three prefix x y hp hx hy)
    ∙ split-append b'.' prefix (x ++ (b'.' ∷ y)) (digits_no_dot prefix hp)
    ∙ ap (λ rest. prefix ∷ rest) (split-append b'.' x y (digits_no_dot x hx))
    ∙ ap (λ rest. prefix ∷ x ∷ rest) (split_one b'.' y (digits_no_dot y hy))

prefix-IsDigit : All IsDigit public_thread_id_prefix
prefix-IsDigit = (((omega arith, omega arith), refl), (((omega arith, omega arith), refl), tt))

decode_parts_encoded :
    (agent thread : Str)
    → All IsByte agent
    → All IsByte thread
    → is_blank agent ≡ false
    → is_blank thread ≡ false
    → decode_parts (public_thread_id_prefix ∷ encode agent ∷ encode thread ∷ [])
      ≡ some (agent, thread)
unfolding decode_parts nonblank both
decode_parts_encoded agent thread ha ht na nt =
    rw (eq_refl public_thread_id_prefix, decode-encode agent ha, decode-encode thread ht, na, nt)

-- A public id gives back the agent's id and the runtime's id of the thread that it was made of, for
-- ids that are byte strings and not blank.
pub decode_public_thread_id-public_thread_id :
    (agent thread : Str)
    → All IsByte agent
    → All IsByte thread
    → is_blank agent ≡ false
    → is_blank thread ≡ false
    → decode_public_thread_id (public_thread_id agent thread) ≡ some (agent, thread)
unfolding decode_public_thread_id public_thread_id
decode_public_thread_id-public_thread_id agent thread ha ht na nt =
    rw (na, nt)
      (ap decode_parts (
          split_three public_thread_id_prefix (encode agent) (encode thread) prefix-IsDigit
            (encode-IsDigit agent ha) (encode-IsDigit thread ht))
        ∙ decode_parts_encoded agent thread ha ht na nt)

-- A public id, its parts byte strings that are not blank, resolves to its own parts, if the caller
-- names the same agent or a blank one, and to a mismatch otherwise.
pub resolve_runtime_thread-public_thread_id :
    (caller agent thread : Str)
    → All IsByte agent
    → All IsByte thread
    → is_blank agent ≡ false
    → is_blank thread ≡ false
    → resolve_runtime_thread caller (public_thread_id agent thread) ≡ (
        if is_blank caller
        then ok (agent, thread)
        else if agent == caller
        then ok (agent, thread)
        else err agent_mismatch)
unfolding resolve_runtime_thread
resolve_runtime_thread-public_thread_id caller agent thread ha ht na nt =
    ground (arith, decode_public_thread_id-public_thread_id agent thread ha ht na nt)

-- Different threads have different public ids, for ids that are byte strings and not blank.
pub public_thread_id-injective :
    (a t b u : Str)
    → All IsByte a
    → All IsByte t
    → All IsByte b
    → All IsByte u
    → is_blank a ≡ false
    → is_blank t ≡ false
    → is_blank b ≡ false
    → is_blank u ≡ false
    → public_thread_id a t ≡ public_thread_id b u
    → (a ≡ b) × (t ≡ u)
public_thread_id-injective a t b u ha ht hb hu na nt nb nu e = ground (
  arith,
  decode_public_thread_id-public_thread_id a t ha ht na nt,
  decode_public_thread_id-public_thread_id b u hb hu nb nu,
)
