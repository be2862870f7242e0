-- ===== src/Prelude/Text/Trim.antt =====
-- strings.TrimSpace: the leading and the trailing white space of unicode.IsSpace goes, in UTF-8.
use Prim.Native.Nat.{ℕ, ◌≤◌, ◌<◌}
use mathlib.Core.Path.{◌≡◌, refl, ap, ◌∙◌}
use mathlib.Core.Bool.{Bool, false, ◌&&◌, ◌||◌}
use mathlib.Core.List.{List, [], ◌∷◌, reverse, reverse_aux, reverse-reverse}
use native.Mathlib.Omega.{arith}
use agent_console.Prelude.Tests.{leb, nat_eq, if◌then◌else◌}
use agent_console.Prelude.Lists.{All}

-- '\t', '\n', '\v', '\f', '\r', ' '
is_space1 : ℕ → Bool
is_space1 a = (leb 9 a && leb a 13) || nat_eq a 32

-- U+0085, U+00A0
is_space2 : ℕ → ℕ → Bool
is_space2 a b = nat_eq a 0xc2 && (nat_eq b 0x85 || nat_eq b 0xa0)

-- U+1680, U+2000 to U+200A, U+2028, U+2029, U+202F, U+205F, U+3000
is_space3 : ℕ → ℕ → ℕ → Bool
is_space3 a b c =
    (nat_eq a 0xe1 && nat_eq b 0x9a && nat_eq c 0x80)
    || (nat_eq a 0xe2
        && nat_eq b 0x80
        && ((leb 0x80 c && leb c 0x8a) || nat_eq c 0xa8 || nat_eq c 0xa9 || nat_eq c 0xaf))
    || (nat_eq a 0xe2 && nat_eq b 0x81 && nat_eq c 0x9f)
    || (nat_eq a 0xe3 && nat_eq b 0x80 && nat_eq c 0x80)

-- Drops the items at the head that the tests on one, two and three of them take.
strip : (ℕ → Bool) → (ℕ → ℕ → Bool) → (ℕ → ℕ → ℕ → Bool) → List ℕ → List ℕ
strip p q r [] = []
strip p q r (a ∷ []) = if p a then [] else a ∷ []
strip p q r (a ∷ b ∷ []) =
    let tail = strip p q r (b ∷ []) in if p a then tail else if q a b then [] else a ∷ b ∷ []
strip p q r (a ∷ b ∷ c ∷ s) =
    let after1 = strip p q r (b ∷ c ∷ s) in
    let after2 = strip p q r (c ∷ s) in
    let after3 = strip p q r s in
    if p a then after1 else if q a b then after2 else if r a b c then after3 else a ∷ b ∷ c ∷ s

trim_left : List ℕ → List ℕ
unfolding strip is_space1 is_space2 is_space3
trim_left = strip is_space1 is_space2 is_space3

trim_right : List ℕ → List ℕ
unfolding strip is_space1 is_space2 is_space3
trim_right s =
    reverse (strip is_space1 (λ b a. is_space2 a b) (λ c b a. is_space3 a b c) (reverse s))

unfoldable pub trim_space : List ℕ → List ℕ
unfolding trim_left trim_right
trim_space s = trim_right (trim_left s)

-- A visible ASCII byte.
abbrev pub IsPlain : ℕ → Type 0
IsPlain c = (33 ≤ c) × (c < 128)

module _ (p : ℕ → Bool) (q : ℕ → ℕ → Bool) (r : ℕ → ℕ → ℕ → Bool) where
  strip_visible :
      (a : ℕ) (s : List ℕ)
      → p a ≡ false
      → ((b : ℕ) → q a b ≡ false)
      → ((b c : ℕ) → r a b c ≡ false)
      → strip p q r (a ∷ s) ≡ a ∷ s
  unfolding strip
  strip_visible a [] hp hq hr = rw hp
  strip_visible a (b ∷ []) hp hq hr = rw (hp, hq b)
  strip_visible a (b ∷ c ∷ s) hp hq hr = rw (hp, hq b, hr b c)

plain_space1 : (a : ℕ) → IsPlain a → is_space1 a ≡ false
unfolding is_space1
plain_space1 a h = ground arith

plain_space2 : (a b : ℕ) → IsPlain a → (is_space2 a b ≡ false) × (is_space2 b a ≡ false)
unfolding is_space2
plain_space2 a b h = ground arith

plain_space3 : (a b c : ℕ) → IsPlain a → (is_space3 a b c ≡ false) × (is_space3 c b a ≡ false)
unfolding is_space3
plain_space3 a b c h = ground arith

trim_left_plain : (s : List ℕ) → All IsPlain s → trim_left s ≡ s
unfolding trim_left
trim_left_plain [] h = refl
trim_left_plain (a ∷ s) h =
    strip_visible is_space1 is_space2 is_space3 a s (plain_space1 a h.0)
      (λ b. (plain_space2 a b h.0).0) (λ b c. (plain_space3 a b c h.0).0)

All-reverse_aux : (s t : List ℕ) → All IsPlain s → All IsPlain t → All IsPlain (reverse_aux s t)
All-reverse_aux [] t hs ht = ht
All-reverse_aux (a ∷ s) t hs ht = All-reverse_aux s (a ∷ t) hs.1 (hs.0, ht)

trim_right_head :
    (s : List ℕ)
    → All IsPlain s
    → strip is_space1 (λ b a. is_space2 a b) (λ c b a. is_space3 a b c) s ≡ s
unfolding strip
trim_right_head [] h = refl
trim_right_head (a ∷ s) h =
    strip_visible is_space1 (λ b a. is_space2 a b) (λ c b a. is_space3 a b c) a s
      (plain_space1 a h.0) (λ b. (plain_space2 a b h.0).1) (λ b c. (plain_space3 a b c h.0).1)

trim_right_plain : (s : List ℕ) → All IsPlain s → trim_right s ≡ s
unfolding trim_right
trim_right_plain s h =
    ap reverse (trim_right_head (reverse s) (All-reverse_aux s [] h tt)) ∙ reverse-reverse s

-- A text of visible ASCII bytes has nothing to trim.
pub trim_space_plain : (s : List ℕ) → All IsPlain s → trim_space s ≡ s
unfolding trim_space
trim_space_plain s h = ap trim_right (trim_left_plain s h) ∙ trim_right_plain s h
