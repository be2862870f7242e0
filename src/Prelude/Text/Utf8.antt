-- ===== src/Prelude/Text/Utf8.antt =====
-- The runes of `for _, r := range s`: UTF-8, where a byte that starts no well-formed sequence gives
-- U+FFFD.
use agent_console.Prelude.Tests.{leb, ltb, nat_eq, if◌then◌else◌}
use Prim.Native.Nat.{ℕ, ◌+◌, ◌-◌, ◌*◌}
use mathlib.Core.Bool.{Bool, ◌&&◌}
use mathlib.Core.List.{List, [], ◌∷◌}

abbrev is_cont : ℕ → Bool
is_cont b = leb 0x80 b && leb b 0xbf

-- The second byte of a sequence of three or four bytes, in the range that its first byte allows.
abbrev second3 : ℕ → ℕ → Bool
second3 a b =
    if nat_eq a 0xe0
    then leb 0xa0 b && leb b 0xbf
    else if nat_eq a 0xed
    then leb 0x80 b && leb b 0x9f
    else is_cont b

abbrev second4 : ℕ → ℕ → Bool
second4 a b =
    if nat_eq a 0xf0
    then leb 0x90 b && leb b 0xbf
    else if nat_eq a 0xf4
    then leb 0x80 b && leb b 0x8f
    else is_cont b

abbrev is_pair : ℕ → ℕ → Bool
is_pair a b = leb 0xc2 a && leb a 0xdf && is_cont b

abbrev is_triple : ℕ → ℕ → ℕ → Bool
is_triple a b c = leb 0xe0 a && leb a 0xef && second3 a b && is_cont c

abbrev is_quad : ℕ → ℕ → ℕ → ℕ → Bool
is_quad a b c d = leb 0xf0 a && leb a 0xf4 && second4 a b && is_cont c && is_cont d

abbrev rune2 : ℕ → ℕ → ℕ
rune2 a b = (a - 0xc0) * 64 + (b - 0x80)

abbrev rune3 : ℕ → ℕ → ℕ → ℕ
rune3 a b c = (a - 0xe0) * 4096 + (b - 0x80) * 64 + (c - 0x80)

abbrev rune4 : ℕ → ℕ → ℕ → ℕ → ℕ
rune4 a b c d = (a - 0xf0) * 262144 + (b - 0x80) * 4096 + (c - 0x80) * 64 + (d - 0x80)

-- A rune of one byte.
abbrev rune1 : ℕ → ℕ
rune1 a = if ltb a 0x80 then a else 0xfffd

unfoldable pub runes : List ℕ → List ℕ
runes [] = []
runes (a ∷ []) = rune1 a ∷ []
runes (a ∷ b ∷ []) =
    let one = rune1 a ∷ runes (b ∷ []) in if is_pair a b then rune2 a b ∷ [] else one
runes (a ∷ b ∷ c ∷ []) =
    let one = rune1 a ∷ runes (b ∷ c ∷ []) in
    let two = rune2 a b ∷ runes (c ∷ []) in
    if is_pair a b then two else if is_triple a b c then rune3 a b c ∷ [] else one
runes (a ∷ b ∷ c ∷ d ∷ s) =
    let one = rune1 a ∷ runes (b ∷ c ∷ d ∷ s) in
    let two = rune2 a b ∷ runes (c ∷ d ∷ s) in
    let three = rune3 a b c ∷ runes (d ∷ s) in
    let four = rune4 a b c d ∷ runes s in
    if is_pair a b
    then two
    else if is_triple a b c
    then three
    else if is_quad a b c d
    then four
    else one
