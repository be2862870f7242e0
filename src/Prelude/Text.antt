-- ===== src/Prelude/Text.antt =====
-- Go strings: a `string` is its bytes. The comparisons, and the functions of the package `strings`
-- that the program uses: TrimSpace, Split at one byte, Contains, and `<` between strings.
use Prim.Native.Char.{code}
use Prim.Native.String.{String}
use Prim.Native.Nat.{ℕ, zero, suc, ◌+◌, ◌≤◌, ◌<◌}
use mathlib.Core.Path.{◌≡◌, refl, sym, ap, ◌∙◌}
use mathlib.Core.Logic.{◌↔◌, ◌⊎◌, inl, inr}
use mathlib.Core.Bool.{Bool, true, false, ◌&&◌, ◌||◌}
use mathlib.Core.List.{List, [], ◌∷◌, ◌++◌, reverse}
use native.Mathlib.Omega.{arith}
use agent_console.Prelude.Tests.{
  ltb, leb, nat_eq, nat_eq→eq, nat_eq_refl, if◌then◌else◌, Bool-cases,
}
use agent_console.Prelude.Lists.{All}
pub mod Trim
pub mod Utf8
pub mod Decimal

abbrev pub Str : Type 0
Str = List ℕ

-- The bytes of an ASCII literal.
abbrev pub str : String → Str
str String.[] = []
str (String.◌∷◌ c s) = code c ∷ str s

infix 50 ◌==◌
unfoldable pub ◌==◌ : Str → Str → Bool
[] == [] = true
[] == (y ∷ ys) = false
(x ∷ xs) == [] = false
(x ∷ xs) == (y ∷ ys) = nat_eq x y && xs == ys

eq→path : (s t : Str) → (s == t) ≡ true → s ≡ t
unfolding ◌==◌
eq→path [] [] h = refl
eq→path [] (y ∷ ys) h = ground arith
eq→path (x ∷ xs) [] h = ground arith
eq→path (x ∷ xs) (y ∷ ys) h = ground (arith, eq→path xs ys)

pub eq_refl : (s : Str) → (s == s) ≡ true
unfolding ◌==◌
eq_refl [] = refl
eq_refl (x ∷ xs) = ground (arith, eq_refl xs)

pub eq_iff : (s t : Str) → ((s == t) ≡ true) ↔ (s ≡ t)
eq_iff s t = (eq→path s t, λ e. rw e (eq_refl t))

-- `s == ""`
abbrev pub is_empty : Str → Bool
is_empty [] = true
is_empty (x ∷ xs) = false

-- `s < t`, the order of the bytes
unfoldable pub str_lt : Str → Str → Bool
str_lt [] [] = false
str_lt [] (y ∷ ys) = true
str_lt (x ∷ xs) [] = false
str_lt (x ∷ xs) (y ∷ ys) = if ltb x y then true else (nat_eq x y && str_lt xs ys)

-- strings.Split(s, sep) for a separator of one byte
unfoldable pub split : ℕ → Str → List Str
split sep [] = [] ∷ []
split sep (x ∷ xs) = elim (split sep xs) [
  | [] ↦ [] ∷ []
  | w ∷ ws ↦ if nat_eq x sep then [] ∷ w ∷ ws else (x ∷ w) ∷ ws
]

split_nonempty : (sep : ℕ) (s : Str) → (w : Str) × (ws : List Str) × (split sep s ≡ w ∷ ws)
unfolding split
split_nonempty sep [] = ([], [], refl)
split_nonempty sep (x ∷ xs) =
    let (w, ws, e) = split_nonempty sep xs in
    elim (Bool-cases (nat_eq x sep)) [
      | inl t ↦ ([], w ∷ ws, rw (e, t))
      | inr t ↦ (x ∷ w, ws, rw (e, t))
    ]

split-sep : (sep : ℕ) (rest : Str) → split sep (sep ∷ rest) ≡ [] ∷ split sep rest
unfolding split
split-sep sep rest = let (w, ws, e) = split_nonempty sep rest in rw (e, nat_eq_refl sep)

-- The pieces of a text that is put together at the separator: a first piece without it stands first.
pub split-append :
    (sep : ℕ) (w rest : Str)
    → All (λ c. nat_eq c sep ≡ false) w
    → split sep (w ++ (sep ∷ rest)) ≡ w ∷ split sep rest
unfolding split
split-append sep [] rest h = split-sep sep rest
split-append sep (x ∷ w) rest h = rw (split-append sep w rest h.1, h.0)

pub split_one : (sep : ℕ) (w : Str) → All (λ c. nat_eq c sep ≡ false) w → split sep w ≡ w ∷ []
unfolding split
split_one sep [] h = refl
split_one sep (x ∷ w) h = rw (split_one sep w h.1, h.0)
