-- ===== src/Prelude/Text/Decimal.antt =====
-- fmt.Sprintf("%02d", n) of a natural number: its decimal digits, two of them at least.
use agent_console.Prelude.Tests.{ltb, if◌then◌else◌, Bool-cases}
use Prim.Native.Nat.{ℕ, zero, suc, ◌+◌, ◌-◌, ◌*◌, ◌/◌, ◌%◌, ◌<◌}
use mathlib.Core.Path.{◌≡◌, sym, ap, ◌∙◌}
use mathlib.Core.Logic.{inl, inr}
use mathlib.Core.List.{List, [], ◌∷◌}
use native.Mathlib.Omega.{arith}

-- The digits of `n` in front of `acc`. Each round drops a digit, so `n + 1` rounds are enough.
digits_to : ℕ → ℕ → List ℕ → List ℕ
digits_to zero n acc = acc
digits_to (suc fuel) n acc =
    let rest = digits_to fuel (n / 10) ((48 + n % 10) ∷ acc) in
    if ltb n 10 then (48 + n % 10) ∷ acc else rest

unfoldable pub decimal : ℕ → List ℕ
unfolding digits_to
decimal n = digits_to (suc n) n []

unfoldable pub decimal2 : ℕ → List ℕ
decimal2 n = if ltb n 10 then 48 ∷ decimal n else decimal n

-- The number that digits stand for, behind the digits of `a`.
read : ℕ → List ℕ → ℕ
read a [] = a
read a (c ∷ s) = read (a * 10 + (c - 48)) s

read-digits_to : (fuel n : ℕ) (acc : List ℕ) → n < fuel → read 0 (digits_to fuel n acc) ≡ read n acc
unfolding read digits_to
read-digits_to zero n acc h = elim h [ ]
read-digits_to (suc fuel) n acc h = elim (Bool-cases (ltb n 10)) [
  | inl e ↦
      rw e (ap (λ k. read k acc) (let f : 0 * 10 + (48 + n % 10 - 48) ≡ n = ground arith in f))
  | inr e ↦ rw e (
      read-digits_to fuel (n / 10) ((48 + n % 10) ∷ acc) (ground arith)
      ∙ ap (λ k. read k acc) (let f : n / 10 * 10 + (48 + n % 10 - 48) ≡ n = omega arith in f))
]

read-decimal : (n : ℕ) → read 0 (decimal n) ≡ n
unfolding decimal read
read-decimal n = read-digits_to (suc n) n [] (omega arith)

read-decimal2 : (n : ℕ) → read 0 (decimal2 n) ≡ n
unfolding decimal2 read
read-decimal2 n = elim (Bool-cases (ltb n 10)) [
  | inl e ↦ rw e (read-decimal n)
  | inr e ↦ rw e (read-decimal n)
]

-- Different numbers are written differently.
pub decimal2-injective : (m n : ℕ) → decimal2 m ≡ decimal2 n → m ≡ n
decimal2-injective m n e = sym (read-decimal2 m) ∙ ap (read 0) e ∙ read-decimal2 n
