-- ===== src/Prelude/Sort.antt =====
-- sort.Slice under a strict order on strings that the items carry. The result of the library's sort
-- is fixed up to items with equal keys; an insertion sort gives one such result.
use agent_console.Prelude.Tests.{if◌then◌else◌, if_both, Bool-cases}
use agent_console.Prelude.Lists.{count, All}
use agent_console.Prelude.Text.{Str, str_lt}
use mathlib.Core.Path.{◌≡◌, refl}
use mathlib.Core.Logic.{inl, inr}
use mathlib.Core.Bool.{Bool, true, false}
use mathlib.Core.List.{List, [], ◌∷◌}
use native.Mathlib.Omega.{arith}

pub str_lt_asymm : (s t : Str) → str_lt s t ≡ true → str_lt t s ≡ false
unfolding str_lt
str_lt_asymm [] [] h = refl
str_lt_asymm [] (y ∷ ys) h = refl
str_lt_asymm (x ∷ xs) [] h = ground arith
str_lt_asymm (x ∷ xs) (y ∷ ys) h = ground (arith, str_lt_asymm xs ys)

module _ {A : Type 0} (key : A → Str) where
  insert : A → List A → List A
  insert x [] = x ∷ []
  insert x (y ∷ ys) = if str_lt (key x) (key y) then x ∷ y ∷ ys else y ∷ insert x ys

  unfoldable pub sort_by : List A → List A
  unfolding insert str_lt
  sort_by [] = []
  sort_by (x ∷ xs) = insert x (sort_by xs)

  -- No item is less than the one before it.
  abbrev pub IsSorted : List A → Type 0
  IsSorted [] = Unit
  IsSorted (x ∷ []) = Unit
  IsSorted (x ∷ y ∷ ys) = (str_lt (key y) (key x) ≡ false) × IsSorted (y ∷ ys)

  insert-IsSorted_after :
      (z x : A) (ys : List A)
      → str_lt (key x) (key z) ≡ false
      → IsSorted (z ∷ ys)
      → IsSorted (z ∷ insert x ys)
  unfolding insert
  insert-IsSorted_after z x [] h s = (h, tt)
  insert-IsSorted_after z x (y ∷ ys) h s = elim (Bool-cases (str_lt (key x) (key y))) [
    | inl e ↦ rw e (h, (str_lt_asymm (key x) (key y) e, s.1))
    | inr e ↦ rw e (s.0, insert-IsSorted_after y x ys e s.1)
  ]

  insert-IsSorted : (x : A) (ys : List A) → IsSorted ys → IsSorted (insert x ys)
  unfolding insert
  insert-IsSorted x [] s = tt
  insert-IsSorted x (y ∷ ys) s = elim (Bool-cases (str_lt (key x) (key y))) [
    | inl e ↦ rw e (str_lt_asymm (key x) (key y) e, s)
    | inr e ↦ rw e (insert-IsSorted_after y x ys e s)
  ]

  pub sort_by-IsSorted : (xs : List A) → IsSorted (sort_by xs)
  unfolding sort_by
  sort_by-IsSorted [] = tt
  sort_by-IsSorted (x ∷ xs) = insert-IsSorted x (sort_by xs) (sort_by-IsSorted xs)

  count-insert : (p : A → Bool) (x : A) (ys : List A) → count p (insert x ys) ≡ count p (x ∷ ys)
  unfolding insert
  count-insert p x [] = refl
  count-insert p x (y ∷ ys) = ground (arith, count-insert p x ys)

  -- Each item stands in the result as often as in the list.
  pub count-sort_by : (p : A → Bool) (xs : List A) → count p (sort_by xs) ≡ count p xs
  unfolding sort_by
  count-sort_by p [] = refl
  count-sort_by p (x ∷ xs) = ground (arith, count-insert p x (sort_by xs), count-sort_by p xs)

  All-insert {κ} : (P : A → Type κ) (x : A) (ys : List A) → P x → All P ys → All P (insert x ys)
  unfolding insert
  All-insert P x [] h hs = (h, tt)
  All-insert P x (y ∷ ys) h hs =
      if_both (All P) (str_lt (key x) (key y)) (h, hs) (hs.0, All-insert P x ys h hs.1)

  pub All-sort_by {κ} : (P : A → Type κ) (xs : List A) → All P xs → All P (sort_by xs)
  unfolding sort_by
  All-sort_by P [] h = tt
  All-sort_by P (x ∷ xs) h = All-insert P x (sort_by xs) h.0 (All-sort_by P xs h.1)
