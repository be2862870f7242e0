-- ===== src/Prelude/Dict.antt =====
-- Go maps with string keys, as association lists. A read sees the first entry of a key, a write
-- replaces it where it stands, and `delete` takes out every entry of its key. The order of the
-- entries stands for the order in which `range` happens to visit the map.
use Prim.Native.Nat.{ℕ, suc, ◌+◌}
use mathlib.Core.Path.{◌≡◌, refl}
use mathlib.Core.Bool.{Bool, true, false}
use mathlib.Core.Logic.{inl, inr}
use mathlib.Core.Option.{Option, none, some}
use mathlib.Core.List.{List, [], ◌∷◌}
use native.Mathlib.Omega.{arith}
use agent_console.Prelude.Tests.{if◌then◌else◌, Bool-cases}
use agent_console.Prelude.Lists.{length, All}
use agent_console.Prelude.Text.{Str, ◌==◌, eq_iff, eq_refl}

abbrev pub Dict {ℓ} : Type ℓ → Type ℓ
Dict V = List (Str × V)

module _ {ℓ} {V : Type ℓ} where
  -- v, ok := m[k]
  unfoldable pub get : Dict V → Str → Option V
  unfolding ◌==◌
  get [] k = none
  get ((j, v) ∷ m) k = if j == k then some v else get m k

  -- m[k] = v
  unfoldable pub put : Dict V → Str → V → Dict V
  unfolding ◌==◌
  put [] k v = (k, v) ∷ []
  put ((j, w) ∷ m) k v = if j == k then (j, v) ∷ m else (j, w) ∷ put m k v

  -- delete(m, k)
  unfoldable pub remove : Dict V → Str → Dict V
  unfolding ◌==◌
  remove [] k = []
  remove ((j, w) ∷ m) k = let rest = remove m k in if j == k then rest else (j, w) ∷ rest

  -- for k, v := range m { if !keeps(v) { delete(m, k) } }
  unfoldable pub retain : (V → Bool) → Dict V → Dict V
  unfolding remove
  retain keeps [] = []
  retain keeps ((j, w) ∷ m) =
      let rest = retain keeps m in if keeps w then (j, w) ∷ rest else remove rest j

  abbrev pub has : Dict V → Str → Bool
  has m k = elim (get m k) [ none ↦ false | some v ↦ true ]

  -- for _, v := range m
  abbrev pub values : Dict V → List V
  values [] = []
  values ((j, v) ∷ m) = v ∷ values m

  abbrev pub keys : Dict V → List Str
  keys [] = []
  keys ((j, v) ∷ m) = j ∷ keys m

  -- m[k], with the zero value where the key is missing
  abbrev pub get_or : V → Option V → V
  get_or zero_value none = zero_value
  get_or zero_value (some v) = v

  abbrev pub filter_some : (V → Bool) → Option V → Option V
  filter_some keeps none = none
  filter_some keeps (some v) = if keeps v then some v else none

  pub get-put :
      (m : Dict V) (k : Str) (v : V) (j : Str)
      → get (put m k v) j ≡ (if k == j then some v else get m j)
  unfolding get put
  get-put [] k v j = refl
  get-put ((i, w) ∷ m) k v j = ground (arith, eq_iff k j, eq_iff i k, eq_iff i j, get-put m k v j)

  pub get-remove :
      (m : Dict V) (k j : Str) → get (remove m k) j ≡ (if k == j then none else get m j)
  unfolding get remove
  get-remove [] k j = ground arith
  get-remove ((i, w) ∷ m) k j = ground (arith, eq_iff k j, eq_iff i k, eq_iff i j, get-remove m k j)

  pub get-retain :
      (keeps : V → Bool) (m : Dict V) (j : Str)
      → get (retain keeps m) j ≡ filter_some keeps (get m j)
  unfolding get retain
  get-retain keeps [] j = refl
  get-retain keeps ((i, w) ∷ m) j =
      ground (arith, eq_iff i j, get-retain keeps m j, get-remove (retain keeps m) i j)

  pub get-nil : (k : Str) → get [] k ≡ none
  unfolding get
  get-nil k = refl

  pub get-put_self : (m : Dict V) (k : Str) (v : V) → get (put m k v) k ≡ some v
  get-put_self m k v = rw (get-put, eq_refl)

  -- The sum of a measure over the values.
  abbrev pub total : (V → ℕ) → Dict V → ℕ
  total f [] = 0
  total f ((j, v) ∷ m) = f v + total f m

  abbrev pub at_some : (V → ℕ) → Option V → ℕ
  at_some f none = 0
  at_some f (some v) = f v

  pub total-put :
      (f : V → ℕ) (m : Dict V) (k : Str) (v : V)
      → total f (put m k v) + at_some f (get m k) ≡ total f m + f v
  unfolding get put
  total-put f [] k v = omega arith
  total-put f ((j, w) ∷ m) k v = ground (arith, total-put f m k v)

  -- Every key stands once.
  abbrev pub IsKeyed : Dict V → Type ℓ
  IsKeyed [] = Unit
  IsKeyed ((j, v) ∷ m) = (get m j ≡ none) × IsKeyed m

  pub put-IsKeyed : (m : Dict V) (k : Str) (v : V) → IsKeyed m → IsKeyed (put m k v)
  unfolding get put
  put-IsKeyed [] k v h = (refl, tt)
  put-IsKeyed ((j, w) ∷ m) k v h = elim (Bool-cases (j == k)) [
    | inl e ↦ rw e h
    | inr e ↦ rw e (ground (arith, get-put m k v j, eq_iff j k, eq_iff k j), put-IsKeyed m k v h.1)
  ]

  pub remove-IsKeyed : (m : Dict V) (k : Str) → IsKeyed m → IsKeyed (remove m k)
  unfolding remove
  remove-IsKeyed [] k h = h
  remove-IsKeyed ((j, w) ∷ m) k h = elim (Bool-cases (j == k)) [
    | inl e ↦ rw e (remove-IsKeyed m k h.1)
    | inr e ↦ rw e (ground (arith, get-remove m k j), remove-IsKeyed m k h.1)
  ]

  pub retain-IsKeyed : (keeps : V → Bool) (m : Dict V) → IsKeyed m → IsKeyed (retain keeps m)
  unfolding retain
  retain-IsKeyed keeps [] h = h
  retain-IsKeyed keeps ((j, w) ∷ m) h = elim (Bool-cases (keeps w)) [
    | inl e ↦ rw e (ground (arith, get-retain keeps m j), retain-IsKeyed keeps m h.1)
    | inr e ↦ rw e (remove-IsKeyed (retain keeps m) j (retain-IsKeyed keeps m h.1))
  ]

  -- Without an entry of the key, `delete` leaves the map as it is.
  pub remove_missing : (m : Dict V) (k : Str) → get m k ≡ none → remove m k ≡ m
  unfolding get remove
  remove_missing [] k h = refl
  remove_missing ((j, w) ∷ m) k h = ground (arith, remove_missing m k)

  -- What holds of every value that a key gives holds of all values.
  pub values-All {κ} :
      (P : V → Type κ) (m : Dict V)
      → IsKeyed m
      → ((k : Str) (v : V) → get m k ≡ some v → P v)
      → All P (values m)
  unfolding get
  values-All P [] h all = tt
  values-All P ((j, w) ∷ m) h all = (
    all j w (rw (eq_refl j)),
    values-All P m h.1 (λ k v e. all k v (ground (arith, eq_iff j k, h.0))),
  )

  pub total-remove :
      (f : V → ℕ) (m : Dict V) (k : Str)
      → IsKeyed m
      → total f (remove m k) + at_some f (get m k) ≡ total f m
  unfolding get remove
  total-remove f [] k h = refl
  total-remove f ((j, w) ∷ m) k h =
      ground (arith, total-remove f m k h.1, eq_iff j k, remove_missing m k)

  -- len(m) after a write and after a deletion
  pub length-put :
      (m : Dict V) (k : Str) (v : V)
      → length (put m k v) ≡ (if has m k then length m else suc (length m))
  unfolding get put
  length-put [] k v = refl
  length-put ((j, w) ∷ m) k v = ground (arith, length-put m k v)

  pub length-remove :
      (m : Dict V) (k : Str)
      → IsKeyed m
      → length m ≡ (if has m k then suc (length (remove m k)) else length (remove m k))
  unfolding get remove
  length-remove [] k h = refl
  length-remove ((j, w) ∷ m) k h =
      ground (arith, length-remove m k h.1, eq_iff j k, remove_missing m k)

pub ruleset dict_laws = (get-put, get-remove, get-retain)
