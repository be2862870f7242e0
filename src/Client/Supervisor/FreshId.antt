-- ===== src/Client/Supervisor/FreshId.antt =====
-- The loop of nextAgentIDLocked ends, at an id that no record has.
use agent_console.Prelude.{
  ℕ, zero, suc, ◌+◌, ◌<◌, ◌≤◌, Str, ◌==◌, eq_iff, false, none, some, ◌∷◌, ◌≡◌, refl, sym, ap, ◌∙◌,
  arith, length, Bool-cases, inl, inr,
}
use agent_console.Prelude.Text.Decimal.{decimal2-injective}
use agent_console.Prelude.Dict
use agent_console.Prelude.Dict.{Dict, IsKeyed}
use agent_console.Client.Supervisor.{ManagedAgentRecord, candidate, search_id, next_agent_id}

abbrev behind : Str → Str
behind (a ∷ b ∷ c ∷ d ∷ e ∷ f ∷ s) = s
behind s = s

candidate-injective : (i j : ℕ) → candidate i ≡ candidate j → i ≡ j
unfolding candidate
candidate-injective i j e = decimal2-injective i j (ap behind e)

candidate_ne : (i j : ℕ) → i < j → (candidate i == candidate j) ≡ false
candidate_ne i j h = elim (Bool-cases (candidate i == candidate j)) [
  | inl e ↦
      let same = candidate-injective i j ((eq_iff (candidate i) (candidate j)).0 e) in
      absurd (omega arith)
  | inr e ↦ e
]

-- A record under a candidate that was passed makes no difference to the search.
search_id-remove :
    (fuel i j : ℕ) (records : Dict ManagedAgentRecord)
    → i < j
    → search_id fuel j (Dict.remove records (candidate i)) ≡ search_id fuel j records
unfolding search_id
search_id-remove zero i j records h = refl
search_id-remove (suc fuel) i j records h =
    let rest = search_id-remove fuel i (j + 1) records (omega arith) in
    ground (arith, rest, candidate_ne i j h, Dict.get-remove records (candidate i) (candidate j))

search_id_total :
    (fuel i : ℕ) (records : Dict ManagedAgentRecord)
    → IsKeyed records
    → length records < fuel
    → (j : ℕ) × (search_id fuel i records ≡ some (candidate j))
      × (i ≤ j)
      × (Dict.get records (candidate j) ≡ none)
unfolding search_id
search_id_total zero i records w h = elim h [ ]
search_id_total (suc fuel) i records w h = elim (Bool-cases (Dict.has records (candidate i))) [
  | inl taken ↦
      let smaller = Dict.remove records (candidate i) in
      let fewer : length smaller < fuel =
        ground (arith, Dict.length-remove records (candidate i) w, taken) in
      let (j, found, past, free) =
        search_id_total fuel (i + 1) smaller (Dict.remove-IsKeyed records (candidate i) w) fewer in
      (
        j,
        rw taken
            (let same = search_id-remove fuel i (i + 1) records (omega arith) in sym same ∙ found),
        omega arith,
        ground (
          arith,
          Dict.get-remove records (candidate i) (candidate j),
          candidate_ne i j (omega arith),
        ),
      )
  | inr open_ ↦ (i, rw open_, omega arith, ground arith)
]

-- For records that hold each id once, the loop ends within one round more than there are records, and
-- its result is one of the ids agent-01, agent-02, ... that no record has.
pub next_agent_id_fresh :
    (records : Dict ManagedAgentRecord)
    → IsKeyed records
    → (j : ℕ) × (next_agent_id records ≡ some (candidate j))
      × (1 ≤ j)
      × (Dict.get records (candidate j) ≡ none)
unfolding next_agent_id
next_agent_id_fresh records w = search_id_total (suc (length records)) 1 records w (omega arith)
