-- ===== src/Gateway/Settings/Documents.antt =====
-- What the documents are after each operation, and the versions that a document runs through.
use agent_console.Prelude.{
  ℕ, ◌+◌, ◌%◌, ◌^◌, ◌<◌, Str, ◌==◌, eq_iff, false, ◌&&◌, none, some, List, [], ◌∷◌, ◌≡◌, refl, ap,
  arith, if◌then◌else◌, length, Option-cases, inl, inr,
}
use agent_console.Prelude.Result.{Result, ok, err}
use agent_console.Prelude.Dict
use agent_console.Prelude.Dict.{Dict, IsKeyed}
use agent_console.Domain.Config.{AgentConfigDocument}
use agent_console.Gateway.Settings.{
  MemoryStore, SettingsError, is_blank, or_toml, next_version, stamp_document, version_of,
  get_global, put_global, documents_of, get_machine, put_machine, store_documents, delete_machine,
}

-- A document as it is stored: the content is as sent, the version follows the one that was there, the
-- time is that of the call, and a format or an author that is missing is filled in.
abbrev pub stamped : MemoryStore → Str → Str → AgentConfigDocument → ℕ → AgentConfigDocument
stamped s now agent_type d current = record {
  agent_type = agent_type;
  format = or_toml d.format;
  content = d.content;
  updated_at = now;
  updated_by = if is_blank d.updated_by then s.updated_by else d.updated_by;
  version = next_version current;
}

-- For an agent type that is not blank, PutGlobal succeeds; the agent type then has the stamped
-- document, and all other global documents and all documents of machines are as before.
pub put_global_ok :
    (now agent_type : Str) (d : AgentConfigDocument) (s : MemoryStore)
    → is_blank agent_type ≡ false
    → (t : MemoryStore) × (put_global now agent_type d s ≡ ok t)
      × ((j : Str)
          → get_global t j ≡ (
              if agent_type == j
              then some (stamped s now agent_type d (version_of (get_global s agent_type)))
              else get_global s j))
      × ((m j : Str) → get_machine t m j ≡ get_machine s m j)
unfolding put_global get_global get_machine
put_global_ok now agent_type d s h =
    let document = stamp_document s now agent_type d (version_of (Dict.get s.globals agent_type)) in
    (
      record s { globals = Dict.put s.globals agent_type document },
      rw h,
      λ j. ground (arith, Dict.get-put s.globals agent_type document j),
      λ m j. refl,
    )

get-documents_of :
    (d : Dict (Dict AgentConfigDocument)) (m : Str) (docs : Dict AgentConfigDocument) (k j : Str)
    → Dict.get (Dict.get_or [] (Dict.get (Dict.put d m docs) k)) j
      ≡ (if m == k then Dict.get docs j else Dict.get (Dict.get_or [] (Dict.get d k)) j)
get-documents_of d m docs k j = ground (arith, Dict.get-put d m docs k)

-- For a machine and an agent type that are not blank, PutMachine succeeds; the pair then has the
-- stamped document, and every other document, of this machine, of the others and global, is as
-- before.
pub put_machine_ok :
    (now machine_id agent_type : Str) (d : AgentConfigDocument) (s : MemoryStore)
    → is_blank machine_id ≡ false
    → is_blank agent_type ≡ false
    → (t : MemoryStore) × (put_machine now machine_id agent_type d s ≡ ok t)
      × ((m j : Str)
          → get_machine t m j ≡ (
              if (machine_id == m) && (agent_type == j)
              then some
                  (stamped s now agent_type d (version_of (get_machine s machine_id agent_type)))
              else get_machine s m j))
      × ((j : Str) → get_global t j ≡ get_global s j)
unfolding put_machine get_global get_machine
put_machine_ok now machine_id agent_type d s hm ha =
    let docs = documents_of s machine_id in
    let document = stamp_document s now agent_type d (version_of (Dict.get docs agent_type)) in
    (
      record s { machines = Dict.put s.machines machine_id (Dict.put docs agent_type document) },
      rw (hm, ha),
      λ m j. ground (
        arith,
        get-documents_of s.machines machine_id (Dict.put docs agent_type document) m j,
        eq_iff machine_id m,
        Dict.get-put docs agent_type document j,
      ),
      λ j. refl,
    )

get-store_documents :
    (m : Str) (docs : Dict AgentConfigDocument) (s : MemoryStore) (k j : Str)
    → get_machine (store_documents m docs s) k j
      ≡ (if m == k then Dict.get docs j else get_machine s k j)
unfolding store_documents get_machine
get-store_documents m [] s k j =
    ground (arith, Dict.get-remove s.machines m k, Dict.get-nil {V = AgentConfigDocument} j)
get-store_documents m (d ∷ ds) s k j = get-documents_of s.machines m (d ∷ ds) k j

globals-store_documents :
    (m : Str) (docs : Dict AgentConfigDocument) (s : MemoryStore)
    → (store_documents m docs s).globals ≡ s.globals
unfolding store_documents
globals-store_documents m [] s = refl
globals-store_documents m (d ∷ ds) s = refl

-- For a machine and an agent type that are not blank, DeleteMachine succeeds; the pair then has no
-- document, and every other document, of this machine, of the others and global, is as before.
pub delete_machine_ok :
    (machine_id agent_type : Str) (s : MemoryStore)
    → is_blank machine_id ≡ false
    → is_blank agent_type ≡ false
    → (t : MemoryStore) × (delete_machine machine_id agent_type s ≡ ok t)
      × ((m j : Str)
          → get_machine t m j
            ≡ (if (machine_id == m) && (agent_type == j) then none else get_machine s m j))
      × ((j : Str) → get_global t j ≡ get_global s j)
unfolding delete_machine get_global get_machine
delete_machine_ok machine_id agent_type s hm ha =
    elim (Option-cases (Dict.get s.machines machine_id)) [
      | inl e ↦ (
        s,
        rw (hm, ha, e),
        λ m j. ground (arith, eq_iff machine_id m, Dict.get-nil {V = AgentConfigDocument} j),
        λ j. refl,
      )
      | inr (docs, e) ↦ (
        store_documents machine_id (Dict.remove docs agent_type) s,
        rw (hm, ha, e),
        λ m j. ground (
          arith,
          get-store_documents machine_id (Dict.remove docs agent_type) s m j,
          eq_iff machine_id m,
          Dict.get-remove docs agent_type j,
        ),
        λ j.
            ap (λ d. Dict.get d j)
              (globals-store_documents machine_id (Dict.remove docs agent_type) s),
      )
    ]

-- PutGlobal on a document after the other; a refused one leaves the store as it is.
abbrev pub or_store : MemoryStore → Result SettingsError MemoryStore → MemoryStore
or_store s (ok t) = t
or_store s (err e) = s

abbrev pub put_globals : Str → List (Str × AgentConfigDocument) → MemoryStore → MemoryStore
put_globals t [] s = s
put_globals t ((now, d) ∷ rest) s = put_globals t rest (or_store s (put_global now t d s))

version-put_global :
    (now t : Str) (d : AgentConfigDocument) (s : MemoryStore)
    → is_blank t ≡ false
    → version_of (get_global (or_store s (put_global now t d s)) t)
      ≡ next_version (version_of (get_global s t))
version-put_global now t d s h =
    let (s', e, here, _) = put_global_ok now t d s h in ground (arith, e, here t, eq_iff t t)

-- The version of a global document counts the times that it was put: it goes up by one each time,
-- modulo 2 ^ 64, from the version that was there or from 0.
pub version-put_globals :
    (t : Str) (docs : List (Str × AgentConfigDocument)) (s : MemoryStore)
    → is_blank t ≡ false
    → version_of (get_global s t) < 2 ^ 64
    → version_of (get_global (put_globals t docs s) t)
      ≡ (version_of (get_global s t) + length docs) % 2 ^ 64
version-put_globals t [] s h small = omega arith
version-put_globals t ((now, d) ∷ rest) s h small =
    let next = or_store s (put_global now t d s) in
    let step = version-put_global now t d s h in
    omega (arith, version-put_globals t rest next h (omega (arith, step)), step)
