-- ===== src/Gateway/Settings/Snapshots.antt =====
-- The invariant of the store, and that `snapshot` and `load` carry all of it over.
use agent_console.Prelude.{
  Str, ◌==◌, eq_iff, Option, none, some, List, [], ◌∷◌, ◌≡◌, ◌≢◌, refl, ap, ◌∙◌, arith, Bool-cases,
  Option-cases, inl, inr,
}
use agent_console.Prelude.Result.{Result, ok, err}
use agent_console.Prelude.Dict
use agent_console.Prelude.Dict.{Dict, IsKeyed}
use agent_console.Domain.Config.{AgentConfigDocument, ConsolePreferences}
use agent_console.Gateway.Settings.{
  MemoryStore, SettingsError, is_blank, stamp_document, version_of, get_global, put_global,
  documents_of, get_machine, put_machine, store_documents, delete_machine, clone_thread_titles,
  copy_preferences, copy_some, get_console_preferences, put_console_preferences, clone_documents,
  clone_machines, snapshot, load, list_agent_types,
}

-- What holds of the documents of a machine: there is one at least, and each key stands once.
abbrev pub IsFilled : Dict AgentConfigDocument → Type 0
IsFilled docs = (docs ≢ []) × IsKeyed docs

-- Each key stands once, at both levels, and no machine is left without a document.
pub record IsWellFormed (s : MemoryStore) : Type 0 where
  pub globals_keyed : IsKeyed s.globals
  pub machines_keyed : IsKeyed s.machines
  pub filled :
      (m : Str) (docs : Dict AgentConfigDocument)
      → Dict.get s.machines m ≡ some docs
      → IsFilled docs

put-nonempty :
    (d : Dict AgentConfigDocument) (k : Str) (v : AgentConfigDocument) → Dict.put d k v ≢ []
unfolding Dict.put
put-nonempty [] k v h = ground arith
put-nonempty ((j, w) ∷ d) k v h = ground arith

documents_of-IsKeyed : (s : MemoryStore) (m : Str) → IsWellFormed s → IsKeyed (documents_of s m)
documents_of-IsKeyed s m w = elim (Option-cases (Dict.get s.machines m)) [
  | inl e ↦ rw e tt
  | inr (docs, e) ↦ rw e (w.filled m docs e).1
]

-- Writing filled documents for a machine.
put-IsFilled :
    (d : Dict (Dict AgentConfigDocument)) (m : Str) (docs : Dict AgentConfigDocument)
    → IsFilled docs
    → ((k : Str) (old : Dict AgentConfigDocument) → Dict.get d k ≡ some old → IsFilled old)
    → (k : Str) (new : Dict AgentConfigDocument) → Dict.get (Dict.put d m docs) k ≡ some new
    → IsFilled new
put-IsFilled d m docs f old k new h = elim (Bool-cases (m == k)) [
  | inl e ↦ let same : docs ≡ new = ground (arith, Dict.get-put d m docs k) in rw same at f
  | inr e ↦ old k new (ground (arith, Dict.get-put d m docs k))
]

remove-IsFilled :
    (d : Dict (Dict AgentConfigDocument)) (m : Str)
    → ((k : Str) (old : Dict AgentConfigDocument) → Dict.get d k ≡ some old → IsFilled old)
    → (k : Str) (new : Dict AgentConfigDocument) → Dict.get (Dict.remove d m) k ≡ some new
    → IsFilled new
remove-IsFilled d m old k new h = old k new (ground (arith, Dict.get-remove d m k))

store_documents-IsWellFormed :
    (m : Str) (docs : Dict AgentConfigDocument) (s : MemoryStore)
    → IsKeyed docs
    → IsWellFormed s
    → IsWellFormed (store_documents m docs s)
unfolding store_documents
store_documents-IsWellFormed m [] s k w = record {
  globals_keyed = w.globals_keyed;
  machines_keyed = Dict.remove-IsKeyed s.machines m w.machines_keyed;
  filled = remove-IsFilled s.machines m w.filled;
}
store_documents-IsWellFormed m (d ∷ ds) s k w = record {
  globals_keyed = w.globals_keyed;
  machines_keyed = Dict.put-IsKeyed s.machines m (d ∷ ds) w.machines_keyed;
  filled = put-IsFilled s.machines m (d ∷ ds) ((λ e. cc), k) w.filled;
}

-- The operations that change the documents.
pub data Op : Type 0 where
  put_global_op : Str → Str → AgentConfigDocument → Op
  put_machine_op : Str → Str → Str → AgentConfigDocument → Op
  delete_machine_op : Str → Str → Op
  put_preferences_op : ConsolePreferences → Op

-- A refused operation leaves the store as it is.
abbrev pub keep_on_error : MemoryStore → Result SettingsError MemoryStore → MemoryStore
keep_on_error s (ok t) = t
keep_on_error s (err e) = s

abbrev pub apply : Op → MemoryStore → MemoryStore
apply (put_global_op now t d) s = keep_on_error s (put_global now t d s)
apply (put_machine_op now m t d) s = keep_on_error s (put_machine now m t d s)
apply (delete_machine_op m t) s = keep_on_error s (delete_machine m t s)
apply (put_preferences_op p) s = put_console_preferences p s

abbrev pub run_ops : List Op → MemoryStore → MemoryStore
run_ops [] s = s
run_ops (op ∷ ops) s = run_ops ops (apply op s)

pub apply-IsWellFormed : (op : Op) (s : MemoryStore) → IsWellFormed s → IsWellFormed (apply op s)
unfolding put_global put_machine delete_machine put_console_preferences
apply-IsWellFormed (put_global_op now t d) s w = elim (Bool-cases (is_blank t)) [
  | inl e ↦ rw e w
  | inr e ↦ rw e (record {
    globals_keyed = Dict.put-IsKeyed s.globals t _ w.globals_keyed;
    machines_keyed = w.machines_keyed;
    filled = w.filled;
  })
]
apply-IsWellFormed (put_machine_op now m t d) s w = elim (Bool-cases (is_blank m)) [
  | inl e ↦ rw e w
  | inr e ↦ elim (Bool-cases (is_blank t)) [
    | inl f ↦ rw (e, f) w
    | inr f ↦
        let docs = documents_of s m in
        let document = stamp_document s now t d (version_of (Dict.get docs t)) in
        rw (e, f)
          (record {
            globals_keyed = w.globals_keyed;
            machines_keyed = Dict.put-IsKeyed s.machines m _ w.machines_keyed;
            filled =
                put-IsFilled s.machines m (Dict.put docs t document)
                  (
                    put-nonempty docs t document,
                    Dict.put-IsKeyed docs t document (documents_of-IsKeyed s m w),
                  )
                  w.filled;
          })
  ]
]
apply-IsWellFormed (delete_machine_op m t) s w = elim (Bool-cases (is_blank m)) [
  | inl e ↦ rw e w
  | inr e ↦ elim (Bool-cases (is_blank t)) [
    | inl f ↦ rw (e, f) w
    | inr f ↦ elim (Option-cases (Dict.get s.machines m)) [
      | inl g ↦ rw (e, f, g) w
      | inr (docs, g) ↦
          rw (e, f, g)
            (store_documents-IsWellFormed m (Dict.remove docs t) s
              (Dict.remove-IsKeyed docs t (w.filled m docs g).1) w)
    ]
  ]
]
apply-IsWellFormed (put_preferences_op p) s w = record {
  globals_keyed = w.globals_keyed;
  machines_keyed = w.machines_keyed;
  filled = w.filled;
}

-- From a well-formed store, any sequence of operations leads to a well-formed one: in particular no
-- machine is ever left with an empty set of documents.
pub run_ops-IsWellFormed :
    (ops : List Op) (s : MemoryStore) → IsWellFormed s → IsWellFormed (run_ops ops s)
run_ops-IsWellFormed [] s w = w
run_ops-IsWellFormed (op ∷ ops) s w =
    run_ops-IsWellFormed ops (apply op s) (apply-IsWellFormed op s w)

abbrev pub or_some {ℓ} : {A : Type ℓ} → Option A → Option A → Option A
or_some none b = b
or_some (some a) b = some a

pub get-clone_documents :
    (c d : Dict AgentConfigDocument) (k : Str)
    → IsKeyed d
    → Dict.get (clone_documents c d) k ≡ or_some (Dict.get d k) (Dict.get c k)
unfolding clone_documents Dict.get
get-clone_documents c [] k h = refl
get-clone_documents c ((j, v) ∷ d) k h =
    ground (arith, get-clone_documents (Dict.put c j v) d k h.1, Dict.get-put c j v k, eq_iff j k)

abbrev pub map_documents : Option (Dict AgentConfigDocument) → Option (Dict AgentConfigDocument)
map_documents none = none
map_documents (some d) = some (clone_documents [] d)

pub get-clone_machines :
    (c d : Dict (Dict AgentConfigDocument)) (k : Str)
    → IsKeyed d
    → Dict.get (clone_machines c d) k ≡ or_some (map_documents (Dict.get d k)) (Dict.get c k)
unfolding clone_machines Dict.get
get-clone_machines c [] k h = refl
get-clone_machines c ((j, v) ∷ d) k h = ground (
  arith,
  get-clone_machines (Dict.put c j (clone_documents [] v)) d k h.1,
  Dict.get-put c j (clone_documents [] v) k,
  eq_iff j k,
)

pub clone_documents-IsKeyed :
    (c d : Dict AgentConfigDocument) → IsKeyed c → IsKeyed (clone_documents c d)
unfolding clone_documents
clone_documents-IsKeyed c [] h = h
clone_documents-IsKeyed c ((j, v) ∷ d) h =
    clone_documents-IsKeyed (Dict.put c j v) d (Dict.put-IsKeyed c j v h)

pub clone_machines-IsKeyed :
    (c d : Dict (Dict AgentConfigDocument)) → IsKeyed c → IsKeyed (clone_machines c d)
unfolding clone_machines
clone_machines-IsKeyed c [] h = h
clone_machines-IsKeyed c ((j, v) ∷ d) h =
    clone_machines-IsKeyed (Dict.put c j (clone_documents [] v)) d
      (Dict.put-IsKeyed c j (clone_documents [] v) h)

-- Cloning twice, as a snapshot that is loaded does.
get-clone_twice :
    (d : Dict AgentConfigDocument) (k : Str)
    → IsKeyed d
    → Dict.get (clone_documents [] (clone_documents [] d)) k ≡ Dict.get d k
get-clone_twice d k h = ground (
  arith,
  get-clone_documents [] (clone_documents [] d) k (clone_documents-IsKeyed [] d tt),
  get-clone_documents [] d k h,
  Dict.get-nil {V = AgentConfigDocument} k,
)

copy_some_idem : (p : Option ConsolePreferences) → copy_some (copy_some p) ≡ copy_some p
unfolding copy_some copy_preferences clone_thread_titles
copy_some_idem none = refl
copy_some_idem (some p) = ground arith

clone_twice-machines :
    (s : MemoryStore) (m t : Str)
    → IsWellFormed s
    → Dict.get (Dict.get_or [] (Dict.get (clone_machines [] (clone_machines [] s.machines)) m)) t
      ≡ get_machine s m t
unfolding get_machine
clone_twice-machines s m t w = elim (Option-cases (Dict.get s.machines m)) [
  | inl e ↦ ground (
    arith,
    e,
    get-clone_machines [] (clone_machines [] s.machines) m
        (clone_machines-IsKeyed [] s.machines tt),
    get-clone_machines [] s.machines m w.machines_keyed,
    Dict.get-nil {V = Dict AgentConfigDocument} m,
  )
  | inr (docs, e) ↦ ground (
    arith,
    e,
    get-clone_machines [] (clone_machines [] s.machines) m
        (clone_machines-IsKeyed [] s.machines tt),
    get-clone_machines [] s.machines m w.machines_keyed,
    get-clone_twice docs t (w.filled m docs e).1,
  )
]

-- Loading the snapshot of a well-formed store, into any store, brings back every answer of the store:
-- the agent types, the global documents, the documents of the machines and the preferences.
pub load-snapshot :
    (s t : MemoryStore) (m a : Str)
    → IsWellFormed s
    → let u = load (snapshot s) t in
      (list_agent_types u ≡ list_agent_types s)
      × (get_global u a ≡ get_global s a)
      × (get_machine u m a ≡ get_machine s m a)
      × (get_console_preferences u ≡ get_console_preferences s)
unfolding load snapshot list_agent_types get_global get_machine get_console_preferences
load-snapshot s t m a w = (
  refl,
  get-clone_twice s.globals a w.globals_keyed,
  clone_twice-machines s m a w,
  ap copy_some (copy_some_idem s.console_preferences) ∙ copy_some_idem s.console_preferences,
)
