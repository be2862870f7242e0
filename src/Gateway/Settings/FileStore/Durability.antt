-- ===== src/Gateway/Settings/FileStore/Durability.antt =====
-- What is on the disk after a change of the store, and what a new process makes of it.
use agent_console.Prelude.{
  Str, str, Bool, true, false, Option, none, some, [], ◌++◌, ◌≡◌, ◌⊎◌, inl, inr, refl, sym, ap, ◌∙◌,
  arith, Option-cases,
}
use agent_console.Prelude.Result.{Result, ok, err}
use agent_console.Prelude.Dict
use agent_console.Prelude.Dict.{Dict, IsKeyed}
use agent_console.Domain.Config.{AgentConfigDocument, ConsolePreferences}
use agent_console.Gateway.Settings.{
  MemoryStore, SettingsError, PersistedState, list_agent_types, get_global, get_machine,
  get_console_preferences, put_global, put_machine, delete_machine, put_console_preferences,
  snapshot, load, clone_documents, copy_some, copy_preferences, clone_thread_titles,
}
use agent_console.Gateway.Settings.Snapshots.{
  IsWellFormed, load-snapshot, get-clone_documents, get-clone_machines, clone_documents-IsKeyed,
  clone_machines-IsKeyed, Op, put_global_op, put_machine_op, delete_machine_op, put_preferences_op,
  apply, apply-IsWellFormed, keep_on_error,
}
use agent_console.Gateway.Settings.FileStore.Encodable.{is_encodable}
use agent_console.Gateway.Settings.FileStore.{
  Disk, FileStat, FileError, FileStore, renamed, written, made, marshalled, persist, saved,
  load_from_file, load_stat, load_content, loaded, file_put_global, file_put_machine,
  file_delete_machine, file_put_console_preferences,
}

-- The three plain fields of the preferences, and the title of a thread.
abbrev pub title_of : Option (Dict Str) → Str → Option Str
title_of none k = none
title_of (some titles) k = Dict.get titles k

abbrev pub preferences_view :
    Option ConsolePreferences → Str → Option (Str × Str × Str × Option Str)
preferences_view none k = none
preferences_view (some p) k =
    some (p.profile, p.safety_policy, p.last_thread_id, title_of p.thread_titles k)

-- The document of a machine in a state.
abbrev pub document_in : PersistedState → Str → Str → Option AgentConfigDocument
document_in state m a = Dict.get (Dict.get_or [] (Dict.get state.machines m)) a

-- Every key of a state stands once, as in a map.
pub record IsMap (state : PersistedState) : Type 0 where
  pub globals : IsKeyed state.globals
  pub machines : IsKeyed state.machines
  pub documents :
      (m : Str) (docs : Dict AgentConfigDocument)
      → Dict.get state.machines m ≡ some docs
      → IsKeyed docs

-- Two states that hold the same, in whatever order.
pub record IsSame (x y : PersistedState) : Type 0 where
  pub agents : x.agents ≡ y.agents
  pub globals : (a : Str) → Dict.get x.globals a ≡ Dict.get y.globals a
  pub machines : (m a : Str) → document_in x m a ≡ document_in y m a
  pub preferences :
      (k : Str)
      → preferences_view x.console_preferences k ≡ preferences_view y.console_preferences k

-- What the store relies on, for its file: a file that was written or renamed without an error has the new
-- content, the temporary file beside it is no other name of it, a failed renaming leaves its target,
-- and making a directory leaves it.
pub record IsDisk (disk : Disk) (path : Str) : Type 0 where
  pub write_done :
      (s s' : disk.State) (p : Str) (c : disk.Content)
      → disk.write_file s p c ≡ (s', true)
      → disk.read_file s' p ≡ some c
  pub write_tmp :
      (s : disk.State) (c : disk.Content)
      → disk.read_file (disk.write_file s (path ++ str ".tmp") c).0 path ≡ disk.read_file s path
  pub rename_done :
      (s s' : disk.State) (p q : Str)
      → disk.rename s p q ≡ (s', true)
      → (disk.read_file s' q ≡ disk.read_file s p) × (disk.stat s' q ≡ FileStat.present)
  pub rename_failed :
      (s s' : disk.State) (p q : Str)
      → disk.rename s p q ≡ (s', false)
      → disk.read_file s' q ≡ disk.read_file s q
  pub mkdir_other :
      (s : disk.State) (dir : Str)
      → disk.read_file (disk.mkdir_all s dir).0 path ≡ disk.read_file s path

-- JSON that a state of UTF-8 texts was encoded to is not empty and decodes to the same state, in an order
-- of its own.
pub record IsCodec (disk : Disk) : Type 0 where
  pub decodes :
      (state : PersistedState) (content : disk.Content)
      → IsMap state
      → is_encodable state ≡ true
      → disk.marshal state ≡ some content
      → (decoded : PersistedState) × (disk.unmarshal content ≡ some decoded)
        × IsMap decoded
        × IsSame decoded state
        × (disk.no_content content ≡ false)

-- The change of one operation, on the file too.
abbrev pub file_apply :
    (disk : Disk) → Op → FileStore → disk.State → FileStore × disk.State × Option FileError
file_apply disk (put_global_op now a d) f s = file_put_global disk now a d f s
file_apply disk (put_machine_op now m a d) f s = file_put_machine disk now m a d f s
file_apply disk (delete_machine_op m a) f s = file_delete_machine disk m a f s
file_apply disk (put_preferences_op p) f s = file_put_console_preferences disk p f s

get-copy_some :
    (p : Option ConsolePreferences) (k : Str)
    → preferences_view (copy_some p) k ≡ preferences_view p k
unfolding copy_some copy_preferences clone_thread_titles
get-copy_some none k = refl
get-copy_some (some p) k = ground (arith, Dict.get-nil {V = Str} k)

-- What a store that was loaded from a state answers.
load-answers :
    (state : PersistedState) (t : MemoryStore) (m a k : Str)
    → IsMap state
    → let u = load state t in
      (list_agent_types u ≡ state.agents)
      × (get_global u a ≡ Dict.get state.globals a)
      × (get_machine u m a ≡ document_in state m a)
      × (preferences_view (get_console_preferences u) k
          ≡ preferences_view state.console_preferences k)
unfolding load list_agent_types get_global get_machine get_console_preferences
load-answers state t m a k is_map = (
  refl,
  ground (
    arith,
    get-clone_documents [] state.globals a is_map.globals,
    Dict.get-nil {V = AgentConfigDocument} a,
  ),
  elim (Option-cases (Dict.get state.machines m)) [
    | inl e ↦ ground (
      arith,
      e,
      get-clone_machines [] state.machines m is_map.machines,
      Dict.get-nil {V = Dict AgentConfigDocument} m,
    )
    | inr (docs, e) ↦ ground (
      arith,
      e,
      get-clone_machines [] state.machines m is_map.machines,
      get-clone_documents [] docs a (is_map.documents m docs e),
      Dict.get-nil {V = AgentConfigDocument} a,
    )
  ],
  get-copy_some (copy_some state.console_preferences) k ∙ get-copy_some state.console_preferences k,
)

snapshot-IsMap : (t : MemoryStore) → IsWellFormed t → IsMap (snapshot t)
unfolding snapshot
snapshot-IsMap t w = record {
  globals = clone_documents-IsKeyed [] t.globals tt;
  machines = clone_machines-IsKeyed [] t.machines tt;
  documents = λ m docs e. elim (Option-cases (Dict.get t.machines m)) [
    | inl gone ↦ ground (
      arith,
      get-clone_machines [] t.machines m w.machines_keyed,
      Dict.get-nil {V = Dict AgentConfigDocument} m,
    )
    | inr (old, eo) ↦
        let same : clone_documents [] old ≡ docs =
          ground (arith, get-clone_machines [] t.machines m w.machines_keyed) in
        rw same at (clone_documents-IsKeyed [] old tt)
  ];
}

abbrev pub HasAnswers : MemoryStore → MemoryStore → Type 0
HasAnswers u t =
    (m a k : Str)
    → (list_agent_types u ≡ list_agent_types t)
      × (get_global u a ≡ get_global t a)
      × (get_machine u m a ≡ get_machine t m a)
      × (preferences_view (get_console_preferences u) k
          ≡ preferences_view (get_console_preferences t) k)

-- A state that holds what the snapshot of a store holds brings the store's answers back.
load-same :
    (decoded : PersistedState) (t u : MemoryStore)
    → IsWellFormed t
    → IsMap decoded
    → IsSame decoded (snapshot t)
    → HasAnswers (load decoded u) t
load-same decoded t u w is_map same m a k =
    let direct = load-snapshot t u m a w in
    let there = load-answers (snapshot t) u m a k (snapshot-IsMap t w) in
    let here = load-answers decoded u m a k is_map in
    (
      here.0 ∙ same.agents ∙ sym there.0 ∙ direct.0,
      here.1 ∙ same.globals a ∙ sym there.1 ∙ direct.1,
      here.2 ∙ same.machines m a ∙ sym there.2 ∙ direct.2,
      here.3 ∙ same.preferences k ∙ sym there.3 ∙ ap (λ p. preferences_view p k) direct.3,
    )

module _ (disk : Disk) where
  -- The file has the content, or what it had before; without an error it has the content.
  abbrev Outcome : Str → Option disk.Content → disk.State → disk.State × Option FileError → Type 0
  Outcome path content s r =
      ((disk.read_file r.0 path ≡ content) ⊎ (disk.read_file r.0 path ≡ disk.read_file s path))
      × (r.1 ≡ none → (disk.read_file r.0 path ≡ content) × (disk.stat r.0 path ≡ FileStat.present))

  renamed-Outcome :
      (path tmp : Str) (laws : IsDisk disk path) (content : disk.Content) (s : disk.State)
      (r : disk.State × Bool)
      → disk.rename s tmp path ≡ r
      → disk.read_file s tmp ≡ some content
      → Outcome path (some content) s (renamed disk r)
  unfolding renamed
  renamed-Outcome path tmp laws content s (s', true) e ec =
      let done = laws.rename_done s s' tmp path e in (inl (done.0 ∙ ec), λ n. (done.0 ∙ ec, done.1))
  renamed-Outcome path tmp laws content s (s', false) e ec =
      (inr (laws.rename_failed s s' tmp path e), λ n. ground arith)

  written-Outcome :
      (path : Str) (laws : IsDisk disk path) (content : disk.Content) (s : disk.State)
      (r : disk.State × Bool)
      → disk.write_file s (path ++ str ".tmp") content ≡ r
      → Outcome path (some content) s (written disk (path ++ str ".tmp") path r)
  unfolding written
  written-Outcome path laws content s (s', false) e =
      let kept = laws.write_tmp s content in (inr (rw e at kept), λ n. ground arith)
  written-Outcome path laws content s (s', true) e =
      let kept = rw e at (laws.write_tmp s content) in
      let tmp = path ++ str ".tmp" in
      let (file, done) =
        renamed-Outcome path tmp laws content s' (disk.rename s' tmp path) refl
          (laws.write_done s s' tmp content e) in
      (elim file [ inl new ↦ inl new | inr old ↦ inr (old ∙ kept) ], done)

  made-Outcome :
      (path : Str) (laws : IsDisk disk path) (content : disk.Content) (s : disk.State)
      (r : disk.State × Bool)
      → disk.mkdir_all s (disk.dir path) ≡ r
      → Outcome path (some content) s (made disk path content r)
  unfolding made
  made-Outcome path laws content s (s', false) e =
      (inr (rw e at (laws.mkdir_other s (disk.dir path))), λ n. ground arith)
  made-Outcome path laws content s (s', true) e =
      let kept = rw e at (laws.mkdir_other s (disk.dir path)) in
      let (file, done) =
        written-Outcome path laws content s' (disk.write_file s' (path ++ str ".tmp") content)
          refl in
      (elim file [ inl new ↦ inl new | inr old ↦ inr (old ∙ kept) ], done)

  persist-Outcome :
      (f : FileStore) (laws : IsDisk disk f.path) (s : disk.State)
      → Outcome f.path (disk.marshal (snapshot f.memory)) s (persist disk f s)
        × ((persist disk f s).1 ≡ none
            → (c : disk.Content) × (disk.marshal (snapshot f.memory) ≡ some c))
  unfolding persist marshalled
  persist-Outcome f laws s = elim (Option-cases (disk.marshal (snapshot f.memory))) [
    | inl e ↦ rw e ((inr refl, λ n. ground arith), λ n. ground arith)
    | inr (c, e) ↦
        rw e
          (made-Outcome f.path laws c s (disk.mkdir_all s (disk.dir f.path)) refl, λ n. (c, refl))
  ]

  abbrev memory_result : Op → MemoryStore → Result SettingsError MemoryStore
  memory_result (put_global_op now a d) t = put_global now a d t
  memory_result (put_machine_op now m a d) t = put_machine now m a d t
  memory_result (delete_machine_op m a) t = delete_machine m a t
  memory_result (put_preferences_op p) t = ok (put_console_preferences p t)

  apply-result : (op : Op) (t : MemoryStore) → apply op t ≡ keep_on_error t (memory_result op t)
  apply-result (put_global_op now a d) t = refl
  apply-result (put_machine_op now m a d) t = refl
  apply-result (delete_machine_op m a) t = refl
  apply-result (put_preferences_op p) t = refl

  file_apply-saved :
      (op : Op) (f : FileStore) (s : disk.State)
      → file_apply disk op f s ≡ saved disk (memory_result op f.memory) f s
  unfolding file_put_global file_put_machine file_delete_machine file_put_console_preferences
  file_apply-saved (put_global_op now a d) f s = refl
  file_apply-saved (put_machine_op now m a d) f s = refl
  file_apply-saved (delete_machine_op m a) f s = refl
  file_apply-saved (put_preferences_op p) f s = refl

  saved-file :
      (r : Result SettingsError MemoryStore) (f : FileStore) (laws : IsDisk disk f.path)
      (s : disk.State)
      → let (f', s', error) = saved disk r f s in
        (f' ≡ record f { memory = keep_on_error f.memory r })
        × ((disk.read_file s' f.path ≡ disk.marshal (snapshot f'.memory))
            ⊎ (disk.read_file s' f.path ≡ disk.read_file s f.path))
  unfolding saved
  saved-file (err e) f laws s = (refl, inr refl)
  saved-file (ok memory) f laws s =
      (refl, (persist-Outcome (record f { memory = memory }) laws s).0.0)

  -- Where no other change of the store and no other program is at work on its files meanwhile: whatever
  -- fails on the way, the file of the store holds after a change what it held before or the new
  -- state of the store, complete. The store itself has changed as the store in memory does, even
  -- where the file was not written. The disk meets what the store relies on for its file, of which
  -- the temporary file beside it is no other name.
  pub file_apply_atomic :
      (op : Op) (f : FileStore) (s : disk.State)
      → IsDisk disk f.path
      → let (f', s', error) = file_apply disk op f s in
        (f' ≡ record f { memory = apply op f.memory })
        × ((disk.read_file s' f.path ≡ disk.marshal (snapshot f'.memory))
            ⊎ (disk.read_file s' f.path ≡ disk.read_file s f.path))
  file_apply_atomic op f s laws =
      rw (file_apply-saved op f s, apply-result op f.memory)
        (saved-file (memory_result op f.memory) f laws s)

  read-loaded :
      (f : FileStore) (s : disk.State) (t : MemoryStore) (c : disk.Content)
      (decoded : PersistedState)
      → disk.stat s f.path ≡ FileStat.present
      → disk.read_file s f.path ≡ some c
      → disk.unmarshal c ≡ some decoded
      → disk.no_content c ≡ false
      → load_from_file disk f s ≡ ok (record f { memory = load decoded f.memory })
  unfolding load_from_file load_stat load_content loaded
  read-loaded f s t c decoded es er eu ec = rw (es, er, ec, eu) refl

  saved-reopened :
      (r : Result SettingsError MemoryStore) (f g : FileStore) (s : disk.State)
      → IsDisk disk f.path
      → IsCodec disk
      → is_encodable (snapshot (keep_on_error f.memory r)) ≡ true
      → g.path ≡ f.path
      → IsWellFormed (keep_on_error f.memory r)
      → let (f', s', error) = saved disk r f s in
        error ≡ none
        → (u : MemoryStore) × (load_from_file disk g s' ≡ ok (record g { memory = u }))
          × HasAnswers u f'.memory
  unfolding saved
  saved-reopened (err e) f g s laws codec text eg w done = ground arith
  saved-reopened (ok memory) f g s laws codec text eg w done =
      let f' = record f { memory = memory } in
      let (outcome, given) = persist-Outcome f' laws s in
      let (c, ec) = given done in
      let (file, there) = outcome.1 done in
      let (decoded, eu, is_map, same, nonempty) =
        codec.decodes (snapshot memory) c (snapshot-IsMap memory w) text ec in
      (
        load decoded g.memory,
        read-loaded g (persist disk f' s).0 memory c decoded (rw eg there) (rw eg (file ∙ ec)) eu
            nonempty,
        load-same decoded memory g.memory w is_map same,
      )

  -- After a change that reports no error, while nothing else is at work on the files, a store that is
  -- opened on the same file loads it, and answers everything as the store that wrote it: the agent
  -- types, the global documents, the documents of the machines, and the preferences with the title
  -- of each thread. The store in memory is well-formed before the change, the texts of the new
  -- state are UTF-8 without U+FFFD, and the disk and the encoding meet what the store relies on.
  pub load_from_file-file_apply :
      (op : Op) (f g : FileStore) (s : disk.State)
      → IsDisk disk f.path
      → IsCodec disk
      → is_encodable (snapshot (apply op f.memory)) ≡ true
      → g.path ≡ f.path
      → IsWellFormed f.memory
      → let (f', s', error) = file_apply disk op f s in
        error ≡ none
        → (u : MemoryStore) × (load_from_file disk g s' ≡ ok (record g { memory = u }))
          × HasAnswers u f'.memory
  load_from_file-file_apply op f g s laws codec text eg w = rw (file_apply-saved op f s) (
      saved-reopened (memory_result op f.memory) f g s laws codec
        (rw (apply-result op f.memory) at text) eg
        (rw (apply-result op f.memory) at (apply-IsWellFormed op f.memory w)))
