-- ===== src/Gateway/Settings/FileStore/Tests.antt =====
-- The file store on a disk that never fails, and keeps a state as it is.
use agent_console.Prelude.{
  Str, str, ◌==◌, eq_iff, Bool, true, false, Option, none, some, [], ◌≡◌, ◌⊎◌, refl, ap, arith,
}
use agent_console.Prelude.Result.{ok}
use agent_console.Prelude.Dict
use agent_console.Prelude.Dict.{Dict}
use agent_console.Prelude.Text.Trim.{trim_space}
use agent_console.Prelude.Text.Utf8.{runes}
use agent_console.Domain.Config.{AgentConfigDocument, AgentConfigFormat}
use agent_console.Gateway.Settings.{
  MemoryStore, PersistedState, new_memory_store, put_global, snapshot,
}
use agent_console.Gateway.Settings.Snapshots.{IsWellFormed, Op, put_global_op, apply}
use agent_console.Gateway.Settings.FileStore.{
  Disk, FileStat, FileStore, load_from_file, file_put_global, saved, persist, marshalled, made,
  written, renamed,
}
use agent_console.Gateway.Settings.FileStore.Durability.{
  IsDisk, IsCodec, HasAnswers, file_apply, file_apply_atomic, load_from_file-file_apply,
}

rename_to : Dict PersistedState → Str → Option PersistedState → Dict PersistedState × Bool
rename_to s q none = (s, false)
rename_to s q (some c) = (Dict.put s q c, true)

stat_of : Option PersistedState → FileStat
stat_of none = FileStat.missing
stat_of (some c) = FileStat.present

abbrev disk : Disk
disk = record {
  State = Dict PersistedState;
  Content = PersistedState;
  no_content = λ c. false;
  stat = λ s p. stat_of (Dict.get s p);
  read_file = λ s p. Dict.get s p;
  write_file = λ s p c. (Dict.put s p c, true);
  mkdir_all = λ s p. (s, true);
  create_temp = λ s dir. (s, some dir);
  close = λ s p. (s, true);
  remove = λ s p. (Dict.remove s p, true);
  rename = λ s p q. rename_to s q (Dict.get s p);
  clean = λ p. p;
  dir = λ p. p;
  fallback = λ p. p;
  is_abs = λ p. true;
  marshal = λ state. some state;
  unmarshal = λ c. some c;
}

rename_to-done :
    (s s' : Dict PersistedState) (q : Str) (o : Option PersistedState)
    → rename_to s q o ≡ (s', true)
    → (Dict.get s' q ≡ o) × (stat_of (Dict.get s' q) ≡ FileStat.present)
unfolding rename_to stat_of
rename_to-done s s' q none e = ground arith
rename_to-done s s' q (some c) e = ground (arith, Dict.get-put s q c q, eq_iff q q, ap (λ r. r.0) e)

rename_to_failed :
    (s s' : Dict PersistedState) (q : Str) (o : Option PersistedState)
    → rename_to s q o ≡ (s', false)
    → Dict.get s' q ≡ Dict.get s q
unfolding rename_to
rename_to_failed s s' q none e = ground (arith, ap (λ r. r.0) e)
rename_to_failed s s' q (some c) e = ground arith

disk-IsDisk : IsDisk disk (str "settings.json")
unfolding ◌==◌
disk-IsDisk = record {
  write_done = λ s s' p c e. ground (arith, Dict.get-put s p c p, eq_iff p p, ap (λ r. r.0) e);
  write_tmp = λ s c. Dict.get-put s (str "settings.json.tmp") c (str "settings.json");
  rename_done = λ s s' p q e. rename_to-done s s' q (Dict.get s p) e;
  rename_failed = λ s s' p q e. rename_to_failed s s' q (Dict.get s p) e;
  mkdir_other = λ s dir. refl;
}

disk-IsCodec : IsCodec disk
disk-IsCodec = record {
  decodes = λ state content is_map text e.
      let same : state ≡ content = ground arith in
      (
        content,
        refl,
        rw same at is_map,
        rw same (record {
          agents = refl;
          globals = λ a. refl;
          machines = λ m a. refl;
          preferences = λ k. refl;
        }),
        refl,
      );
}

abbrev store : FileStore
store = record { memory = new_memory_store []; path = str "settings.json" }

store-IsWellFormed : IsWellFormed store.memory
unfolding new_memory_store Dict.get
store-IsWellFormed = record { globals_keyed = tt; machines_keyed = tt; filled = λ m docs e. cc }

abbrev document : AgentConfigDocument
document = record {
  agent_type = str "codex";
  format = AgentConfigFormat.unset;
  content = str "model = 1";
  updated_at = [];
  updated_by = [];
  version = 0;
}

abbrev put : Op
put = put_global_op (str "now") (str "codex") document

file_apply_atomic_example :
    let (f', s', error) = file_apply disk put store [] in
    (f' ≡ record store { memory = apply put store.memory })
    × ((disk.read_file s' store.path ≡ disk.marshal (snapshot f'.memory))
        ⊎ (disk.read_file s' store.path ≡ disk.read_file [] store.path))
file_apply_atomic_example = file_apply_atomic disk put store [] disk-IsDisk

load_from_file-file_apply_example :
    let (f', s', error) = file_apply disk put store [] in
    (u : MemoryStore) × (load_from_file disk store s' ≡ ok (record store { memory = u }))
    × HasAnswers u f'.memory
unfolding file_put_global saved persist marshalled made written renamed put_global trim_space
    new_memory_store rename_to Dict.get Dict.put ◌==◌ snapshot runes
load_from_file-file_apply_example =
    load_from_file-file_apply disk put store store [] disk-IsDisk disk-IsCodec refl refl
      store-IsWellFormed refl
