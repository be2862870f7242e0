-- ===== src/Gateway/Settings/FileStore.antt =====
-- gateway/internal/settings/file_store.go: the store that writes itself to a file after each change. The
-- file system, the functions of path/filepath and encoding/json are a `Disk`. A method returns the
-- store, the state of the disk and the error, none where there is none. A method is one step here:
-- PutGlobal and the others write the file without a lock, so that two of them at a time share the
-- temporary file, which is not modelled.
pub mod Durability
pub mod Encodable
mod Tests
use agent_console.Prelude.{
  Str, str, is_empty, Bool, true, false, not, Option, none, some, List, [], ◌∷◌, ◌++◌,
  if◌then◌else◌,
}
use agent_console.Prelude.Result.{Result, ok, err}
use agent_console.Prelude.Text.Trim.{trim_space}
use agent_console.Domain.Config.{AgentDescriptor, AgentConfigDocument, ConsolePreferences}
use agent_console.Gateway.Settings.{
  MemoryStore, SettingsError, PersistedState, new_memory_store, put_global, put_machine,
  delete_machine, put_console_preferences, snapshot, load, is_blank,
}

-- What os.Stat says of a path: there is nothing, there is a file, or it cannot be told.
pub data FileStat : Type 0 where
  missing present unknown : FileStat

-- What a call may do to the disk, with `false` or none for an error. `fallback` is filepath.Join of
-- os.TempDir(), "code-agent-gateway" and the path. `no_content` is the test len(content) == 0. A temporary file is closed by its name.
pub record Disk : Type 1 where
  pub State : Type 0
  pub Content : Type 0
  pub no_content : Content → Bool
  pub stat : State → Str → FileStat
  pub read_file : State → Str → Option Content
  pub write_file : State → Str → Content → State × Bool
  pub mkdir_all : State → Str → State × Bool
  pub create_temp : State → Str → State × Option Str
  pub close : State → Str → State × Bool
  pub remove : State → Str → State × Bool
  pub rename : State → Str → Str → State × Bool
  pub clean : Str → Str
  pub dir : Str → Str
  pub fallback : Str → Str
  pub is_abs : Str → Bool
  pub marshal : PersistedState → Option Content
  pub unmarshal : Content → Option PersistedState

pub data FileError : Type 0 where
  path_required not_writable stat_failed read_failed decode_failed marshal_failed mkdir_failed
        write_failed rename_failed :
      FileError
  refused : SettingsError → FileError

pub record FileStore : Type 0 where
  pub memory : MemoryStore
  pub path : Str

module _ (disk : Disk) where
  -- The end of ensureDirWritable: the temporary file is closed and removed.
  check_closed : Str → disk.State × Bool → disk.State × Bool
  check_closed name (s, true) = disk.remove s name
  check_closed name (s, false) = ((disk.remove s name).0, false)

  check_file : disk.State × Option Str → disk.State × Bool
  unfolding check_closed
  check_file (s, none) = (s, false)
  check_file (s, some name) = check_closed name (disk.close s name)

  check_made : Str → disk.State × Bool → disk.State × Bool
  unfolding check_file
  check_made dir (s, false) = (s, false)
  check_made dir (s, true) = check_file (disk.create_temp s dir)

  unfoldable pub ensure_dir_writable : Str → disk.State → disk.State × Bool
  unfolding check_made
  ensure_dir_writable dir s =
      if is_blank dir then (s, false) else check_made dir (disk.mkdir_all s dir)

  checked_fallback : Str → disk.State × Bool → disk.State × Option Str
  checked_fallback path (s, true) = (s, some path)
  checked_fallback path (s, false) = (s, none)

  or_fallback : Str → Str → disk.State × Bool → disk.State × Option Str
  unfolding checked_fallback ensure_dir_writable
  or_fallback path other (s, true) = (s, some path)
  or_fallback path other (s, false) =
      checked_fallback other (ensure_dir_writable (disk.dir other) s)

  unfoldable pub resolve_writable_store_path : Str → disk.State → disk.State × Option Str
  unfolding or_fallback ensure_dir_writable
  resolve_writable_store_path path s =
      let cleaned = disk.clean path in
      if disk.is_abs cleaned
      then (s, some cleaned)
      else or_fallback cleaned (disk.fallback cleaned) (ensure_dir_writable (disk.dir cleaned) s)

  zero_state : PersistedState
  zero_state = record { agents = []; globals = []; machines = []; console_preferences = none }

  loaded : FileStore → Option PersistedState → Result FileError FileStore
  loaded f none = err decode_failed
  loaded f (some state) = ok (record f { memory = load state f.memory })

  -- An empty file stands for the zero state.
  load_content : FileStore → Option disk.Content → Result FileError FileStore
  unfolding loaded zero_state
  load_content f none = err read_failed
  load_content f (some content) =
      loaded f (if disk.no_content content then some zero_state else disk.unmarshal content)

  load_stat : FileStore → disk.State → FileStat → Result FileError FileStore
  unfolding load_content
  load_stat f s FileStat.missing = ok f
  load_stat f s FileStat.unknown = err stat_failed
  load_stat f s FileStat.present = load_content f (disk.read_file s f.path)

  unfoldable pub load_from_file : FileStore → disk.State → Result FileError FileStore
  unfolding load_stat
  load_from_file f s = load_stat f s (disk.stat s f.path)

  opened : List AgentDescriptor → disk.State × Option Str → disk.State × Result FileError FileStore
  unfolding load_from_file
  opened agents (s, none) = (s, err not_writable)
  opened agents (s, some path) =
      (s, load_from_file (record { memory = new_memory_store agents; path = path }) s)

  unfoldable pub new_file_store :
      Str → List AgentDescriptor → disk.State → disk.State × Result FileError FileStore
  unfolding opened resolve_writable_store_path
  new_file_store path agents s =
      let trimmed = trim_space path in
      if is_empty trimmed
      then (s, err path_required)
      else opened agents (resolve_writable_store_path trimmed s)

  -- The end of persist: each step only if the one before it did not fail.
  renamed : disk.State × Bool → disk.State × Option FileError
  renamed (s, true) = (s, none)
  renamed (s, false) = (s, some rename_failed)

  written : Str → Str → disk.State × Bool → disk.State × Option FileError
  unfolding renamed
  written tmp path (s, false) = (s, some write_failed)
  written tmp path (s, true) = renamed (disk.rename s tmp path)

  made : Str → disk.Content → disk.State × Bool → disk.State × Option FileError
  unfolding written
  made path content (s, false) = (s, some mkdir_failed)
  made path content (s, true) =
      written (path ++ str ".tmp") path (disk.write_file s (path ++ str ".tmp") content)

  marshalled : Str → Option disk.Content → disk.State → disk.State × Option FileError
  unfolding made
  marshalled path none s = (s, some marshal_failed)
  marshalled path (some content) s = made path content (disk.mkdir_all s (disk.dir path))

  unfoldable pub persist : FileStore → disk.State → disk.State × Option FileError
  unfolding marshalled
  persist f s = marshalled f.path (disk.marshal (snapshot f.memory)) s

  -- What a change of the memory is followed by.
  unfoldable pub saved :
      Result SettingsError MemoryStore
      → FileStore
      → disk.State
      → FileStore × disk.State × Option FileError
  unfolding persist
  saved (err e) f s = (f, s, some (refused e))
  saved (ok memory) f s =
      let f' = record f { memory = memory } in let (s', error) = persist f' s in (f', s', error)

  unfoldable pub file_put_global :
      Str
      → Str
      → AgentConfigDocument
      → FileStore
      → disk.State
      → FileStore × disk.State × Option FileError
  unfolding saved
  file_put_global now agent_type document f s =
      saved (put_global now agent_type document f.memory) f s

  unfoldable pub file_put_machine :
      Str
      → Str
      → Str
      → AgentConfigDocument
      → FileStore
      → disk.State
      → FileStore × disk.State × Option FileError
  unfolding saved
  file_put_machine now machine_id agent_type document f s =
      saved (put_machine now machine_id agent_type document f.memory) f s

  unfoldable pub file_delete_machine :
      Str → Str → FileStore → disk.State → FileStore × disk.State × Option FileError
  unfolding saved
  file_delete_machine machine_id agent_type f s =
      saved (delete_machine machine_id agent_type f.memory) f s

  unfoldable pub file_put_console_preferences :
      ConsolePreferences → FileStore → disk.State → FileStore × disk.State × Option FileError
  unfolding saved
  file_put_console_preferences preferences f s =
      saved (ok (put_console_preferences preferences f.memory)) f s
