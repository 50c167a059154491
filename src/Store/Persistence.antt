-- ===== src/Store/Persistence.antt =====
-- The machines' state file of internal/store/store.go. The JSON codec, the file system's answers and
-- the names that it picks are not code of the repository: they are arguments. A disk is a map from
-- paths to contents.
pub mod Atomic
pub mod Restart
use happy_server_lite.Base.{
  ℕ, GoString, is_empty, Option, none, some, Bool, true, false, ◌||◌, not, lookup, insert, delete,
  eqb, if◌then◌else◌, List, [], ◌∷◌, ◌++◌, Map, take,
}
use happy_server_lite.Model.{Machine}
use happy_server_lite.Store.State.{Store, empty_store}

pub record PersistedMachinesFile : Type 0 where
  pub version : ℕ
  pub machines : List Machine
  pub saved_at : ℕ

abbrev pub Disk : Type 0
Disk = Map GoString

-- Which system calls fail this time, how much of a failed write is on disk, and the name that
-- `CreateTemp` picks.
pub record Calls : Type 0 where
  pub mkdir_fails : Bool
  pub create_fails : Bool
  pub chmod_fails : Bool
  pub write_fails : Bool
  pub sync_fails : Bool
  pub close_fails : Bool
  pub rename_fails : Bool
  pub written : ℕ
  pub tmp_name : GoString

-- `os.Rename` replaces the target in one step.
abbrev rename : GoString → GoString → GoString → Disk → Disk
rename from to contents d = insert to contents (delete from d)

-- The steps once the temporary file is there; its removal is deferred to every way out.
unfoldable pub fill_and_rename : GoString → GoString → Calls → Disk → Disk
fill_and_rename path contents calls created =
    let tmp = calls.tmp_name in
    let partly : Disk = insert tmp (take calls.written contents) created in
    let full : Disk = insert tmp contents created in
    if calls.chmod_fails
    then delete tmp created
    else if calls.write_fails
    then delete tmp partly
    else if calls.sync_fails || calls.close_fails || calls.rename_fails
    then delete tmp full
    else delete tmp (rename tmp path contents full)

-- `persistMachinesSnapshot`; `marshal` is `json.MarshalIndent`, `none` where it fails.
unfoldable pub persist_machines_snapshot :
    (PersistedMachinesFile → Option GoString) → GoString → List Machine → ℕ → Calls → Disk → Disk
unfolding fill_and_rename
persist_machines_snapshot marshal path machines now calls d =
    if is_empty path || calls.mkdir_fails
    then d
    else elim (marshal (record { version = 1; machines = machines; saved_at = now })) [
      | none ↦ d
      | some contents ↦
          if calls.create_fails
          then d
          else fill_and_rename path (contents ++ b'\n' ∷ []) calls (insert calls.tmp_name [] d)
    ]

-- What `os.ReadFile` gives.
pub data ReadResult : Type 0 where
  not_exist read_error : ReadResult
  contents_of : GoString → ReadResult

abbrev pub read_disk : GoString → Disk → ReadResult
read_disk path d = elim (lookup path d) [ none ↦ not_exist | some c ↦ contents_of c ]

pub data LoadError : Type 0 where
  cannot_read cannot_unmarshal unsupported_version : LoadError

-- The loop over the file's machines, which skips those without an identifier or an owner.
unfoldable pub load_machines : List Machine → Map Machine → Map Machine
load_machines [] machines_by_id = machines_by_id
load_machines (m ∷ ms) machines_by_id =
    load_machines ms
      (if is_empty m.id || is_empty m.user_id then machines_by_id else insert m.id m machines_by_id)

-- `loadMachinesFromFile`; `unmarshal` is `json.Unmarshal`, `none` where it fails.
unfoldable pub load_machines_from_file :
    (GoString → Option PersistedMachinesFile) → ReadResult → Store → Store × Option LoadError
unfolding load_machines
load_machines_from_file unmarshal not_exist s = (s, none)
load_machines_from_file unmarshal read_error s = (s, some cannot_read)
load_machines_from_file unmarshal (contents_of bytes) s =
    if is_empty bytes then (s, none) else elim (unmarshal bytes) [
      | none ↦ (s, some cannot_unmarshal)
      | some file ↦
          if not (eqb file.version 1)
          then (s, some unsupported_version)
          else (record s { machines_by_id = load_machines file.machines s.machines_by_id }, none)
    ]

-- `NewWithOptions`: a failed load is logged, and the store starts without the file's machines.
unfoldable pub new_with_options :
    (GoString → Option PersistedMachinesFile) → GoString → ReadResult → Store
unfolding load_machines_from_file
new_with_options unmarshal machines_state_file read =
    let s = empty_store machines_state_file in
    if is_empty machines_state_file then s else (load_machines_from_file unmarshal read s).0
